-- ===== src/Bench/Counts.antt =====
-- The threads of bench, counted by the points that they have passed, and what the main thread has
-- still to do.

use echo_server.Prelude.{ℕ, ◌+◌, ◌≡◌, List, [], ◌∷◌, ◌++◌, arith}
use echo_server.Bench.{
  lost, starting, measuring, timed, running, Thread, Main, creating, awaiting, sleeping, signalling,
  ending, collecting, aggregating,
}

abbrev pub is_lost : Thread → ℕ
is_lost t = elim t.pc [ lost ↦ 1 | _ ↦ 0 ]

-- Which threads have passed a point, as 1 or 0.
abbrev pub past_start : Thread → ℕ
past_start t = elim t.pc [ lost ↦ 0 | starting ↦ 0 | _ ↦ 1 ]

abbrev pub past_begin : Thread → ℕ
past_begin t = elim t.pc [ measuring ↦ 1 | timed ↦ 1 | running ↦ 1 | _ ↦ 0 ]

abbrev pub past_finish : Thread → ℕ
past_finish t = elim t.pc [ timed ↦ 1 | running ↦ 1 | _ ↦ 0 ]

abbrev pub past_report : Thread → ℕ
past_report t = elim t.pc [ running ↦ 1 | _ ↦ 0 ]

unfoldable pub total : (Thread → ℕ) → List Thread → ℕ
total f [] = 0
total f (t ∷ ts) = f t + total f ts

pub total-append :
    (f : Thread → ℕ) (xs ys : List Thread) → total f (xs ++ ys) ≡ total f xs + total f ys
unfolding total
total-append f [] ys = omega arith
total-append f (x ∷ xs) ys = omega (arith, total-append f xs ys)

-- One thread among the others.
pub total-split :
    (f : Thread → ℕ) (xs ys : List Thread) (t : Thread)
    → total f (xs ++ t ∷ ys) ≡ total f xs + f t + total f ys
unfolding total
total-split f xs ys t = omega (arith, total-append f xs (t ∷ ys))

pub total-last :
    (f : Thread → ℕ) (xs : List Thread) (t : Thread) → total f (xs ++ t ∷ []) ≡ total f xs + f t
unfolding total
total-last f xs t = omega (arith, total-append f xs (t ∷ []))

-- What the main thread has still to do, of the four loops over semaphores and of the first.
abbrev pub to_create : ℕ → Main → ℕ
to_create n m = elim m [ creating k ↦ k | _ ↦ 0 ]

abbrev pub to_hear : ℕ → Main → ℕ
to_hear n m = elim m [ creating k ↦ n | awaiting k ↦ k | _ ↦ 0 ]

abbrev pub to_signal : ℕ → Main → ℕ
to_signal n m = elim m [ creating k ↦ n | awaiting k ↦ n | sleeping ↦ n | signalling k ↦ k | _ ↦ 0 ]

abbrev pub to_end : ℕ → Main → ℕ
to_end n m = elim m [ ending k ↦ k | collecting k ↦ 0 | aggregating ↦ 0 | _ ↦ n ]

abbrev pub to_collect : ℕ → Main → ℕ
to_collect n m = elim m [ collecting k ↦ k | aggregating ↦ 0 | _ ↦ n ]
