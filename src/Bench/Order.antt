-- ===== src/Bench/Order.antt =====
-- The order of events in bench, by what the semaphores have counted.
use mathlib.Core.Path.{subst}
use echo_server.Prelude.{
  ℕ, zero, suc, ◌+◌, ◌≤◌, ◌<◌, ◌≡◌, refl, sym, ap, ◌∙◌, ◌⊎◌, inl, inr, List, [], ◌∷◌, ◌++◌, length,
  length-append, arith,
}
use echo_server.Bench.{
  lost, starting, Thread, Sems, Main, aggregating, System, system, thread, no_args, Move, start,
  warm_up, begin, operate, finish, report, run_on, Step, create, create_fails, created, hear, heard,
  slept, signal, signalled, observed, end_one, ended, collect, collected, client, Reach, here, next,
  initial,
}
use echo_server.Bench.Counts.{
  past_start, past_begin, past_finish, past_report, total, total-split, to_create, to_hear,
  to_signal, to_end, to_collect,
}

pub record Balanced (n : ℕ) (s : System) : Type 0 where
  pub threads : length s.threads + to_create n s.main ≡ n
  pub started : s.sems.started + n ≡ total past_start s.threads + to_hear n s.main
  pub signals : s.sems.should_measure + total past_begin s.threads + to_signal n s.main ≡ n
  pub ends : s.sems.should_report + total past_finish s.threads + to_end n s.main ≡ n
  pub reports : s.sems.reported + n ≡ total past_report s.threads + to_collect n s.main

initial-Balanced : (n : ℕ) → Balanced n (initial n)
unfolding total
initial-Balanced n = omega arith

-- A thread among the others, as all the counts see it.
record Among (xs ys : List Thread) (t : Thread) : Type 0 where
  size : length (xs ++ t ∷ ys) ≡ length xs + 1 + length ys
  started :
      total past_start (xs ++ t ∷ ys) ≡ total past_start xs + past_start t + total past_start ys
  began : total past_begin (xs ++ t ∷ ys) ≡ total past_begin xs + past_begin t + total past_begin ys
  finished :
      total past_finish (xs ++ t ∷ ys) ≡ total past_finish xs + past_finish t + total past_finish ys
  reported :
      total past_report (xs ++ t ∷ ys) ≡ total past_report xs + past_report t + total past_report ys

among : (xs ys : List Thread) (t : Thread) → Among xs ys t
among xs ys t = record {
  size = omega (arith, length-append {0} xs (t ∷ ys));
  started = total-split past_start xs ys t;
  began = total-split past_begin xs ys t;
  finished = total-split past_finish xs ys t;
  reported = total-split past_report xs ys t;
}

Move-Balanced :
    (n : ℕ) {m : Main} {s s' : Sems} {t t' : Thread} (xs ys : List Thread)
    → Among xs ys t
    → Among xs ys t'
    → Move s t s' t'
    → Balanced n (system m s (xs ++ t ∷ ys))
    → Balanced n (system m s' (xs ++ t' ∷ ys))
Move-Balanced n xs ys a a' start b = omega arith
Move-Balanced n xs ys a a' (warm_up none_yet) b = omega arith
Move-Balanced n xs ys a a' (begin k e) b = omega arith
Move-Balanced n xs ys a a' (operate none_yet) b = omega arith
Move-Balanced n xs ys a a' (finish k elapsed e) b = omega arith
Move-Balanced n xs ys a a' report b = omega arith
Move-Balanced n xs ys a a' run_on b = omega arith

Step-Balanced : (n : ℕ) {s s' : System} → Step n s s' → Balanced n s → Balanced n s'
Step-Balanced n (create {ts}) b =
    let a = among ts [] (thread starting no_args) in unfold total in omega arith
Step-Balanced n (create_fails {ts}) b =
    let a = among ts [] (thread lost no_args) in unfold total in omega arith
Step-Balanced n created b = omega arith
Step-Balanced n (hear m e) b = omega arith
Step-Balanced n heard b = omega arith
Step-Balanced n slept b = omega arith
Step-Balanced n signal b = omega arith
Step-Balanced n signalled b = omega arith
Step-Balanced n observed b = omega arith
Step-Balanced n end_one b = omega arith
Step-Balanced n ended b = omega arith
Step-Balanced n (collect m e) b = omega arith
Step-Balanced n collected b = omega arith
Step-Balanced n (client {t} {t'} xs ys mv) b =
    Move-Balanced n xs ys (among xs ys t) (among xs ys t') mv b

pub Reach-Balanced : (n : ℕ) {s : System} → Reach n (initial n) s → Balanced n s
Reach-Balanced n here = initial-Balanced n
Reach-Balanced n (next r st) = Step-Balanced n st (Reach-Balanced n r)

abbrev pub AllOf : (Thread → ℕ) → List Thread → Type 0
AllOf f [] = Unit
AllOf f (t ∷ ts) = (f t ≡ 1) × AllOf f ts

-- A test of threads gives 0 or 1.
abbrev IsTest : (Thread → ℕ) → Type 0
IsTest f = (t : Thread) → f t ≤ 1

pub total-le : (f : Thread → ℕ) → IsTest f → (ts : List Thread) → total f ts ≤ length ts
unfolding total
total-le f test [] = omega arith
total-le f test (t ∷ ts) = omega (arith, test t, total-le f test ts)

AllOf-total : (f : Thread → ℕ) → IsTest f → (ts : List Thread) → length ts ≤ total f ts → AllOf f ts
unfolding total
AllOf-total f test [] h = tt
AllOf-total f test (t ∷ ts) h =
    (omega (arith, test t, total-le f test ts), AllOf-total f test ts (omega (arith, test t)))

pub past_start-IsTest : IsTest past_start
past_start-IsTest t = ground arith

pub past_begin-IsTest : IsTest past_begin
past_begin-IsTest t = ground arith

pub past_finish-IsTest : IsTest past_finish
past_finish-IsTest t = ground arith

pub past_report-IsTest : IsTest past_report
past_report-IsTest t = ground arith

-- A signal to measure is sent only when every thread was heard.
signals-after-start : (n : ℕ) (m : Main) → to_signal n m < n → to_hear n m ≡ 0
signals-after-start n m h = ground arith

ends-after-signals : (n : ℕ) (m : Main) → to_end n m < n → to_signal n m ≡ 0
ends-after-signals n m h = ground arith

pub zero_or_pos : (v : ℕ) → (v ≡ 0) ⊎ (0 < v)
zero_or_pos zero = inl refl
zero_or_pos (suc v) = inr (omega arith)

begun :
    (n : ℕ) (s : System)
    → Balanced n s
    → 0 < total past_begin s.threads
    → AllOf past_start s.threads × (length s.threads ≡ n)
begun n s b some_began =
    let heard_all : to_hear n s.main ≡ 0 = signals-after-start n s.main (omega arith) in
    (
      AllOf-total past_start past_start-IsTest s.threads (omega arith),
      omega (arith, total-le past_start past_start-IsTest s.threads),
    )

-- In every state that bench reaches with n threads, in any order of steps, no thread has begun
-- to measure unless all n threads were created and have done their first operation, and none
-- has finished its measurement unless the main thread has sent all n signals to measure.
pub measuring_order :
    (n : ℕ) (s : System)
    → Reach n (initial n) s
    → ((total past_begin s.threads ≡ 0) ⊎ (AllOf past_start s.threads × (length s.threads ≡ n)))
      × ((total past_finish s.threads ≡ 0) ⊎ (to_signal n s.main ≡ 0))
measuring_order n s r = (
  elim (zero_or_pos (total past_begin s.threads)) [
    | inl e ↦ inl e
    | inr some_began ↦ inr (begun n s (Reach-Balanced n r) some_began)
  ],
  elim (zero_or_pos (total past_finish s.threads)) [
    | inl e ↦ inl e
    | inr some_finished ↦ inr (ends-after-signals n s.main (omega (arith, Reach-Balanced n r)))
  ],
)

at_split : (f : Thread → ℕ) (xs ys : List Thread) (t : Thread) → AllOf f (xs ++ t ∷ ys) → f t ≡ 1
at_split f [] ys t all = all.0
at_split f (x ∷ xs) ys t all = at_split f xs ys t all.1

move_of_running :
    {s s' : Sems} {t t' : Thread} → Move s t s' t' → past_report t ≡ 1 → (s' ≡ s) × (t' ≡ t)
move_of_running start h = absurd (omega arith)
move_of_running (warm_up e) h = absurd (omega arith)
move_of_running (begin k e) h = absurd (omega arith)
move_of_running (operate e) h = absurd (omega arith)
move_of_running (finish k elapsed e) h = absurd (omega arith)
move_of_running report h = absurd (omega arith)
move_of_running run_on h = (refl, refl)

-- When all have reported and the main thread aggregates, nothing changes any more.
only_run_on :
    {n : ℕ} {s s' : System}
    → Step n s s'
    → s.main ≡ aggregating
    → AllOf past_report s.threads
    → s' ≡ s
only_run_on create at all = cc
only_run_on create_fails at all = cc
only_run_on created at all = cc
only_run_on (hear m e) at all = cc
only_run_on heard at all = cc
only_run_on slept at all = cc
only_run_on signal at all = cc
only_run_on signalled at all = cc
only_run_on observed at all = cc
only_run_on end_one at all = cc
only_run_on ended at all = cc
only_run_on (collect m e) at all = cc
only_run_on collected at all = cc
only_run_on (client {m} {t} xs ys mv) at all =
    let (same, still) = move_of_running mv (at_split past_report xs ys t all) in
    rw (same, still) refl

nothing_left :
    {n : ℕ} {s s' : System}
    → Reach n s s'
    → s.main ≡ aggregating
    → AllOf past_report s.threads
    → s' ≡ s
nothing_left here at all = refl
nothing_left (next r st) at all =
    let e = nothing_left r at all in
    only_run_on st (ap (λ u. u.main) e ∙ at) (subst (λ u. AllOf past_report u.threads) (sym e) all)
    ∙ e

-- When the main thread of bench aggregates, all n threads were created and have reported, and
-- whatever runs later leaves the whole state as it is, the measurements included.
pub aggregating-final :
    (n : ℕ) (s s' : System)
    → Reach n (initial n) s
    → s.main ≡ aggregating
    → Reach n s s'
    → AllOf past_report s.threads × (length s.threads ≡ n) × (s' ≡ s)
aggregating-final n s s' r at later =
    let b = Reach-Balanced n r in
    let none_left : (to_collect n s.main ≡ 0) × (to_create n s.main ≡ 0) = rw at (refl, refl) in
    let all = AllOf-total past_report past_report-IsTest s.threads (omega arith) in
    (all, omega arith, nothing_left later at all)
