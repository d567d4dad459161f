-- ===== src/Client/Report.antt =====
-- The combined report of client.c.
use echo_server.Prelude.{
  ℕ, ◌+◌, ◌*◌, ◌/◌, ◌%◌, ◌^◌, ◌≤◌, ◌<◌, ◌≡◌, refl, List, [], ◌∷◌, ap, ◌∙◌, ◌++◌, ◌==◌, false, inl,
  inr, Bool-cases, arith,
}
use native.Mathlib.Nat.{mod-eq_of_lt, div-mul-le_self, lt-div-mul-add}
use echo_server.Posix.{fault}
use echo_server.Posix.Ends
use echo_server.Posix.Ends.{Ends, ends}
use echo_server.Client.{ThreadArgs, Totals, rate, aggregate}

rate-eq :
    (a : ThreadArgs)
    → a.num_ops * 1000000000 + a.runtime < 2 ^ 64
    → rate a ≡ (a.num_ops * 1000000000 + a.runtime / 2) / a.runtime
unfolding rate
rate-eq a small =
    ap (λ n. (n + a.runtime / 2) % 2 ^ 64 / a.runtime) (mod-eq_of_lt (omega arith))
    ∙ ap (λ n. n / a.runtime) (mod-eq_of_lt (omega arith))

-- For a runtime above zero and counts that fit in 64 bits, the rate of a thread is the exact
-- quotient rounded to a nearest integer.
pub rate_nearest :
    (a : ThreadArgs)
    → 0 < a.runtime
    → a.num_ops * 1000000000 + a.runtime < 2 ^ 64
    → (2 * (rate a * a.runtime) ≤ 2 * (a.num_ops * 1000000000) + a.runtime)
      × (2 * (a.num_ops * 1000000000) ≤ 2 * (rate a * a.runtime) + a.runtime)
rate_nearest a h small =
    let n = a.num_ops * 1000000000 + a.runtime / 2 in
    rw (rate-eq a small)
      (omega (arith, div-mul-le_self n a.runtime, lt-div-mul-add {a = n} {b = a.runtime} h))

abbrev pub total_ops : List ThreadArgs → ℕ
total_ops [] = 0
total_ops (a ∷ rest) = a.num_ops + total_ops rest

abbrev pub total_rate : List ThreadArgs → ℕ
total_rate [] = 0
total_rate (a ∷ rest) = rate a + total_rate rest

abbrev pub AllTimed : List ThreadArgs → Type 0
AllTimed [] = Unit
AllTimed (a ∷ rest) = (0 < a.runtime) × AllTimed rest

-- The loop from the totals `t` on.
aggregate-from :
    {W : Type 0} (args : List ThreadArgs) (t : Totals) (w : W)
    → AllTimed args
    → t.num_ops + total_ops args < 2 ^ 64
    → t.throughput + total_rate args < 2 ^ 64
    → Ends
        (λ r v.
          (r.num_ops ≡ t.num_ops + total_ops args)
          × (r.throughput ≡ t.throughput + total_rate args)
          × (v ≡ w))
        (aggregate args t w)
unfolding aggregate
aggregate-from [] t w timed ops rates = ends (omega arith, omega arith, refl)
aggregate-from (a ∷ rest) t w timed ops rates = rw timed_first (
    Ends.weaken (aggregate-from rest next w timed.1 (omega arith) (omega arith))
      λ r v h. (omega (arith, h.0), omega (arith, h.1), h.2))
  where
    next : Totals
    next = record {
      num_ops = (t.num_ops + a.num_ops) % 2 ^ 64;
      throughput = (t.throughput + rate a) % 2 ^ 64;
    }

    timed_first : (a.runtime == 0) ≡ false
    timed_first = ground arith

-- Where every thread has a runtime above zero and the totals fit in 64 bits, the aggregation
-- ends with the sum of the operations and the sum of the rates, and changes nothing else.
pub aggregate-sums :
    {W : Type 0} (args : List ThreadArgs) (w : W)
    → AllTimed args
    → total_ops args < 2 ^ 64
    → total_rate args < 2 ^ 64
    → Ends
        (λ r v. (r.num_ops ≡ total_ops args) × (r.throughput ≡ total_rate args) × (v ≡ w))
        (aggregate args (record { num_ops = 0; throughput = 0 }) w)
aggregate-sums args w timed ops rates =
    Ends.weaken
      (aggregate-from args (record { num_ops = 0; throughput = 0 }) w timed (omega arith)
        (omega arith))
      λ r v h. (omega (arith, h.0), omega (arith, h.1), h.2)

-- The aggregation is a division by zero as soon as one of the threads reports a runtime of
-- zero, wherever it stands among them.
pub aggregate-untimed :
    {W : Type 0} (before after : List ThreadArgs) (a : ThreadArgs) (t : Totals) (w : W)
    → a.runtime ≡ 0
    → aggregate (before ++ a ∷ after) t w ≡ fault
unfolding aggregate
aggregate-untimed [] after a t w zero_time = ground arith
aggregate-untimed (b ∷ before) after a t w zero_time = elim (Bool-cases (b.runtime == 0)) [
  | inl z ↦ rw z refl
  | inr nz ↦ rw nz (aggregate-untimed before after a _ w zero_time)
]
