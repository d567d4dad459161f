-- ===== src/I10e/Poll.antt =====
-- The descriptors that rq_poll_once of i10e.c visits.
use mathlib.Core.Option
use echo_server.Prelude.{
  ℕ, zero, suc, ◌+◌, ◌-◌, ◌%◌, ◌≤◌, ◌<◌, ◌≡◌, refl, ap, true, List, [], ◌∷◌, none, some, ltb, arith,
}
use native.Mathlib.Nat.{mod-eq_of_lt}
use echo_server.I10e.{rq_len, first_prepared, poll_from, rq_poll_once}

-- The `n` indices from `i` on.
abbrev pub indices : ℕ → ℕ → List ℕ
indices zero i = []
indices (suc n) i = i ∷ indices n (i + 1)

poll_from-indices :
    (n fuel i stop : ℕ)
    → stop ≤ 127
    → n ≡ stop - i
    → n < fuel
    → poll_from fuel i stop ≡ some (indices n i)
unfolding poll_from
poll_from-indices n zero i stop h e f = absurd (omega arith)
poll_from-indices zero (suc fuel) i stop h e f = ground arith
poll_from-indices (suc n) (suc fuel) i stop h e f =
    rw (visits, poll_from, mod-eq_of_lt {n = i + 1} {m = 128} (omega arith))
      (ap (Option.map (λ rest. i ∷ rest))
        (poll_from-indices n fuel (i + 1) stop h (omega arith) (omega arith)))
  where
    visits : ltb i stop ≡ true
    visits = ground arith

prepared-lt : (rdt : ℕ) → first_prepared rdt < rq_len
unfolding first_prepared
prepared-lt rdt = omega arith

-- For a head register below 128, one poll of the ring ends within 128 rounds and visits the
-- indices from the first prepared one up to the head, so none at all where the head is not
-- ahead of it.
pub rq_poll_once-indices :
    (rdh rdt : ℕ)
    → rdh < rq_len
    → rq_poll_once rq_len rdh rdt ≡ some (indices (rdh - first_prepared rdt) (first_prepared rdt))
unfolding rq_poll_once
rq_poll_once-indices rdh rdt h =
    poll_from-indices (rdh - first_prepared rdt) rq_len (first_prepared rdt) rdh (omega arith) refl
      (omega arith)

poll_from_forever : (fuel i stop : ℕ) → rq_len ≤ stop → i < rq_len → poll_from fuel i stop ≡ none
unfolding poll_from
poll_from_forever zero i stop h k = refl
poll_from_forever (suc fuel) i stop h k =
    rw (visits, poll_from)
      (ap (Option.map (λ rest. i ∷ rest))
        (poll_from_forever fuel ((i + 1) % rq_len) stop h (omega arith)))
  where
    visits : ltb i stop ≡ true
    visits = ground arith

-- For a head register of 128 or more, the loop of the poll has not ended after any number of
-- rounds.
pub rq_poll_once_hangs : (fuel rdh rdt : ℕ) → rq_len ≤ rdh → rq_poll_once fuel rdh rdt ≡ none
unfolding rq_poll_once
rq_poll_once_hangs fuel rdh rdt h =
    poll_from_forever fuel (first_prepared rdt) rdh h (prepared-lt rdt)
