-- ===== src/Posix/Ends.antt =====
-- Total correctness of a piece of code: it ends normally, in a state with a given property.
use mathlib.Core.Path.{subst}
use echo_server.Prelude.{◌≡◌, refl, ℤ}
use echo_server.Posix.{Run, ok, exit, fault, failed, Cmd, and_then}

pub data Ends {W A : Type 0} (P : A → W → Type 0) : Run W A → Type 0 where
  ends : {a : A} {w : W} → P a w → Ends P (ok a w)

module _ {W A : Type 0} {P : A → W → Type 0} where
  pub bind :
      {B : Type 0} {Q : B → W → Type 0} {r : Run W A} (k : A → Cmd W B)
      → Ends P r
      → ((a : A) (w : W) → P a w → Ends Q (k a w))
      → Ends Q (and_then r k)
  bind k (ends {a} {w} p) next = next a w p

  pub weaken :
      {Q : A → W → Type 0} {r : Run W A} → Ends P r → ((a : A) (w : W) → P a w → Q a w) → Ends Q r
  weaken (ends {a} {w} p) f = ends (f a w p)

-- It ends so, or the process exits with status -1; there is no undefined behaviour.
pub data EndsOrFails {W A : Type 0} (P : A → W → Type 0) : Run W A → Type 0 where
  done : {a : A} {w : W} → P a w → EndsOrFails P (ok a w)
  stops : {s : ℤ} {w : W} → s ≡ failed → EndsOrFails P (exit s w)

abbrev Holds : {W A : Type 0} → (A → W → Type 0) → Run W A → Type 0
Holds P (ok a w) = P a w
Holds P _ = Unit

module _ {W A : Type 0} {P : A → W → Type 0} where
  pub bind_or_fail :
      {B : Type 0} {Q : B → W → Type 0} {r : Run W A} (k : A → Cmd W B)
      → EndsOrFails P r
      → ((a : A) (w : W) → P a w → EndsOrFails Q (k a w))
      → EndsOrFails Q (and_then r k)
  bind_or_fail k (done {a} {w} p) next = next a w p
  bind_or_fail k (stops e) next = stops e

  -- The same, where the continuation needs to know how it was reached.
  pub bind_or_fail_from :
      {B : Type 0} {Q : B → W → Type 0} {r : Run W A} (k : A → Cmd W B)
      → EndsOrFails P r
      → ((a : A) (w : W) → r ≡ ok a w → P a w → EndsOrFails Q (k a w))
      → EndsOrFails Q (and_then r k)
  bind_or_fail_from k (done {a} {w} p) next = next a w refl p
  bind_or_fail_from k (stops e) next = stops e

  pub weaken_or_fail :
      {Q : A → W → Type 0} {r : Run W A}
      → EndsOrFails P r
      → ((a : A) (w : W) → P a w → Q a w)
      → EndsOrFails Q r
  weaken_or_fail (done {a} {w} p) f = done (f a w p)
  weaken_or_fail (stops e) f = stops e

  -- The same, where the property needs to know the run.
  pub weaken_or_fail_from :
      {Q : A → W → Type 0} {r : Run W A}
      → EndsOrFails P r
      → ((a : A) (w : W) → r ≡ ok a w → P a w → Q a w)
      → EndsOrFails Q r
  weaken_or_fail_from (done {a} {w} p) f = done (f a w refl p)
  weaken_or_fail_from (stops e) f = stops e

  -- The property of a run that is known to have ended normally.
  pub of_ok : {r : Run W A} {a : A} {w : W} → EndsOrFails P r → r ≡ ok a w → P a w
  of_ok (done p) e = subst (Holds P) e p
  of_ok {a} {w} (stops {s} {w = v} h) e = cc

module _ {W A : Type 0} {P : A → W → Type 0} where
  pub Ends-EndsOrFails : {r : Run W A} → Ends P r → EndsOrFails P r
  Ends-EndsOrFails (ends p) = done p

-- The process does not exit: it ends normally with a property, or is undefined.
pub data StaysUp {W A : Type 0} (P : A → W → Type 0) : Run W A → Type 0 where
  goes : {a : A} {w : W} → P a w → StaysUp P (ok a w)
  undefined : StaysUp P fault

module _ {W A : Type 0} {P : A → W → Type 0} where
  pub bind_up :
      {B : Type 0} {Q : B → W → Type 0} {r : Run W A} (k : A → Cmd W B)
      → StaysUp P r
      → ((a : A) (w : W) → P a w → StaysUp Q (k a w))
      → StaysUp Q (and_then r k)
  bind_up k (goes {a} {w} p) next = next a w p
  bind_up k undefined next = undefined

  pub weaken_up :
      {Q : A → W → Type 0} {r : Run W A}
      → StaysUp P r
      → ((a : A) (w : W) → P a w → Q a w)
      → StaysUp Q r
  weaken_up (goes {a} {w} p) f = goes (f a w p)
  weaken_up undefined f = undefined

-- No undefined behaviour and no exit.
pub up_and_safe :
    {W A : Type 0} {P Q : A → W → Type 0} (r : Run W A) → EndsOrFails P r → StaysUp Q r → Ends P r
up_and_safe r (done p) u = ends p
up_and_safe r (stops e) u = elim u [ ]

-- The property of a run in the case that it ends normally.
pub data IfOk {W A : Type 0} (P : A → W → Type 0) : Run W A → Type 0 where
  ended : {a : A} {w : W} → P a w → IfOk P (ok a w)
  exited : {s : ℤ} {w : W} → IfOk P (exit s w)
  faulted : IfOk P fault

module _ {W A : Type 0} {P : A → W → Type 0} where
  pub bind_if :
      {B : Type 0} {Q : B → W → Type 0} {r : Run W A} (k : A → Cmd W B)
      → IfOk P r
      → ((a : A) (w : W) → P a w → IfOk Q (k a w))
      → IfOk Q (and_then r k)
  bind_if k (ended {a} {w} p) next = next a w p
  bind_if k exited next = exited
  bind_if k faulted next = faulted

  pub weaken_if :
      {Q : A → W → Type 0} {r : Run W A} → IfOk P r → ((a : A) (w : W) → P a w → Q a w) → IfOk Q r
  weaken_if (ended {a} {w} p) f = ended (f a w p)
  weaken_if exited f = exited
  weaken_if faulted f = faulted

  pub of_ended : {r : Run W A} {a : A} {w : W} → IfOk P r → r ≡ ok a w → P a w
  of_ended (ended p) e = subst (Holds P) e p
  of_ended {a} {w} (exited {s} {w = v}) e = cc
  of_ended {a} {w} faulted e = cc

  pub and_if :
      {Q : A → W → Type 0} {r : Run W A}
      → EndsOrFails Q r
      → IfOk P r
      → EndsOrFails (λ a w. Q a w × P a w) r
  and_if (done q) i = done (q, of_ended i refl)
  and_if (stops e) i = stops e

pub any_if : {W A : Type 0} (r : Run W A) → IfOk (λ _ _. Unit {0}) r
any_if (ok a w) = ended tt
any_if (exit s w) = exited
any_if fault = faulted

pub EndsOrFails-IfOk :
    {W A : Type 0} {P : A → W → Type 0} {r : Run W A} → EndsOrFails P r → IfOk P r
EndsOrFails-IfOk (done p) = ended p
EndsOrFails-IfOk (stops e) = exited
