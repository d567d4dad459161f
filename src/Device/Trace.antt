-- ===== src/Device/Trace.antt =====
-- What a log of accesses says of the registers and of the memory.
use echo_server.Prelude.{
  ℕ, zero, suc, ◌≤◌, ◌≡◌, arith, Bool-cases, inl, inr, refl, ◌∙◌, List, [], ◌∷◌, Bool, true, false,
  Option, none, some, ◌==◌, if◌then◌else◌,
}
use echo_server.Posix.{Run, Cmd}
use echo_server.Posix.Ends
use echo_server.Posix.Ends.{Ends, ends, EndsOrFails, done}
use echo_server.Device.{
  Event, wrote, asked, stored, looked, slept, Driver, lift_run, on_dma, loop_while,
}
use echo_server.Dma.{Dma}

-- The value that was last written to a register.
abbrev pub last_write : List Event → (offset : ℕ) → Option ℕ
last_write [] offset = none
last_write (wrote o value ∷ log) offset = if o == offset then some value else last_write log offset
last_write (_ ∷ log) offset = last_write log offset

-- The words that were last stored at an address.
abbrev pub last_store : List Event → (address : ℕ) → Option (List ℕ)
last_store [] address = none
last_store (stored a words ∷ log) address =
    if a == address then some words else last_store log address
last_store (_ ∷ log) address = last_store log address

-- How often a word of memory was read.
abbrev pub looks : (address : ℕ) → List Event → ℕ
looks address [] = 0
looks address (looked a ∷ log) = if a == address then suc (looks address log) else looks address log
looks address (_ ∷ log) = looks address log

-- The second log is the first one after reads and pauses.
pub data Quiet (log : List Event) : List Event → Type 0 where
  same : Quiet log log
  then_asked : {o : ℕ} {log' : List Event} → Quiet log log' → Quiet log (asked o ∷ log')
  then_looked : {a : ℕ} {log' : List Event} → Quiet log log' → Quiet log (looked a ∷ log')
  then_slept : {n : ℕ} {log' : List Event} → Quiet log log' → Quiet log (slept n ∷ log')

pub Quiet-trans :
    {log log' log'' : List Event} → Quiet log log' → Quiet log' log'' → Quiet log log''
Quiet-trans p same = p
Quiet-trans p (then_asked q) = then_asked (Quiet-trans p q)
Quiet-trans p (then_looked q) = then_looked (Quiet-trans p q)
Quiet-trans p (then_slept q) = then_slept (Quiet-trans p q)

pub last_write-Quiet :
    {log log' : List Event} (offset : ℕ)
    → Quiet log log'
    → last_write log' offset ≡ last_write log offset
last_write-Quiet offset same = refl
last_write-Quiet offset (then_asked q) = last_write-Quiet offset q
last_write-Quiet offset (then_looked q) = last_write-Quiet offset q
last_write-Quiet offset (then_slept q) = last_write-Quiet offset q

pub last_store-Quiet :
    {log log' : List Event} (address : ℕ)
    → Quiet log log'
    → last_store log' address ≡ last_store log address
last_store-Quiet address same = refl
last_store-Quiet address (then_asked q) = last_store-Quiet address q
last_store-Quiet address (then_looked q) = last_store-Quiet address q
last_store-Quiet address (then_slept q) = last_store-Quiet address q

pub looks-Quiet :
    {log log' : List Event} (address : ℕ) → Quiet log log' → looks address log ≤ looks address log'
looks-Quiet address same = omega arith
looks-Quiet address (then_asked q) = looks-Quiet address q
looks-Quiet address (then_looked {a} {log'} q) =
    let h = looks-Quiet address q in
    elim (Bool-cases (a == address)) [
      | inl here ↦ rw here (omega (arith, h))
      | inr other ↦ rw other h
    ]
looks-Quiet address (then_slept q) = looks-Quiet address q

-- Reads and pauses, and no allocation.
pub record Waited (s s' : Driver) : Type 0 where
  pub same_dma : s'.dma ≡ s.dma
  pub quiet : Quiet s.log s'.log

pub Waited-trans : {s v u : Driver} → Waited s v → Waited v u → Waited s u
Waited-trans w x = record {
  same_dma = x.same_dma ∙ w.same_dma;
  quiet = Quiet-trans w.quiet x.quiet;
}

pub loop_while-Waited :
    (k : ℕ) (body : Cmd Driver Bool)
    → ((s : Driver) → Ends (λ b s'. Waited s s') (body s))
    → (s : Driver) → Ends (λ b s'. Waited s s') (loop_while k body s)
unfolding loop_while
loop_while-Waited zero body each s = ends (record { same_dma = refl; quiet = same })
loop_while-Waited (suc k) body each s = Ends.bind _ (each s) elim [
  | true ↦ λ v w. Ends.weaken (loop_while-Waited k body each v) (λ b u x. Waited-trans w x)
  | false ↦ λ v w. ends w
]

-- The same for a body that can exit.
pub loop_while-WaitedOrFails :
    (k : ℕ) (body : Cmd Driver Bool)
    → ((s : Driver) → EndsOrFails (λ b s'. Waited s s') (body s))
    → (s : Driver) → EndsOrFails (λ b s'. Waited s s') (loop_while k body s)
unfolding loop_while
loop_while-WaitedOrFails zero body each s = done (record { same_dma = refl; quiet = same })
loop_while-WaitedOrFails (suc k) body each s = Ends.bind_or_fail _ (each s) elim [
  | true ↦ λ v w.
      Ends.weaken_or_fail (loop_while-WaitedOrFails k body each v) (λ b u x. Waited-trans w x)
  | false ↦ λ v w. done w
]

-- The allocator leaves no trace.
module _ {A : Type 0} {P : A → Dma → Type 0} where
  lift_run-Ends :
      (s : Driver) {r : Run Dma A}
      → Ends P r
      → Ends (λ a s'. P a s'.dma × (s'.log ≡ s.log)) (lift_run s r)
  lift_run-Ends s (ends p) = ends (p, refl)

  pub on_dma-Ends :
      (m : Cmd Dma A) (s : Driver)
      → Ends P (m s.dma)
      → Ends (λ a s'. P a s'.dma × (s'.log ≡ s.log)) (on_dma m s)
  on_dma-Ends m s h = lift_run-Ends s h
