-- ===== src/Device.antt =====
-- A network card as its driver sees it: the accesses of i10e.c and x710.c to the registers behind
-- `bar0_base` and to the memory that they share with the card. The card is a parameter.
pub mod Trace
use echo_server.Prelude.{
  ℕ, zero, suc, List, [], ◌∷◌, Bool, true, false, Option, none, some, ◌==◌, if◌then◌else◌,
}
use echo_server.Posix.{Run, ok, exit, fault, Cmd, pure, ◌>>=◌}
use echo_server.Dma.{Dma, u32}

-- What the driver does that the card can see. `stored` is the 32-bit words that a descriptor has
-- after the writes to it.
pub data Event : Type 0 where
  wrote : (offset value : ℕ) → Event
  asked : (offset : ℕ) → Event
  stored : (address : ℕ) (words : List ℕ) → Event
  looked : (address : ℕ) → Event
  slept : (nanoseconds : ℕ) → Event
  configured : (offset value : ℕ) → Event
  probed : (offset : ℕ) → Event

-- What is read of a register, or of a word in memory, after the events of a log, the last one in
-- front.
pub record Card : Type 0 where
  pub register : List Event → (offset : ℕ) → ℕ
  pub word : List Event → (address : ℕ) → ℕ

pub record Driver : Type 0 where
  pub dma : Dma
  pub log : List Event

abbrev pub note : Event → Cmd Driver (Unit {0})
note e s = ok tt (record s { log = e ∷ s.log })

abbrev pub bar0_write : (offset val : ℕ) → Cmd Driver (Unit {0})
bar0_write offset val = note (wrote offset (u32 val))

abbrev pub nanosleep : ℕ → Cmd Driver (Unit {0})
nanosleep n = note (slept n)

abbrev pub store : (address : ℕ) (words : List ℕ) → Cmd Driver (Unit {0})
store address words = note (stored address words)

abbrev pub lift_run : {A : Type 0} → Driver → Run Dma A → Run Driver A
lift_run s (ok a d) = ok a (record s { dma = d })
lift_run s (exit status d) = exit status (record s { dma = d })
lift_run s fault = fault

-- A command on the allocator.
abbrev pub on_dma : {A : Type 0} → Cmd Dma A → Cmd Driver A
on_dma m s = lift_run s (m s.dma)

-- The first `k` rounds of a loop that goes on while its body gives `true`: whether it has ended.
unfoldable pub loop_while : (k : ℕ) → Cmd Driver Bool → Cmd Driver Bool
loop_while zero body = pure false
loop_while (suc k) body = do busy ← body; elim busy [ true ↦ loop_while k body | false ↦ pure true ]

module _ (card : Card) where
  abbrev pub bar0_read : (offset : ℕ) → Cmd Driver ℕ
  bar0_read offset s =
      ok (u32 (card.register s.log offset)) (record s { log = asked offset ∷ s.log })

  abbrev pub load : (address : ℕ) → Cmd Driver ℕ
  load address s = ok (u32 (card.word s.log address)) (record s { log = looked address ∷ s.log })
