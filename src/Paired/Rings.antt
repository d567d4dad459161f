-- ===== src/Paired/Rings.antt =====
-- What uring2.c calls of liburing, a parameter of the model.
use echo_server.Prelude.{ℕ, ◌≡◌, List, [], ◌∷◌, Option, some, ℤ}
use echo_server.Posix.{Os, Fd}
use echo_server.Ringed.Operations.{Operation, receive, transmit, Completion, perform}

-- `wait_cqes` waits for as many completions as it is told; it gives its return value and what the
-- completion queue holds.
pub record PairRings : Type 1 where
  pub os : Os
  pub Ring : Type 0
  pub queue_init : (entries : ℕ) → os.World → Ring × os.World
  pub get_sqe : Operation → Ring → Option Ring
  pub submit : Ring → os.World → ℤ × Ring × os.World
  pub wait_cqes : (count : ℕ) → Ring → os.World → ℤ × List Completion × Ring × os.World
  pub cq_advance : (count : ℕ) → Ring → Ring

-- Two completions, in either order.
pub data InAnyOrder (a b : Completion) : List Completion → Type 0 where
  first : InAnyOrder a b (a ∷ b ∷ [])
  second : InAnyOrder a b (b ∷ a ∷ [])

-- A reply and a read that were carried out as the system calls of their names, one behind the other.
pub data CarriedOut (os : Os) (fd : Fd) (bytes : List ℕ) (len : ℕ) (w : os.World)
    : Completion → Completion → os.World → Type 0 where
  reply_first :
      CarriedOut os fd bytes len w
        (perform os (transmit fd bytes) w).0
        (perform os (receive fd len) (perform os (transmit fd bytes) w).1).0
        (perform os (receive fd len) (perform os (transmit fd bytes) w).1).1
  read_first :
      CarriedOut os fd bytes len w
        (perform os (transmit fd bytes) (perform os (receive fd len) w).1).0
        (perform os (receive fd len) w).0
        (perform os (transmit fd bytes) (perform os (receive fd len) w).1).1

-- An idle ring of two places takes both entries.
pub record Both (rings : PairRings) (Idle : rings.Ring → Type 0) (fd : Fd) (bytes : List ℕ)
    (len : ℕ) (r : rings.Ring) (w : rings.os.World) : Type 0 where
  pub with_reply : rings.Ring
  pub with_both : rings.Ring
  pub first_place : rings.get_sqe (transmit fd bytes) r ≡ some with_reply
  pub second_place : rings.get_sqe (receive fd len) with_reply ≡ some with_both
  pub result : ℤ
  pub reply : Completion
  pub read : Completion
  pub completions : List Completion
  pub ring : rings.Ring
  pub world : rings.os.World
  pub waited :
      (let sent = rings.submit with_both w in
        rings.wait_cqes 2 sent.1 sent.2 ≡ (result, completions, ring, world))
  pub listed : InAnyOrder reply read completions
  pub carried_out : CarriedOut rings.os fd bytes len w reply read world
  pub idle : Idle (rings.cq_advance 2 ring)

-- A new ring is idle. A reply and a read on an idle ring complete in either order, both as the
-- system calls would, and when they have been seen the ring is idle again.
pub record PairLaws (rings : PairRings) : Type 1 where
  pub Idle : rings.Ring → Type 0
  pub init_idle : (entries : ℕ) (w : rings.os.World) → Idle (rings.queue_init entries w).0
  pub init_quiet : (entries : ℕ) (w : rings.os.World) → (rings.queue_init entries w).1 ≡ w
  pub both :
      (fd : Fd) (bytes : List ℕ) (len : ℕ) (r : rings.Ring) (w : rings.os.World)
      → Idle r
      → Both rings Idle fd bytes len r w
