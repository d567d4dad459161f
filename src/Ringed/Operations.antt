-- ===== src/Ringed/Operations.antt =====
-- What uring.c calls of liburing, a parameter of the model.
use echo_server.Prelude.{ℕ, ◌≡◌, List, [], Option, some, ℤ, pos}
use echo_server.Posix.{Os, Fd}

pub data Operation : Type 0 where
  receive : (fd : Fd) (len : ℕ) → Operation
  transmit : (fd : Fd) (bytes : List ℕ) → Operation

-- A completion: `res`, and for `receive` the bytes that the kernel stored in the buffer.
pub record Completion : Type 0 where
  pub res : ℤ
  pub bytes : List ℕ

-- `get_sqe` is `io_uring_get_sqe` with the call that fills the entry; `wait_cqe` gives its return
-- value and the completion.
pub record Rings : Type 1 where
  pub os : Os
  pub Ring : Type 0
  pub queue_init : (entries : ℕ) → os.World → Ring × os.World
  pub get_sqe : Operation → Ring → Option Ring
  pub submit : Ring → os.World → ℤ × Ring × os.World
  pub wait_cqe : Ring → os.World → ℤ × Completion × Ring × os.World
  pub cqe_seen : Ring → Ring

module _ (os : Os) where
  -- The system call that an operation stands for.
  abbrev pub perform : Operation → os.World → Completion × os.World
  perform (receive fd len) w = let r = os.recv fd len w in (record { res = r.0; bytes = r.1 }, r.2)
  perform (transmit fd bytes) w =
      let r = os.send fd bytes w in (record { res = r.0; bytes = [] }, r.1)

-- A new ring is idle. An idle ring takes an operation; once submitted, that is the next to complete,
-- as the system call of the same name would, and after it the ring is idle again.
pub record RingsLaws (rings : Rings) : Type 1 where
  pub Idle : rings.Ring → Type 0
  pub init_idle : (entries : ℕ) (w : rings.os.World) → Idle (rings.queue_init entries w).0
  pub init_quiet : (entries : ℕ) (w : rings.os.World) → (rings.queue_init entries w).1 ≡ w
  pub queued : Operation → rings.Ring → rings.Ring
  pub get_some :
      (op : Operation) (r : rings.Ring) → Idle r → rings.get_sqe op r ≡ some (queued op r)
  pub completed : Operation → rings.Ring → rings.os.World → rings.Ring
  pub completes :
      (op : Operation) (r : rings.Ring) (w : rings.os.World)
      → Idle r
      → (n : ℕ) × (let sent = rings.submit (queued op r) w in
          rings.wait_cqe sent.1 sent.2
          ≡ (pos n, (perform rings.os op w).0, completed op r w, (perform rings.os op w).1))
  pub seen_idle :
      (op : Operation) (r : rings.Ring) (w : rings.os.World)
      → Idle r
      → Idle (rings.cqe_seen (completed op r w))
