-- ===== src/Sharded/Liburing.antt =====
-- What io_uring_sharded.c calls of liburing, which is not part of the repository: a submission
-- queue is a parameter, with the laws that its manual states.
use echo_server.Prelude.{
  ℕ, ◌≤◌, ◌<◌, ◌≡◌, Bool, false, List, [], ◌∷◌, ◌++◌, Option, none, some, length,
}
use echo_server.Posix.{Fd}

-- The memory that an operation reads or fills: the announced size, the array for the greeting, or a
-- threadlet's buffer.
pub data Mem : Type 0 where
  msg_size_conv : Mem
  header_buf : Mem
  heap : ℕ → Mem

pub data Op : Type 0 where
  accept : (listen_fd : Fd) → Op
  send : (fd : Fd) → Mem → (len : ℕ) → Op
  recv : (fd : Fd) → Mem → (len : ℕ) → Op

pub record Sqe : Type 0 where
  pub op : Op
  pub user_data : Option ℕ
  pub link : Bool

-- An entry with no flags.
abbrev pub sqe : Op → Option ℕ → Sqe
sqe op user = record { op = op; user_data = user; link = false }

-- `enqueue` is `io_uring_get_sqe` with the calls that fill the entry; `none` is the null pointer.
pub record Uring : Type 1 where
  pub Ring : Type 0
  pub enqueue : Sqe → Ring → Option Ring
  pub submit : Ring → Ring

-- The queue has `entries` places, gives one as long as there is room, and keeps the order. A
-- submission hands all of it to the kernel.
pub record UringLaws (uring : Uring) : Type 0 where
  pub entries : ℕ
  pub queued : uring.Ring → List Sqe
  pub enqueue_full :
      (e : Sqe) (r : uring.Ring) → entries ≤ length (queued r) → uring.enqueue e r ≡ none
  pub enqueue_room :
      (e : Sqe) (r : uring.Ring)
      → length (queued r) < entries
      → (r' : uring.Ring) × (uring.enqueue e r ≡ some r') × (queued r' ≡ queued r ++ e ∷ [])
  pub submit_all : (r : uring.Ring) → queued (uring.submit r) ≡ []
