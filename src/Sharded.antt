-- ===== src/Sharded.antt =====
-- io_uring_sharded.c: one thread drives all its connections from the completions of a ring. A
-- connection is a "threadlet": a heap cell that says which completion it waits for.
pub mod Liburing
pub mod Handlers
pub mod Completion
pub mod Armed
pub mod Burst
pub mod Capacity
pub mod Pending
pub mod Chained
pub mod Exclusive
pub mod System
pub mod Queued
pub mod Linked
pub mod Server
mod Tests
use echo_server.Prelude.{
  ℕ, ◌+◌, Bool, true, false, List, [], ◌∷◌, ◌++◌, Option, none, some, ℤ, is_neg, below, length,
  get_elem?, set, if◌then◌else◌,
}
use echo_server.Posix.{Fd, Run, ok, exit, fault, Cmd, pure, quit, failed, ◌>>=◌, ◌>>◌}
use Liburing.{Uring, Mem, Op, Sqe, sqe}

-- What a threadlet waits for.
pub data Pc : Type 0 where
  accepted received_header received_msg : Pc

-- `buf` is `none` until it is set: `malloc` leaves the field indeterminate.
pub record Threadlet : Type 0 where
  pub pc : Pc
  pub fd : Fd
  pub buf : Option ℕ

-- A completion: the threadlet that is named by its user data, and the result.
pub record Cqe : Type 0 where
  pub user_data : Option ℕ
  pub res : ℤ

-- What `io_uring_wait_cqe` gives: an error, or completions for `io_uring_for_each_cqe`.
pub data Wait : Type 0 where
  error : Wait
  batch : List Cqe → Wait

module _ (uring : Uring) where
  open uring use {Ring, enqueue, submit}

  -- The memory of the loop. Threadlets and buffers are never freed, so the address of a threadlet
  -- is its place in the list, and that of a buffer its number.
  pub record State : Type 0 where
    pub ring : Ring
    pub threadlets : List Threadlet
    pub bufs : ℕ

  -- `io_uring_get_sqe`, the error if there is none, and the call that fills the entry.
  unfoldable pub push : Sqe → Cmd State (Unit {0})
  push entry s = elim (enqueue entry s.ring) [
    | none ↦ exit failed s
    | some r ↦ ok tt (record s { ring = r })
  ]

  abbrev pub modify : (State → State) → Cmd State (Unit {0})
  modify f s = ok tt (f s)

  unfoldable pub add_accept : (listen_fd : Fd) → Cmd State (Unit {0})
  add_accept listen_fd s =
      (do
        push (sqe (Op.accept listen_fd) (some (length s.threadlets)))
        modify λ s. record s {
          threadlets = s.threadlets ++ record { pc = accepted; fd = listen_fd; buf = none } ∷ [];
        })
        s

  abbrev pub write : ℕ → Threadlet → Cmd State (Unit {0})
  write t r = modify λ s. record s { threadlets = set s.threadlets t r }

  -- A new connection: announce the message size, accept again, and wait for the greeting.
  unfoldable pub on_accepted : (listen_fd : Fd) → ℕ → Threadlet → ℤ → Cmd State (Unit {0})
  on_accepted listen_fd t r conn_fd = if is_neg conn_fd then quit failed else do
    push (sqe (Op.send conn_fd Mem.msg_size_conv 4) none)
    add_accept listen_fd
    push (sqe (Op.recv conn_fd Mem.header_buf 2) (some t))
    write t (record r { pc = received_header; fd = conn_fd })

  -- The greeting is in: allocate a buffer and read the first message.
  unfoldable pub on_header : (msg_size : ℕ) → ℕ → Threadlet → ℤ → Cmd State (Unit {0})
  on_header msg_size t r res s =
      (if below res 2 then pure tt else do
        push (sqe (Op.recv r.fd (Mem.heap s.bufs) msg_size) (some t))
        modify λ s. record s {
          bufs = s.bufs + 1;
          threadlets = set s.threadlets t (record r { pc = received_msg; buf = some s.bufs });
        })
        s

  -- A message is in: send it back, and behind that, linked, read the next into the same buffer.
  unfoldable pub on_msg : (msg_size : ℕ) → ℕ → Threadlet → ℤ → Cmd State (Unit {0})
  on_msg msg_size t r res = if below res msg_size then pure tt else elim r.buf [
    | none ↦ λ s. fault
    | some b ↦ do
      push (record (sqe (Op.send r.fd (Mem.heap b) msg_size) none) { link = true })
      push (sqe (Op.recv r.fd (Mem.heap b) msg_size) (some t))
  ]

  dispatch : Pc → (listen_fd : Fd) → (msg_size : ℕ) → ℕ → Threadlet → ℤ → Cmd State (Unit {0})
  unfolding on_accepted on_header on_msg
  dispatch accepted l m = on_accepted l
  dispatch received_header l m = on_header m
  dispatch received_msg l m = on_msg m

  -- The body of `io_uring_for_each_cqe`. A wild threadlet pointer is undefined behaviour.
  unfoldable pub handle_cqe : (listen_fd : Fd) → (msg_size : ℕ) → Cqe → Cmd State (Unit {0})
  unfolding dispatch
  handle_cqe l m c s = elim c.user_data [
    | none ↦ ok tt s
    | some t ↦ elim (get_elem? s.threadlets t) [
      | none ↦ fault
      | some r ↦ dispatch r.pc l m t r c.res s
    ]
  ]

  unfoldable pub handle_batch : (listen_fd : Fd) → (msg_size : ℕ) → List Cqe → Cmd State (Unit {0})
  unfolding handle_cqe
  handle_batch l m [] = pure tt
  handle_batch l m (c ∷ cs) = handle_cqe l m c >> handle_batch l m cs

  -- The loop, over what the ring gives in each round.
  unfoldable pub rounds : (listen_fd : Fd) → (msg_size : ℕ) → List Wait → Cmd State (Unit {0})
  unfolding handle_batch
  rounds l m [] = pure tt
  rounds l m (Wait.error ∷ ws) = quit failed
  rounds l m (batch cs ∷ ws) = do
    modify λ s. record s { ring = submit s.ring }
    handle_batch l m cs
    rounds l m ws

  unfoldable pub main_loop :
      (listen_fd : Fd) → (msg_size : ℕ) → Ring → List Wait → Run State (Unit {0})
  unfolding add_accept rounds
  main_loop l m ring ws =
      (add_accept l >> rounds l m ws) (record { ring = ring; threadlets = []; bufs = 0 })
