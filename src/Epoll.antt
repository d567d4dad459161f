-- ===== src/Epoll.antt =====
-- epoll_single.c, and the parts of epoll_sharded.c that are the same text: one thread drives all
-- its connections, as epoll reports them readable. Every connection uses the same buffer.
pub mod Epolling
pub mod Events
mod Machine
pub mod Refines
pub mod Start
mod Tests
use echo_server.Prelude.{
  ℕ, zero, suc, ◌+◌, ◌-◌, ◌/◌, ◌%◌, List, [], ◌∷◌, Bool, true, false, ◌||◌, Option, none, some, ℤ,
  pos, negsuc, less, int_lt, int_of, to_uint32, is_neg, is_nonpos, to_size, int_eq, not, ltb, ◌==◌,
  if◌then◌else◌,
}
use echo_server.Posix.{
  Fd, Run, ok, fault, Cmd, pure, quit, failed, call, ◌>>=◌, ◌>>◌, bytes32, htonl, recv_into,
  send_from,
}
use echo_server.Simple.{open_listener}
use Epolling.{EpollOs}

-- `BUF_SIZE`
abbrev pub buf_size : ℕ
buf_size = 1024

-- Bit 11 of a number, the place of `O_NONBLOCK`.
abbrev pub bit_11 : ℕ → Bool
bit_11 n = n / 2048 % 2 == 1

-- `flags & O_NONBLOCK` is not zero, in two's complement.
abbrev pub is_nonblocking : ℤ → Bool
is_nonblocking (pos n) = bit_11 n
is_nonblocking (negsuc n) = not (bit_11 n)

-- `flags | O_NONBLOCK`
unfoldable pub or_nonblock : ℤ → ℤ
or_nonblock (pos n) = if bit_11 n then pos n else pos (n + 2048)
or_nonblock (negsuc n) = if bit_11 n then negsuc (n - 2048) else negsuc n

-- `EPOLLIN`
abbrev pub epollin : ℕ
epollin = 1

-- The local variables of `main_loop`: the array, and `ev.events`, which is not set at first.
pub record Locals : Type 0 where
  pub buf : List ℕ
  pub ev_events : Option ℕ

module _ (epoll : EpollOs) where
  open epoll use {os, get_flags, set_flags, epoll_create, epoll_ctl_add, epoll_ctl_del, epoll_wait}
  open os use {World}

  unfoldable pub set_nonblocking : Fd → Cmd World (Unit {0})
  set_nonblocking fd = do
    flags ← call (get_flags fd)
    e ← call (set_flags fd (or_nonblock flags))
    if int_eq e (negsuc 0) then quit failed else do
      flags ← call (get_flags fd)
      if not (is_nonblocking flags) then quit failed else pure tt

  -- `stack` is the uninitialised array of the call. The caller does not see how it went.
  unfoldable pub handle_new_conn : Fd → (stack : List ℕ) → (msg_size : ℤ) → Cmd World (Unit {0})
  handle_new_conn conn_fd stack msg_size = do
    n ← send_from os conn_fd (bytes32 (htonl (to_uint32 msg_size))) 4
    if is_nonpos n || ltb (to_size n) 4
        then pure tt
        else do (n, buf) ← recv_into os conn_fd stack 2; pure tt

  -- An event on the listening socket.
  unfoldable pub on_connection :
      (epfd listen_fd : Fd) → (stack : List ℕ) → (msg_size : ℤ) → Locals → Cmd World Locals
  unfolding set_nonblocking handle_new_conn
  on_connection epfd listen_fd stack msg_size s = do
    conn_fd ← call (os.accept listen_fd)
    if is_neg conn_fd then quit failed else do
      handle_new_conn conn_fd stack msg_size
      set_nonblocking conn_fd
      _ ← call (epoll_ctl_add epfd conn_fd)
      pure (record s { ev_events = some epollin })

  -- The connection is taken from the epoll instance; it stays open.
  unfoldable pub forget : (epfd conn_fd : Fd) → Locals → Cmd World Locals
  forget epfd conn_fd s = do _ ← call (epoll_ctl_del epfd conn_fd); pure s

  -- An event on a connection. The test is on the local variable `ev`, not on the event. The results
  -- are kept as an int, and the size is a size_t for the calls.
  unfoldable pub on_readable : (epfd conn_fd : Fd) → (msg_size : ℤ) → Locals → Cmd World Locals
  unfolding forget
  on_readable epfd conn_fd msg_size s = elim s.ev_events [
    | none ↦ λ w. fault
    | some events ↦ if events % 2 == 0 then quit failed else do
      (n, buf) ← recv_into os conn_fd s.buf (to_size msg_size)
      if less (int_of n) msg_size then forget epfd conn_fd (record s { buf = buf }) else do
        n ← send_from os conn_fd buf (to_size msg_size)
        if less (int_of n) msg_size
            then forget epfd conn_fd (record s { buf = buf })
            else pure (record s { buf = buf })
  ]

  unfoldable pub handle_event :
      (epfd listen_fd : Fd)
      → (stack : List ℕ) → (msg_size : ℤ) → (event : Fd) → Locals
      → Cmd World Locals
  unfolding on_connection on_readable
  handle_event epfd listen_fd stack msg_size fd s =
      if int_eq fd listen_fd
      then on_connection epfd listen_fd stack msg_size s
      else on_readable epfd fd msg_size s

  unfoldable pub handle_events :
      (epfd listen_fd : Fd)
      → (stack : List ℕ) → (msg_size : ℤ) → List Fd
      → Locals
      → Cmd World Locals
  unfolding handle_event
  handle_events epfd listen_fd stack msg_size [] s = pure s
  handle_events epfd listen_fd stack msg_size (fd ∷ fds) s = do
    s ← handle_event epfd listen_fd stack msg_size fd s
    handle_events epfd listen_fd stack msg_size fds s

  -- The first `k` rounds of `main_loop`.
  unfoldable pub event_loop :
      ℕ → (epfd listen_fd : Fd) → (stack : List ℕ) → (msg_size : ℤ) → Locals → Cmd World Locals
  unfolding handle_events
  event_loop zero epfd listen_fd stack msg_size s = pure s
  event_loop (suc k) epfd listen_fd stack msg_size s = λ w. elim (epoll_wait epfd w).0 [
    | none ↦ quit failed (epoll_wait epfd w).1
    | some fds ↦
        (do
          s ← handle_events epfd listen_fd stack msg_size fds s
          event_loop k epfd listen_fd stack msg_size s)
          (epoll_wait epfd w).1
  ]

  -- `start_server`, with `k` rounds of the loop that it ends in.
  unfoldable pub start_server :
      ℕ → (port : ℕ) → (msg_sz : ℤ) → (array stack : List ℕ) → Cmd World Locals
  unfolding event_loop
  start_server k port msg_sz array stack = if int_lt (pos buf_size) msg_sz then quit failed else do
    listen_fd ← open_listener os port
    set_nonblocking listen_fd
    epfd ← call epoll_create
    if is_neg epfd then quit failed else do
      _ ← call (epoll_ctl_add epfd listen_fd)
      event_loop k epfd listen_fd stack msg_sz (record { buf = array; ev_events = none })

  unfoldable pub main : ℕ → (array stack : List ℕ) → Cmd World Locals
  unfolding start_server
  main k array stack = start_server k 12345 (pos 64) array stack
