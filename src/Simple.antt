-- ===== src/Simple.antt =====
-- simple.c: a thread for each connection. A connection is greeted with the message size, says two
-- bytes, and from then on gets every message of that size back.
-- The parts of the handler take a message size that is not negative.
pub mod Echo
pub mod Greet
pub mod Handler
pub mod Start
mod Tests
use echo_server.Prelude.{
  ℕ, zero, suc, List, [], ◌∷◌, Bool, true, false, ◌||◌, Option, none, some, ℤ, pos, negsuc, below,
  is_neg, is_nonpos, to_size, int_eq, int_lt, not, ltb, take, if◌then◌else◌,
}
use echo_server.Posix.{
  Os, Fd, Run, ok, Cmd, pure, quit, failed, call, ◌>>=◌, ◌>>◌, SocketOption, reuse_addr, reuse_port,
  bytes32, htonl, recv_into, send_from,
}

abbrev pub buf_size : ℕ
buf_size = 1024

-- Where a handler is after some rounds of its loop.
pub data Progress : Type 0 where
  looping : (buf : List ℕ) → Progress
  returned : Progress

-- A connection that was accepted, with the result of the `pthread_create` for it, which the code
-- ignores.
pub record Conn : Type 0 where
  pub conn_fd : Fd
  pub created : ℤ

-- A server that runs: its global `msg_size` and the connections that it has accepted.
pub record Server : Type 0 where
  pub msg_size : ℤ
  pub conns : List Conn

module _ (os : Os) where
  open os use {World}

  -- The part of `handle_conn` before the loop; `none` is an early return.
  unfoldable pub greet : Fd → (buf : List ℕ) → (msg_size : ℕ) → Cmd World (Option (List ℕ))
  greet conn_fd buf msg_size = do
    n ← send_from os conn_fd (bytes32 (htonl msg_size)) 4
    if is_nonpos n || ltb (to_size n) 4
        then pure none
        else do (n, buf) ← recv_into os conn_fd buf 2; pure (if below n 2 then none else some buf)

  -- The body of the echo loop.
  unfoldable pub echo_round : Fd → (buf : List ℕ) → (msg_size : ℕ) → Cmd World Progress
  echo_round conn_fd buf msg_size = do
    (n, buf) ← recv_into os conn_fd buf msg_size
    if below n msg_size then pure returned else do
      n ← send_from os conn_fd buf msg_size
      pure (if below n msg_size then returned else looping buf)

  -- The first `k` rounds of the loop, or fewer if it returns.
  unfoldable pub echo_loop : ℕ → Fd → (buf : List ℕ) → (msg_size : ℕ) → Cmd World Progress
  unfolding echo_round
  echo_loop zero conn_fd buf msg_size = pure (looping buf)
  echo_loop (suc k) conn_fd buf msg_size =
      echo_round conn_fd buf msg_size
      >>= elim [ looping buf ↦ echo_loop k conn_fd buf msg_size | returned ↦ pure returned ]

  -- The handler's first `k` rounds. `buf` is the uninitialised array on its stack.
  unfoldable pub handle_conn : ℕ → Fd → (buf : List ℕ) → (msg_size : ℕ) → Cmd World Progress
  unfolding greet echo_loop
  handle_conn k conn_fd buf msg_size =
      greet conn_fd buf msg_size
      >>= elim [ none ↦ pure returned | some buf ↦ echo_loop k conn_fd buf msg_size ]

  -- `start_server` from `socket` to `listen`. A failure of `setsockopt` is only reported.
  unfoldable pub open_listener : (port : ℕ) → Cmd World Fd
  open_listener port = do
    listen_fd ← call os.socket
    if is_neg listen_fd then quit failed else do
      _ ← call (os.setsockopt listen_fd reuse_addr)
      _ ← call (os.setsockopt listen_fd reuse_port)
      bound ← call (os.bind listen_fd port)
      if not (int_eq bound (pos 0)) then quit failed else do
        listening ← call (os.listen listen_fd 1024)
        if not (int_eq listening (pos 0)) then quit failed else pure listen_fd

  -- The first `k` rounds of the accept loop: the connections, in order.
  unfoldable pub accept_loop : ℕ → Fd → Cmd World (List Conn)
  accept_loop zero listen_fd = pure []
  accept_loop (suc k) listen_fd = do
    conn_fd ← call (os.accept listen_fd)
    if is_neg conn_fd then quit failed else do
      created ← call (os.pthread_create conn_fd)
      rest ← accept_loop k listen_fd
      pure (record { conn_fd = conn_fd; created = created } ∷ rest)

  -- `start_server`; the global `msg_size` is what its threads read.
  unfoldable pub start_server : ℕ → (port : ℕ) → (msg_sz : ℤ) → Cmd World Server
  unfolding open_listener accept_loop
  start_server k port msg_sz = if int_lt (pos buf_size) msg_sz then quit failed else do
    listen_fd ← open_listener port
    conns ← accept_loop k listen_fd
    pure (record { msg_size = msg_sz; conns = conns })

  unfoldable pub main : ℕ → Cmd World Server
  unfolding start_server
  main k = start_server k 12345 (pos 64)
