-- ===== src/Paired.antt =====
-- uring2.c: a ring for each connection, on which the reply to a message and the read of the next one
-- are queued together. The two use different buffers.
pub mod Rings
pub mod Round
pub mod Loop
pub mod Handler
mod Tests
use echo_server.Prelude.{
  ℕ, zero, suc, List, [], ◌∷◌, Bool, false, ◌||◌, Option, none, some, ℤ, pos, below, leb, length,
  take, drop, ◌++◌, if◌then◌else◌,
}
use echo_server.Posix.{
  Os, Fd, Run, ok, exit, fault, Cmd, pure, quit, failed, fill, recv_into, ◌>>=◌,
}
use echo_server.Simple
use echo_server.Simple.{Server, greet}
use echo_server.Ringed.Operations.{Operation, receive, transmit, Completion}
use Rings.{PairRings}

-- Where the handler is: in its loop, with its two arrays, or behind its return.
pub data Progress : Type 0 where
  looping : (send_buf recv_buf : List ℕ) → Progress
  returned : Progress

-- What the kernel has stored in `recv_buf` when these completions are there.
abbrev pub stored : List ℕ → List Completion → List ℕ
stored recv_buf [] = recv_buf
stored recv_buf (c ∷ cs) = stored (fill recv_buf c.bytes) cs

-- The test in `io_uring_for_each_cqe`
abbrev pub any_short : ℕ → List Completion → Bool
any_short msg_size [] = false
any_short msg_size (c ∷ cs) = below c.res msg_size || any_short msg_size cs

module _ (rings : PairRings) where
  open rings use {os, Ring, queue_init, get_sqe, submit, wait_cqes, cq_advance}
  open os use {World}

  -- `io_uring_get_sqe` with the call that fills the entry, and the exit if there is none.
  unfoldable pub enqueue : Operation → Ring → Cmd World Ring
  enqueue op ring w = elim (get_sqe op ring) [ none ↦ exit failed w | some queued ↦ ok queued w ]

  -- Submit what is queued, wait for two completions and look at them; `memcpy` at the end. Neither
  -- the result of `submit` nor that of the wait is tested: the test on `err` is one of a function.
  unfoldable pub complete_both :
      (send_buf recv_buf : List ℕ) → (msg_size : ℕ) → Ring → Cmd World (Progress × Ring)
  complete_both send_buf recv_buf msg_size ring w =
      let sent = submit ring w in
      let done = wait_cqes 2 sent.1 sent.2 in
      let filled = stored recv_buf done.1 in
      if any_short msg_size done.1
      then ok (returned, done.2) done.3
      else ok (looping (take msg_size filled ++ drop msg_size send_buf) filled, cq_advance 2 done.2)
          done.3

  -- The body of the loop. An operation beyond the end of its array is undefined.
  unfoldable pub pair_round :
      Fd → (send_buf recv_buf : List ℕ) → (msg_size : ℕ) → Ring → Cmd World (Progress × Ring)
  pair_round conn_fd send_buf recv_buf msg_size ring =
      if leb msg_size (length send_buf)
      then (if leb msg_size (length recv_buf)
          then (do
            ring ← enqueue (transmit conn_fd (take msg_size send_buf)) ring
            ring ← enqueue (receive conn_fd msg_size) ring
            complete_both send_buf recv_buf msg_size ring)
          else λ w. fault)
      else λ w. fault

  -- The first `k` rounds of the loop.
  unfoldable pub pair_loop :
      ℕ → Fd → (send_buf recv_buf : List ℕ) → (msg_size : ℕ) → Ring → Cmd World Progress
  pair_loop zero conn_fd send_buf recv_buf msg_size ring = pure (looping send_buf recv_buf)
  pair_loop (suc k) conn_fd send_buf recv_buf msg_size ring = do
    (p, ring) ← pair_round conn_fd send_buf recv_buf msg_size ring
    elim p [
      | looping send_buf recv_buf ↦ pair_loop k conn_fd send_buf recv_buf msg_size ring
      | returned ↦ pure returned
    ]

  -- The first message is read by `recv`, and then the loop runs.
  unfoldable pub after_greeting :
      ℕ → Fd → (send_buf recv_buf : List ℕ) → (msg_size : ℕ) → Cmd World Progress
  after_greeting k conn_fd send_buf recv_buf msg_size = λ w.
      let made = queue_init 2 w in
      (do
        (n, send_buf) ← recv_into os conn_fd send_buf msg_size
        if below n msg_size
            then pure returned
            else pair_loop k conn_fd send_buf recv_buf msg_size made.0)
        made.1

  -- The handler, with the first `k` rounds of its loop. Its greeting is that of simple.c, into
  -- `recv_buf`: `n <= 0 || n < 2` is `n < 2`.
  unfoldable pub handle_conn :
      ℕ → Fd → (send_buf recv_buf : List ℕ) → (msg_size : ℕ) → Cmd World Progress
  handle_conn k conn_fd send_buf recv_buf msg_size = greet os conn_fd recv_buf msg_size >>= elim [
    | none ↦ pure returned
    | some recv_buf ↦ after_greeting k conn_fd send_buf recv_buf msg_size
  ]

-- `start_server` has the text of simple.c's: its threads run the handler above.
unfoldable pub start_server : (os : Os) → ℕ → (port : ℕ) → (msg_sz : ℤ) → Cmd os.World Server
start_server os k port msg_sz = Simple.start_server os k port msg_sz

unfoldable pub main : (os : Os) → ℕ → Cmd os.World Server
unfolding start_server
main os k = start_server os k 12345 (pos 64)
