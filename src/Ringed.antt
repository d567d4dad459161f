-- ===== src/Ringed.antt =====
-- uring.c: the server of simple.c, with a ring for each connection in place of the calls of `recv`
-- and `send` in the echo loop.
pub mod Operations
pub mod Refines
mod Tests
use echo_server.Prelude.{
  ℕ, zero, suc, List, [], Option, none, some, ℤ, pos, below, is_neg, leb, length, take,
  if◌then◌else◌,
}
use echo_server.Posix.{Os, Fd, Run, ok, exit, fault, Cmd, pure, quit, failed, fill, ◌>>=◌}
use echo_server.Simple
use echo_server.Simple.{Server, Progress, looping, returned, greet}
use Operations.{Rings, Operation, receive, transmit, Completion}

module _ (rings : Rings) where
  open rings use {os, Ring, queue_init, get_sqe, submit, wait_cqe, cqe_seen}
  open os use {World}

  -- Queue one operation, submit it and wait for it. What `submit` returns is not tested: the code
  -- compares the function `err` with zero there, not the result `e`.
  unfoldable pub run_op : Operation → Ring → Cmd World (Completion × Ring)
  run_op op ring w = elim (get_sqe op ring) [
    | none ↦ exit failed w
    | some queued ↦
        let sent = submit queued w in
        let done = wait_cqe sent.1 sent.2 in
        if is_neg done.0 then exit failed done.3 else ok (done.1, cqe_seen done.2) done.3
  ]

  -- The body of the echo loop. An operation beyond the end of the buffer is undefined.
  unfoldable pub ring_round :
      Fd → (buf : List ℕ) → (msg_size : ℕ) → Ring → Cmd World (Progress × Ring)
  ring_round conn_fd buf msg_size ring =
      if leb msg_size (length buf)
      then (do
        (c, ring) ← run_op (receive conn_fd msg_size) ring
        if below c.res msg_size
            then pure (returned, ring)
            else let buf = fill buf c.bytes in
              if leb msg_size (length buf)
              then (do
                (c, ring) ← run_op (transmit conn_fd (take msg_size buf)) ring
                pure (if below c.res msg_size then returned else looping buf, ring))
              else λ w. fault)
      else λ w. fault

  -- The first `k` rounds of the loop.
  unfoldable pub ring_loop :
      ℕ → Fd → (buf : List ℕ) → (msg_size : ℕ) → Ring → Cmd World (Progress × Ring)
  unfolding ring_round
  ring_loop zero conn_fd buf msg_size ring = pure (looping buf, ring)
  ring_loop (suc k) conn_fd buf msg_size ring = do
    (p, ring) ← ring_round conn_fd buf msg_size ring
    elim p [
      | looping buf ↦ ring_loop k conn_fd buf msg_size ring
      | returned ↦ pure (returned, ring)
    ]

  -- The handler, with the first `k` rounds of its loop. Its greeting is that of simple.c.
  unfoldable pub handle_conn : ℕ → Fd → (buf : List ℕ) → (msg_size : ℕ) → Cmd World Progress
  unfolding ring_loop
  handle_conn k conn_fd buf msg_size = greet os conn_fd buf msg_size >>= elim [
    | none ↦ pure returned
    | some buf ↦ λ w.
        let made = queue_init 2 w in
        (do (p, ring) ← ring_loop k conn_fd buf msg_size made.0; pure p) made.1
  ]

-- `start_server` has the text of simple.c's: its threads run the handler above.
unfoldable pub start_server : (os : Os) → ℕ → (port : ℕ) → (msg_sz : ℤ) → Cmd os.World Server
start_server os k port msg_sz = Simple.start_server os k port msg_sz

unfoldable pub main : (os : Os) → ℕ → Cmd os.World Server
unfolding start_server
main os k = start_server os k 12345 (pos 64)
