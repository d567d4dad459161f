-- ===== src/Ringed/Refines.antt =====
-- The handler of uring.c beside the handler of simple.c.

use echo_server.Prelude.{
  ℕ, zero, suc, ◌≡◌, refl, ap, ◌∙◌, inl, inr, Option, none, some, List, Bool-cases, leb, below,
  length, take,
}
use echo_server.Posix.{Fd, Run, ok, exit, fault, Cmd, pure, fill, and_then, recv_into, send_from}
use echo_server.Simple
use echo_server.Simple.{Progress, looping, returned, echo_round, echo_loop, greet}
use echo_server.Ringed.{run_op, ring_round, ring_loop}
use echo_server.Ringed
use echo_server.Ringed.Operations.{Rings, RingsLaws, Operation, receive, transmit, perform}

module _ {rings : Rings} (laws : RingsLaws rings) where
  open rings use {os, Ring, cqe_seen}
  open os use {World}
  open laws use {Idle, completed}

  -- The ring after an operation.
  abbrev after : Operation → Ring → World → Ring
  after op r w = cqe_seen (completed op r w)

  run_op-perform :
      (op : Operation) (r : Ring) (w : World)
      → Idle r
      → run_op rings op r w ≡ ok ((perform os op w).0, after op r w) (perform os op w).1
  unfolding run_op
  run_op-perform op r w idle =
      rw (laws.get_some op r idle, run_op, (laws.completes op r w idle).1) refl

  -- A round as simple.c has it, and an idle ring.
  record SameRound (fd : Fd) (buf : List ℕ) (m : ℕ) (r : Ring) (w : World) : Type 0 where
    next : Ring
    idle : Idle next
    same : ring_round rings fd buf m r w ≡ and_then (echo_round os fd buf m w) (λ p. pure (p, next))

  ring_round-SameRound :
      (fd : Fd) (buf : List ℕ) (m : ℕ) (r : Ring) (w : World) → Idle r → SameRound fd buf m r w
  unfolding ring_round echo_round recv_into send_from
  ring_round-SameRound fd buf m r w idle =
      let read = os.recv fd m w in
      let stored = fill buf read.1 in
      let r' = after (receive fd m) r w in
      let idle' : Idle r' = laws.seen_idle (receive fd m) r w idle in
      elim (Bool-cases (leb m (length buf))) [
        | inr out ↦ record { next = r; idle = idle; same = rw out refl }
        | inl fits ↦ elim (Bool-cases (below read.0 m)) [
          | inl short ↦ record {
            next = r';
            idle = idle';
            same = rw (fits, run_op-perform (receive fd m) r w idle, short) refl;
          }
          | inr whole ↦ elim (Bool-cases (leb m (length stored))) [
            | inr out ↦ record {
              next = r';
              idle = idle';
              same = rw (fits, run_op-perform (receive fd m) r w idle, whole, out) refl;
            }
            | inl room ↦ record {
              next = after (transmit fd (take m stored)) r' read.2;
              idle = laws.seen_idle (transmit fd (take m stored)) r' read.2 idle';
              same =
                  rw
                    (
                      fits,
                      run_op-perform (receive fd m) r w idle,
                      whole,
                      room,
                      run_op-perform (transmit fd (take m stored)) r' read.2 idle',
                    )
                    refl;
            }
          ]
        ]
      ]

  abbrev keep : Progress × Ring → Cmd World Progress
  keep p = pure p.0

  -- What the ring's loop does after a round, and what the loop of simple.c does.
  abbrev ring_rest : ℕ → Fd → ℕ → Progress × Ring → Cmd World (Progress × Ring)
  ring_rest k fd m p = elim p.0 [
    | looping buf ↦ ring_loop rings k fd buf m p.1
    | returned ↦ pure (returned, p.1)
  ]

  abbrev rest : ℕ → Fd → ℕ → Progress → Cmd World Progress
  rest k fd m p = elim p [ looping buf ↦ echo_loop os k fd buf m | returned ↦ pure returned ]

  go_on :
      (k : ℕ) (fd : Fd) (m : ℕ) (next : Ring)
      → ((buf : List ℕ) (v : World)
          → and_then (ring_loop rings k fd buf m next v) keep ≡ echo_loop os k fd buf m v)
      → (e : Run World Progress)
      → and_then (and_then (and_then e (λ p. pure (p, next))) (ring_rest k fd m)) keep
        ≡ and_then e (rest k fd m)
  go_on k fd m next same (ok (looping buf) v) = same buf v
  go_on k fd m next same (ok returned v) = refl
  go_on k fd m next same (exit s v) = refl
  go_on k fd m next same fault = refl

  ring_loop-echo_loop :
      (k : ℕ) (fd : Fd) (buf : List ℕ) (m : ℕ) (r : Ring) (w : World)
      → Idle r
      → and_then (ring_loop rings k fd buf m r w) keep ≡ echo_loop os k fd buf m w
  unfolding ring_loop echo_loop
  ring_loop-echo_loop zero fd buf m r w idle = refl
  ring_loop-echo_loop (suc k) fd buf m r w idle =
      let s = ring_round-SameRound fd buf m r w idle in
      ap (λ e. and_then (and_then e (ring_rest k fd m)) keep) s.same
      ∙ go_on k fd m s.next (λ b v. ring_loop-echo_loop k fd b m s.next v s.idle)
          (echo_round os fd buf m w)

  -- After the greeting: a new ring, and the loop on it.
  abbrev with_ring : ℕ → Fd → ℕ → Option (List ℕ) → Cmd World Progress
  with_ring k fd m o = elim o [
    | none ↦ pure returned
    | some buf ↦ λ w.
        and_then (ring_loop rings k fd buf m (rings.queue_init 2 w).0 (rings.queue_init 2 w).1) keep
  ]

  abbrev plainly : ℕ → Fd → ℕ → Option (List ℕ) → Cmd World Progress
  plainly k fd m o = elim o [ none ↦ pure returned | some buf ↦ echo_loop os k fd buf m ]

  with_ring-plainly :
      (k : ℕ) (fd : Fd) (m : ℕ) (e : Run World (Option (List ℕ)))
      → and_then e (with_ring k fd m) ≡ and_then e (plainly k fd m)
  with_ring-plainly k fd m (ok none v) = refl
  with_ring-plainly k fd m (ok (some buf) v) =
      let made = rings.queue_init 2 v in
      ring_loop-echo_loop k fd buf m made.0 made.1 (laws.init_idle 2 v)
      ∙ ap (echo_loop os k fd buf m) (laws.init_quiet 2 v)
  with_ring-plainly k fd m (exit s v) = refl
  with_ring-plainly k fd m fault = refl

  -- Where an idle ring carries out one submitted operation as the system call of its name
  -- would, the handler of uring.c on a ring of its own is equal to the handler of simple.c, for
  -- every number of rounds.
  pub handle_conn-handle_conn :
      (k : ℕ) (fd : Fd) (buf : List ℕ) (m : ℕ) (w : World)
      → Ringed.handle_conn rings k fd buf m w ≡ Simple.handle_conn os k fd buf m w
  unfolding Ringed.handle_conn Simple.handle_conn
  handle_conn-handle_conn k fd buf m w = with_ring-plainly k fd m (greet os fd buf m w)
