-- ===== src/Sharded/System.antt =====
-- The loop of io_uring_sharded.c against the kernel: what is reachable, round by round.
use mathlib.Core.Path.{subst}
use echo_server.Prelude.{
  ℕ, ◌≡◌, refl, ap, sym, ◌∙◌, List, [], ◌∷◌, ◌++◌, none, some, ℤ, arith, append-nil,
}
use echo_server.Posix.{Fd, Cmd, ok}
use echo_server.Posix.Ends.{EndsOrFails, done, stops, bind_or_fail, bind_or_fail_from, of_ok}
use echo_server.Sharded.{
  accepted, Cqe, State, add_accept, handle_batch, Wait, batch, rounds, main_loop,
}
use echo_server.Sharded.Liburing.{Op, Sqe, sqe, Uring, UringLaws}
use echo_server.Sharded.Armed.{Armed, Armed-accept}
use echo_server.Sharded.Handlers.{pending, Good, push_then}
use echo_server.Sharded.Completion.{handle_cqe-Good}

-- The kernel completes operations in flight, in any order and with any result; what remains in
-- flight is the last list.
pub data Delivers : List Sqe → List Cqe → List Sqe → Type 0 where
  nothing : {flight : List Sqe} → Delivers flight [] flight
  completion :
      {flight : List Sqe} (e : Sqe) (xs ys : List Sqe) (res : ℤ) {cs : List Cqe} {left : List Sqe}
      → flight ≡ xs ++ e ∷ ys
      → Delivers (xs ++ ys) cs left
      → Delivers flight (record { user_data = e.user_data; res = res } ∷ cs) left

module _ {uring : Uring} (laws : UringLaws uring) (l : Fd) (m : ℕ) where
  open uring use {Ring, submit}
  open laws use {queued}

  -- One round of `main_loop`: submit what is queued, then handle a batch.
  abbrev pub round : List Cqe → Cmd (State uring) (Unit {0})
  round cs s = handle_batch uring l m cs (record s { ring = submit s.ring })

  -- The states at the top of the loop, with what is in flight there.
  pub data Reach : State uring → List Sqe → Type 0 where
    start :
        {ring : Ring} {s : State uring}
        → queued ring ≡ []
        → add_accept uring l (record { ring = ring; threadlets = []; bufs = 0 }) ≡ ok tt s
        → Reach s []
    later :
        {s s' : State uring} {flight left : List Sqe} {cs : List Cqe}
        → Reach s flight
        → Delivers (pending laws l m s flight) cs left
        → round cs s ≡ ok tt s'
        → Reach s' left

  handle_batch-Good :
      {flight left : List Sqe} {cs : List Cqe} (s : State uring)
      → Delivers flight cs left
      → Good laws l m 1 s flight
      → EndsOrFails (λ _ s'. Good laws l m 1 s' left) (handle_batch uring l m cs s)
  unfolding handle_batch
  handle_batch-Good s nothing good = done good
  handle_batch-Good s (completion e xs ys res {cs} split d) good =
      bind_or_fail _ (handle_cqe-Good laws l m s e xs ys res (subst (Good laws l m 1 s) split good))
        λ _ s' good'. handle_batch-Good s' d good'

  submitted :
      (s : State uring) (flight : List Sqe)
      → Good laws l m 1 s flight
      → Good laws l m 1 (record s { ring = submit s.ring }) (pending laws l m s flight)
  submitted s flight good =
      subst (Armed l m 1 s.threadlets s.bufs)
        (sym (ap (λ q. pending laws l m s flight ++ q) (laws.submit_all s.ring) ∙ append-nil _))
        good

  -- Nothing is pending in a fresh ring; then the first `accept` is.
  started :
      (ring r : Ring)
      → queued ring ≡ []
      → queued r ≡ queued ring ++ sqe (Op.accept l) (some 0) ∷ []
      → Good laws l m 1
          (record {
            ring = r;
            threadlets = record { pc = accepted; fd = l; buf = none } ∷ [];
            bufs = 0;
          })
          []
  started ring r empty order =
      subst (Armed l m 1 _ 0) (sym (order ∙ ap (λ q. q ++ sqe (Op.accept l) (some 0) ∷ []) empty))
        (Armed-accept l m fresh)
    where
      fresh : Armed l m 0 [] 0 []
      fresh = record {
        accepting = refl;
        once = λ t. omega arith;
        owned = tt;
        buffers = record { allocated = λ t b r e f. cc; apart = λ t u b r q e e' f f'. cc };
      }

  pub Reach-Good : {s : State uring} {flight : List Sqe} → Reach s flight → Good laws l m 1 s flight
  unfolding add_accept
  Reach-Good (start empty e) =
      of_ok {P = λ _ s'. Good laws l m 1 s' []}
        (push_then laws l m _ _ _ λ r order. done (started _ r empty order)) e
  Reach-Good (later {s} {flight} r d e) =
      of_ok (handle_batch-Good _ d (submitted s flight (Reach-Good r))) e

  -- From every state that the loop of io_uring_sharded.c reaches by rounds in which the kernel
  -- completes operations in flight, in any order and with any result, one more such round ends
  -- normally in a state with the invariant or exits with status -1: one accept is pending, each
  -- threadlet has at most one operation pending and it is the one its state says, every buffer
  -- belongs to one threadlet, and no threadlet pointer is wild.
  pub round_safe :
      {s : State uring} {flight left : List Sqe} {cs : List Cqe}
      → Reach s flight
      → Delivers (pending laws l m s flight) cs left
      → EndsOrFails (λ _ s'. Good laws l m 1 s' left) (round cs s)
  round_safe {s} {flight} r d = handle_batch-Good _ d (submitted s flight (Reach-Good r))

  -- What the ring may give to the loop from a state on: completions of what is in flight.
  abbrev pub Feasible : State uring → List Sqe → List Wait → Type 0
  Feasible s flight [] = Unit
  Feasible s flight (Wait.error ∷ ws) = Unit
  Feasible s flight (batch cs ∷ ws) =
      (left : List Sqe) × Delivers (pending laws l m s flight) cs left
      × ((s' : State uring) → round cs s ≡ ok tt s' → Feasible s' left ws)

  -- A state of the loop with the invariant, whatever is in flight.
  abbrev pub Healthy : Unit {0} → State uring → Type 0
  Healthy _ s = (flight : List Sqe) × Good laws l m 1 s flight

  rounds-Healthy :
      (ws : List Wait) (s : State uring) (flight : List Sqe)
      → Good laws l m 1 s flight
      → Feasible s flight ws
      → EndsOrFails Healthy (rounds uring l m ws s)
  unfolding rounds
  rounds-Healthy [] s flight good f = done (flight, good)
  rounds-Healthy (Wait.error ∷ ws) s flight good f = stops refl
  rounds-Healthy (batch cs ∷ ws) s flight good f =
      bind_or_fail_from _ (handle_batch-Good _ f.1 (submitted s flight good))
        λ _ s' e good'. rounds-Healthy ws s' f.0 good' (f.2 s' e)

  -- Started on an empty ring, main_loop of io_uring_sharded.c over any sequence of waits that
  -- the kernel can give (each batch completes operations in flight) ends with the invariant or
  -- exits with status -1, and is never undefined.
  pub main_loop_safe :
      (ring : Ring) (ws : List Wait)
      → queued ring ≡ []
      → ((s : State uring)
          → add_accept uring l (record { ring = ring; threadlets = []; bufs = 0 }) ≡ ok tt s
          → Feasible s [] ws)
      → EndsOrFails Healthy (main_loop uring l m ring ws)
  unfolding main_loop add_accept
  main_loop_safe ring ws empty feasible =
      bind_or_fail_from _
        (push_then laws l m {P = λ _ s'. Good laws l m 1 s' []} _ _ _
          λ r order. done (started ring r empty order))
        λ _ s e good. rounds-Healthy ws s [] good (feasible s e)
