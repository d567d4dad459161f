-- ===== src/Sharded/Linked.antt =====
-- The loop of io_uring_sharded.c against a kernel that heeds the links between operations.
mod Tests
use mathlib.Core.Path.{subst}
use echo_server.Prelude.{
  ℕ, ◌≡◌, refl, ap, sym, ◌∙◌, Bool-cases, inl, inr, true, false, List, [], ◌∷◌, ◌++◌, append_assoc,
  append-nil, Option-cases, Option, none, some, ℤ, is_neg, below, length, get_elem?, arith,
}
use native.Mathlib.Decide.{dec_lt}
use echo_server.Posix.{Fd, Cmd, ok}
use echo_server.Posix.Ends.{
  EndsOrFails, weaken_or_fail, IfOk, ended, exited, faulted, bind_if, weaken_if, of_ended, and_if,
}
use echo_server.Sharded.{
  Pc, accepted, received_header, received_msg, Threadlet, Cqe, State, push, add_accept, on_accepted,
  on_header, on_msg, dispatch, handle_cqe, handle_batch,
}
use echo_server.Sharded.Liburing.{Mem, Op, Sqe, sqe, Uring, UringLaws}
use echo_server.Sharded.Handlers.{pending, Good}
use echo_server.Sharded.System.{
  Delivers, nothing, completion, round, Reach, start, later, Reach-Good, round_safe,
}
use echo_server.Sharded.Queued.{Adds, add_accept-Adds, handle_cqe-Adds}
use echo_server.Sharded.Chained.{Chained, Chained-append, Chained-take, last_link}
use echo_server.Sharded.Exclusive.{Exclusive, Armed-Exclusive}

-- As `Delivers`, but an operation completes only if no operation in flight is linked to it.
pub data LinkedDelivers : List Sqe → List Cqe → List Sqe → Type 0 where
  no_more : {flight : List Sqe} → LinkedDelivers flight [] flight
  free :
      {flight : List Sqe} (e : Sqe) (xs ys : List Sqe) (res : ℤ) {cs : List Cqe} {left : List Sqe}
      → flight ≡ xs ++ e ∷ ys
      → last_link xs ≡ false
      → LinkedDelivers (xs ++ ys) cs left
      → LinkedDelivers flight (record { user_data = e.user_data; res = res } ∷ cs) left

LinkedDelivers-Delivers :
    {flight : List Sqe} {cs : List Cqe} {left : List Sqe}
    → LinkedDelivers flight cs left
    → Delivers flight cs left
LinkedDelivers-Delivers no_more = nothing
LinkedDelivers-Delivers (free e xs ys res split unlinked d) =
    completion e xs ys res split (LinkedDelivers-Delivers d)

module _ {uring : Uring} (laws : UringLaws uring) (l : Fd) (m : ℕ) where
  open uring use {Ring, submit}
  open laws use {queued}

  -- An operation that no link holds back completes, and what is queued then stands behind the rest.
  completed-Chained :
      (xs ys : List Sqe) (e : Sqe) (s s' : State uring)
      → last_link xs ≡ false
      → Chained (pending laws l m s (xs ++ e ∷ ys))
      → Adds laws l m s s'
      → Chained (pending laws l m s' (xs ++ ys))
  completed-Chained xs ys e s s' unlinked c (more, order, d) =
      let left =
        Chained-take xs (ys ++ queued s.ring) e unlinked
          (subst Chained (append_assoc xs (e ∷ ys) (queued s.ring)) c) in
      let all =
        Chained-append _ more (subst Chained (sym (append_assoc xs ys (queued s.ring))) left) d in
      subst Chained
        (append_assoc (xs ++ ys) (queued s.ring) more ∙ ap (λ q. (xs ++ ys) ++ q) (sym order)) all

  handle_batch-Chained :
      {flight left : List Sqe} {cs : List Cqe} (s : State uring)
      → LinkedDelivers flight cs left
      → Chained (pending laws l m s flight)
      → IfOk (λ _ s'. Chained (pending laws l m s' left)) (handle_batch uring l m cs s)
  unfolding handle_batch
  handle_batch-Chained s no_more c = ended c
  handle_batch-Chained s (free e xs ys res split unlinked d) c =
      bind_if _ (handle_cqe-Adds laws l m e.user_data res s) λ _ s' added.
        handle_batch-Chained s' d (
          completed-Chained xs ys e s s' unlinked
            (subst (λ f. Chained (pending laws l m s f)) split c) added)

  -- The states at the top of the loop, where the kernel heeds the links.
  pub data LinkedReach : State uring → List Sqe → Type 0 where
    first :
        {ring : Ring} {s : State uring}
        → queued ring ≡ []
        → add_accept uring l (record { ring = ring; threadlets = []; bufs = 0 }) ≡ ok tt s
        → LinkedReach s []
    further :
        {s s' : State uring} {flight left : List Sqe} {cs : List Cqe}
        → LinkedReach s flight
        → LinkedDelivers (pending laws l m s flight) cs left
        → round laws l m cs s ≡ ok tt s'
        → LinkedReach s' left

  LinkedReach-Reach :
      {s : State uring} {flight : List Sqe} → LinkedReach s flight → Reach laws l m s flight
  LinkedReach-Reach (first empty e) = start empty e
  LinkedReach-Reach (further r d e) = later (LinkedReach-Reach r) (LinkedDelivers-Delivers d) e

  submitted-Chained :
      (s : State uring) (flight : List Sqe)
      → Chained (pending laws l m s flight)
      → Chained (pending laws l m (record s { ring = submit s.ring }) (pending laws l m s flight))
  submitted-Chained s flight c =
      subst Chained
        (sym (ap (λ q. pending laws l m s flight ++ q) (laws.submit_all s.ring) ∙ append-nil _)) c

  round-Chained :
      (s : State uring) (flight : List Sqe) {left : List Sqe} {cs : List Cqe}
      → Chained (pending laws l m s flight)
      → LinkedDelivers (pending laws l m s flight) cs left
      → IfOk (λ _ s'. Chained (pending laws l m s' left)) (round laws l m cs s)
  round-Chained s flight c d = handle_batch-Chained _ d (submitted-Chained s flight c)

  LinkedReach-Chained :
      {s : State uring} {flight : List Sqe}
      → LinkedReach s flight
      → Chained (pending laws l m s flight)
  LinkedReach-Chained (first {ring} {s} empty e) =
      let order =
        of_ended (add_accept-Adds laws l m (record { ring = ring; threadlets = []; bufs = 0 })) e in
      subst Chained (sym (order ∙ ap (λ q. q ++ sqe (Op.accept l) (some 0) ∷ []) empty)) (refl, tt)
  LinkedReach-Chained (further {s} {flight} r d e) =
      of_ended (round-Chained s flight (LinkedReach-Chained r) d) e

  -- From every state that the loop of io_uring_sharded.c reaches with a kernel that completes
  -- an operation, with any result, only when no operation in flight is linked to it, one more
  -- round with such a kernel exits with status -1 or ends normally in a state in which at most
  -- one reply that is not complete reads each buffer, at most one read that is not complete
  -- fills it, and directly behind every such reply, linked to it, stands the read into the same
  -- buffer, so that no message is overwritten before it was sent back.
  pub round-Exclusive :
      {s : State uring} {flight left : List Sqe} {cs : List Cqe}
      → LinkedReach s flight
      → LinkedDelivers (pending laws l m s flight) cs left
      → EndsOrFails (λ _ s'. Exclusive (pending laws l m s' left)) (round laws l m cs s)
  round-Exclusive {s} {flight} {left} r d =
      weaken_or_fail
        (and_if (round_safe laws l m (LinkedReach-Reach r) (LinkedDelivers-Delivers d))
          (round-Chained s flight (LinkedReach-Chained r) d))
        λ _ s' h. Armed-Exclusive l m 1 s'.threadlets s'.bufs (pending laws l m s' left) h.0 h.1
