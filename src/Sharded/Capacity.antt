-- ===== src/Sharded/Capacity.antt =====
-- How many entries of the submission queue the handlers of io_uring_sharded.c take.

use echo_server.Prelude.{
  ℕ, ◌+◌, ◌*◌, ◌≤◌, ◌<◌, ◌≡◌, ap, ◌∙◌, inl, inr, false, List, [], ◌∷◌, ℤ, is_neg, below, length,
  get_elem?, arith, length-append, Bool-cases, Option-cases,
}
use echo_server.Posix.{Fd}
use echo_server.Posix.Ends.{StaysUp, goes, undefined, bind_up, weaken_up}
use echo_server.Sharded.{
  Pc, accepted, received_header, received_msg, Threadlet, Cqe, State, push, add_accept, on_accepted,
  on_header, on_msg, dispatch, handle_cqe, handle_batch,
}
use echo_server.Sharded.Liburing.{Sqe, Uring, UringLaws}

module _ {uring : Uring} (laws : UringLaws uring) (l : Fd) (m : ℕ) where
  -- How many entries wait for submission.
  abbrev pub load : State uring → ℕ
  load s = length (laws.queued s.ring)

  push-StaysUp :
      (e : Sqe) (s : State uring)
      → load s < laws.entries
      → StaysUp (λ _ s'. load s' ≡ load s + 1) (push uring e s)
  unfolding push
  push-StaysUp e s room =
      let (r, got, order) = laws.enqueue_room e s.ring room in
      rw (got, push) (goes (ap length order ∙ length-append (laws.queued s.ring) (e ∷ [])))

  add_accept-StaysUp :
      (s : State uring)
      → load s < laws.entries
      → StaysUp (λ _ s'. load s' ≡ load s + 1) (add_accept uring l s)
  unfolding add_accept
  add_accept-StaysUp s room = bind_up _ (push-StaysUp _ s room) λ _ v p. goes p

  dispatch-StaysUp :
      (p : Pc) (t : ℕ) (r : Threadlet) (res : ℤ) (s : State uring)
      → is_neg res ≡ false
      → load s + 3 ≤ laws.entries
      → StaysUp (λ _ s'. load s' ≤ load s + 3) (dispatch uring p l m t r res s)
  unfolding dispatch on_accepted on_header on_msg
  dispatch-StaysUp accepted t r res s good room = rw good (
      bind_up _ (push-StaysUp _ s (omega arith)) λ _ v p.
        bind_up _ (add_accept-StaysUp v (omega arith))
          λ _ u q. bind_up _ (push-StaysUp _ u (omega arith)) λ _ u' q'. goes (omega arith))
  dispatch-StaysUp received_header t r res s good room = elim (Bool-cases (below res 2)) [
    | inl short ↦ rw short (goes (omega arith))
    | inr whole ↦ rw whole (bind_up _ (push-StaysUp _ s (omega arith)) λ _ v p. goes (omega arith))
  ]
  dispatch-StaysUp received_msg t r res s good room = elim (Bool-cases (below res m)) [
    | inl short ↦ rw short (goes (omega arith))
    | inr whole ↦ rw whole (elim (Option-cases r.buf) [
      | inl unset ↦ rw unset undefined
      | inr (b, holds) ↦ rw holds (
          bind_up _ (push-StaysUp _ s (omega arith))
            λ _ v p. weaken_up (push-StaysUp _ v (omega arith)) λ _ u q. omega arith)
    ])
  ]

  handle_cqe-StaysUp :
      (c : Cqe) (s : State uring)
      → is_neg c.res ≡ false
      → load s + 3 ≤ laws.entries
      → StaysUp (λ _ s'. load s' ≤ load s + 3) (handle_cqe uring l m c s)
  unfolding handle_cqe
  handle_cqe-StaysUp c s good room = elim (Option-cases c.user_data) [
    | inl anonymous ↦ rw (anonymous, handle_cqe) (goes (omega arith))
    | inr (t, named) ↦
        rw (named, handle_cqe)
          (elim (Option-cases (get_elem? s.threadlets t)) [
            | inl wild ↦ rw wild undefined
            | inr (r, here) ↦ rw here (dispatch-StaysUp r.pc t r c.res s good room)
          ])
  ]

  -- No completion of the batch is an error.
  abbrev pub AllGood : List Cqe → Type 0
  AllGood [] = Unit
  AllGood (c ∷ cs) = (is_neg c.res ≡ false) × AllGood cs

  pub handle_batch-StaysUp :
      (cs : List Cqe) (s : State uring)
      → AllGood cs
      → load s + 3 * length cs ≤ laws.entries
      → StaysUp (λ _ s'. load s' ≤ load s + 3 * length cs) (handle_batch uring l m cs s)
  unfolding handle_batch
  handle_batch-StaysUp [] s good room = goes (omega arith)
  handle_batch-StaysUp (c ∷ cs) s good room =
      bind_up _ (handle_cqe-StaysUp c s good.0 (omega arith))
        λ _ v p. weaken_up (handle_batch-StaysUp cs v good.1 (omega arith)) λ _ u q. omega arith
