-- ===== src/Sharded/Queued.antt =====
-- What the handlers of io_uring_sharded.c queue: entries whose links are in order.

use echo_server.Prelude.{
  ℕ, ◌≡◌, refl, ap, sym, ◌∙◌, Bool-cases, inl, inr, true, List, [], ◌∷◌, ◌++◌, append_assoc,
  append-nil, Option-cases, Option, none, some, ℤ, is_neg, below, length, get_elem?, arith,
}
use native.Mathlib.Decide.{dec_lt}
use echo_server.Posix.{Fd}
use echo_server.Posix.Ends.{IfOk, ended, exited, faulted, bind_if, weaken_if}
use echo_server.Sharded.{
  Pc, accepted, received_header, received_msg, Threadlet, State, push, add_accept, on_accepted,
  on_header, on_msg, dispatch, handle_cqe,
}
use echo_server.Sharded.Liburing.{Mem, Op, Sqe, sqe, Uring, UringLaws}
use echo_server.Sharded.Chained.{Chained}

-- Two and three entries behind a queue.
queue_two :
    (q : List Sqe) {q' q'' : List Sqe} (a b : Sqe)
    → q' ≡ q ++ a ∷ []
    → q'' ≡ q' ++ b ∷ []
    → q'' ≡ q ++ a ∷ b ∷ []
queue_two q a b e f = f ∙ ap (λ r. r ++ b ∷ []) e ∙ append_assoc q (a ∷ []) (b ∷ [])

queue_three :
    (q : List Sqe) {q' q'' q3 : List Sqe} (a b c : Sqe)
    → q' ≡ q ++ a ∷ []
    → q'' ≡ q' ++ b ∷ []
    → q3 ≡ q'' ++ c ∷ []
    → q3 ≡ q ++ a ∷ b ∷ c ∷ []
queue_three q a b c e f g =
    g ∙ ap (λ r. r ++ c ∷ []) (queue_two q a b e f) ∙ append_assoc q (a ∷ b ∷ []) (c ∷ [])

module _ {uring : Uring} (laws : UringLaws uring) (l : Fd) (m : ℕ) where
  open uring use {Ring, submit}
  open laws use {queued}

  -- What is queued in addition is in order.
  abbrev pub Adds : State uring → State uring → Type 0
  Adds s s' = (more : List Sqe) × (queued s'.ring ≡ queued s.ring ++ more) × Chained more

  push-Adds :
      (e : Sqe) (s : State uring)
      → IfOk (λ _ s'. queued s'.ring ≡ queued s.ring ++ e ∷ []) (push uring e s)
  unfolding push
  push-Adds e s = elim (dec_lt (length (queued s.ring)) laws.entries) [
    | yes room ↦
        let (r, got, order) = laws.enqueue_room e s.ring room in rw (got, push) (ended order)
    | no full ↦ rw (laws.enqueue_full e s.ring (omega arith), push) exited
  ]

  pub add_accept-Adds :
      (s : State uring)
      → IfOk
          (λ _ s'.
            queued s'.ring ≡ queued s.ring ++ sqe (Op.accept l) (some (length s.threadlets)) ∷ [])
          (add_accept uring l s)
  unfolding add_accept
  add_accept-Adds s = bind_if _ (push-Adds _ s) λ _ s' e. ended e

  on_accepted-Adds :
      (t : ℕ) (x : Threadlet) (res : ℤ) (s : State uring)
      → IfOk (λ _ s'. Adds s s') (on_accepted uring l t x res s)
  unfolding on_accepted
  on_accepted-Adds t x res s = elim (Bool-cases (is_neg res)) [
    | inl bad ↦ rw bad exited
    | inr conn ↦ rw conn (
        bind_if _ (push-Adds _ s) λ _ s1 e1. bind_if _ (add_accept-Adds s1) λ _ s2 e2.
          bind_if _ (push-Adds _ s2) λ _ s3 e3.
            let added : Adds s s3 = (
              sqe (Op.send res Mem.msg_size_conv 4) none
                  ∷ sqe (Op.accept l) (some (length s1.threadlets))
                  ∷ sqe (Op.recv res Mem.header_buf 2) (some t)
                  ∷ [],
              queue_three (queued s.ring) _ _ _ e1 e2 e3,
              (refl, (refl, (refl, tt))),
            ) in
            ended added)
  ]

  on_header-Adds :
      (t : ℕ) (x : Threadlet) (res : ℤ) (s : State uring)
      → IfOk (λ _ s'. Adds s s') (on_header uring m t x res s)
  unfolding on_header
  on_header-Adds t x res s = elim (Bool-cases (below res 2)) [
    | inl short ↦ rw short (ended ([], sym (append-nil _), tt))
    | inr whole ↦ rw whole (bind_if _ (push-Adds _ s) λ _ s' e. ended (_, e, (refl, tt)))
  ]

  on_msg-Adds :
      (t : ℕ) (x : Threadlet) (res : ℤ) (s : State uring)
      → IfOk (λ _ s'. Adds s s') (on_msg uring m t x res s)
  unfolding on_msg
  on_msg-Adds t x res s = elim (Bool-cases (below res m)) [
    | inl short ↦ rw short (ended ([], sym (append-nil _), tt))
    | inr whole ↦ rw whole (elim (Option-cases x.buf) [
      | inl unset ↦ rw unset faulted
      | inr (b, set) ↦ rw set (
          let reply : Sqe = record {
            op = Op.send x.fd (Mem.heap b) m;
            user_data = none;
            link = true;
          } in
          let next = sqe (Op.recv x.fd (Mem.heap b) m) (some t) in
          bind_if _ (push-Adds reply s) λ _ s1 e1. weaken_if (push-Adds next s1) λ _ s2 e2. (
            reply ∷ next ∷ [],
            queue_two (queued s.ring) reply next e1 e2,
            ((refl, (t, [], refl)), (refl, tt)),
          ))
    ])
  ]

  dispatch-Adds :
      (t : ℕ) (x : Threadlet) (res : ℤ) (s : State uring)
      → IfOk (λ _ s'. Adds s s') (dispatch uring x.pc l m t x res s)
  unfolding dispatch
  dispatch-Adds t x res s = by_pc x.pc
    where
      by_pc : (pc : Pc) → IfOk (λ _ s'. Adds s s') (dispatch uring pc l m t x res s)
      by_pc accepted = on_accepted-Adds t x res s
      by_pc received_header = on_header-Adds t x res s
      by_pc received_msg = on_msg-Adds t x res s

  pub handle_cqe-Adds :
      (user : Option ℕ) (res : ℤ) (s : State uring)
      → IfOk (λ _ s'. Adds s s') (handle_cqe uring l m (record { user_data = user; res = res }) s)
  unfolding handle_cqe
  handle_cqe-Adds none res s = ended ([], sym (append-nil _), tt)
  handle_cqe-Adds (some t) res s = elim (Option-cases (get_elem? s.threadlets t)) [
    | inl wild ↦ rw (handle_cqe, wild) faulted
    | inr (x, at) ↦ rw (handle_cqe, at) (dispatch-Adds t x res s)
  ]
