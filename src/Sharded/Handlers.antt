-- ===== src/Sharded/Handlers.antt =====
-- The three handlers of io_uring_sharded.c and the invariant of its ring.
use mathlib.Core.Path.{subst}
use echo_server.Prelude.{
  ℕ, ◌+◌, ◌≡◌, refl, ap, sym, ◌∙◌, Bool, true, false, List, [], ◌∷◌, ◌++◌, none, some, inl, inr, ℤ,
  is_neg, below, length, get_elem?, get_elem?-lt, get_elem?-append_some, set, set_same, arith,
  append_assoc, Bool-cases,
}
use native.Mathlib.Decide.{dec_lt}
use echo_server.Posix.{Fd, Cmd, ◌>>◌}
use echo_server.Posix.Ends.{EndsOrFails, done, stops, bind_or_fail}
use echo_server.Sharded.{
  accepted, received_msg, Threadlet, State, push, add_accept, on_accepted, on_header, on_msg,
}
use echo_server.Sharded.Liburing.{Mem, Op, Sqe, sqe, Uring, UringLaws}
use echo_server.Sharded.Pending.{count, is_accept, count-append, Awaits, IsSend}
use echo_server.Sharded.Armed.{
  Bufs, Bufs-keep, Bufs-fresh, Armed, Armed-send, Armed-accept, Armed-arm,
}

module _ {uring : Uring} (laws : UringLaws uring) (l : Fd) (m : ℕ) where
  open uring use {Ring}
  open laws use {queued}

  -- What is submitted and not complete, then what is queued.
  abbrev pub pending : State uring → List Sqe → List Sqe
  pending s flight = flight ++ queued s.ring

  abbrev pub Good : ℕ → State uring → List Sqe → Type 0
  Good n s flight = Armed l m n s.threadlets s.bufs (pending s flight)

  -- A threadlet whose completion is being handled.
  pub record Idle (n : ℕ) (s : State uring) (flight : List Sqe) (t : ℕ) (r : Threadlet)
      : Type 0 where
    pub good : Good n s flight
    pub idle : count t (pending s flight) ≡ 0
    pub here : get_elem? s.threadlets t ≡ some r

  push-Ends :
      {P : Unit {0} → State uring → Type 0} (e : Sqe) (s : State uring)
      → ((r : Ring) → queued r ≡ queued s.ring ++ e ∷ [] → P tt (record s { ring = r }))
      → EndsOrFails P (push uring e s)
  unfolding push
  push-Ends e s next = elim (dec_lt (length (queued s.ring)) laws.entries) [
    | yes room ↦
        let (r, got, order) = laws.enqueue_room e s.ring room in
        rw (got, push) (done (next r order))
    | no full ↦ rw (laws.enqueue_full e s.ring (omega arith), push) (stops refl)
  ]

  -- A push and what follows it.
  pub push_then :
      {P : Unit {0} → State uring → Type 0} (e : Sqe) (k : Cmd (State uring) (Unit {0}))
      (s : State uring)
      → ((r : Ring)
          → queued r ≡ queued s.ring ++ e ∷ []
          → EndsOrFails P (k (record s { ring = r })))
      → EndsOrFails P ((push uring e >> k) s)
  unfolding push
  push_then e k s next = elim (dec_lt (length (queued s.ring)) laws.entries) [
    | yes room ↦
        let (r, got, order) = laws.enqueue_room e s.ring room in rw (got, push) (next r order)
    | no full ↦ rw (laws.enqueue_full e s.ring (omega arith), push) (stops refl)
  ]

  module _ (flight : List Sqe) where
    behind :
        (s : State uring) (r : Ring) (e : Sqe)
        → queued r ≡ queued s.ring ++ e ∷ []
        → pending s flight ++ e ∷ [] ≡ flight ++ queued r
    behind s r e order =
        append_assoc flight (queued s.ring) (e ∷ []) ∙ ap (λ q. flight ++ q) (sym order)

    send-Idle :
        {n : ℕ} {s : State uring} {t : ℕ} {x : Threadlet} {r : Ring} (op : Op) (link : Bool)
        → Idle n s flight t x
        → IsSend l m op
        → queued r ≡ queued s.ring ++ record { op = op; user_data = none; link = link } ∷ []
        → Idle n (record s { ring = r }) flight t x
    send-Idle {n} {s} {t} {x} {r} op link i is_send order = record {
      good =
          subst (Armed l m n s.threadlets s.bufs) (behind s r _ order)
            (Armed-send l m i.good op link is_send);
      idle =
          ap (count t) (sym (behind s r _ order))
          ∙ omega (
            arith,
            count-append t (pending s flight)
                (record { op = op; user_data = none; link = link } ∷ []),
            i.idle,
          );
      here = i.here;
    }

    arm-Good :
        {n : ℕ} {s : State uring} {t : ℕ} {x : Threadlet} {r : Ring} (op : Op) (x' : Threadlet)
        {bufs : ℕ}
        → Idle n s flight t x
        → Awaits l m x' op
        → is_accept op ≡ 0
        → Bufs (set s.threadlets t x') bufs
        → queued r ≡ queued s.ring ++ sqe op (some t) ∷ []
        → Good n (record { ring = r; threadlets = set s.threadlets t x'; bufs = bufs }) flight
    arm-Good {n} {s} {t} {x} {r} op x' {bufs} i w plain buffers order =
        subst (Armed l m n (set s.threadlets t x') bufs) (behind s r _ order)
          (Armed-arm l m i.good op t x x' i.idle i.here w plain buffers)

    -- `accept` is armed again, by a threadlet of its own.
    accept-Idle :
        {n : ℕ} {s : State uring} {t : ℕ} {x : Threadlet} {r : Ring}
        → Idle n s flight t x
        → queued r ≡ queued s.ring ++ sqe (Op.accept l) (some (length s.threadlets)) ∷ []
        → Idle
            (n + 1)
            (record {
              ring = r;
              threadlets = s.threadlets ++ record { pc = accepted; fd = l; buf = none } ∷ [];
              bufs = s.bufs;
            })
            flight
            t
            x
    accept-Idle {n} {s} {t} {x} {r} i order = record {
      good = subst (Armed l m (n + 1) _ s.bufs) (behind s r _ order) (Armed-accept l m i.good);
      idle =
          ap (count t) (sym (behind s r _ order))
          ∙ ground (
            arith,
            count-append t (pending s flight) (sqe (Op.accept l) (some (length s.threadlets)) ∷ []),
            i.idle,
            get_elem?-lt s.threadlets t i.here,
          );
      here = get_elem?-append_some s.threadlets _ t i.here;
    }

    add_accept-Ends :
        {n : ℕ} {s : State uring} {t : ℕ} {x : Threadlet}
        → Idle n s flight t x
        → EndsOrFails (λ _ s'. Idle (n + 1) s' flight t x) (add_accept uring l s)
    unfolding add_accept
    add_accept-Ends {s} i = push_then _ _ s λ r order. done (accept-Idle i order)

    pub on_accepted-Good :
        (s : State uring) (t : ℕ) (x : Threadlet) (res : ℤ)
        → Idle 0 s flight t x
        → EndsOrFails (λ _ s'. Good 1 s' flight) (on_accepted uring l t x res s)
    unfolding on_accepted add_accept
    on_accepted-Good s t x res i = elim (Bool-cases (is_neg res)) [
      | inl bad ↦ rw bad (stops refl)
      | inr conn ↦ rw conn (
          push_then _ _ s λ r order.
            bind_or_fail _
              (add_accept-Ends (send-Idle (Op.send res Mem.msg_size_conv 4) false i tt order))
              λ _ v j. push_then _ _ v λ r' order'. done (
                arm-Good (Op.recv res Mem.header_buf 2) _ j (refl, refl, refl) refl
                  (Bufs-keep v.threadlets v.bufs t x _ j.here j.good.buffers refl) order'))
    ]

    pub on_header-Good :
        (s : State uring) (t : ℕ) (x : Threadlet) (res : ℤ)
        → Idle 1 s flight t x
        → EndsOrFails (λ _ s'. Good 1 s' flight) (on_header uring m t x res s)
    unfolding on_header
    on_header-Good s t x res i = elim (Bool-cases (below res 2)) [
      | inl short ↦ rw short (done i.good)
      | inr whole ↦ rw whole (
          push_then _ _ s λ r order. done (
            arm-Good (Op.recv x.fd (Mem.heap s.bufs) m) _ i (refl, refl, refl, refl) refl
              (Bufs-fresh s.threadlets s.bufs t x _ i.here i.good.buffers refl) order))
    ]

    -- The linked pair of a reply and the next read leaves the threadlet as it was.
    rearmed :
        (s : State uring) (r : Ring) (t : ℕ) (x : Threadlet) (b : ℕ)
        → Idle 1 s flight t x
        → x.pc ≡ received_msg
        → x.buf ≡ some b
        → queued r
          ≡ queued s.ring
            ++ record { op = Op.send x.fd (Mem.heap b) m; user_data = none; link = true } ∷ []
        → EndsOrFails
            (λ _ s'. Good 1 s' flight)
            (push uring (sqe (Op.recv x.fd (Mem.heap b) m) (some t)) (record s { ring = r }))
    rearmed s r t x b i at holds order = push-Ends _ _ λ r' order'.
        subst (λ ts. Armed l m 1 ts s.bufs (flight ++ queued r')) (set_same s.threadlets t x i.here)
          (arm-Good (Op.recv x.fd (Mem.heap b) m) x
            (send-Idle (Op.send x.fd (Mem.heap b) m) true i tt order) (at, refl, holds, refl) refl
            (Bufs-keep s.threadlets s.bufs t x x i.here i.good.buffers refl) order')

    pub on_msg-Good :
        (s : State uring) (t : ℕ) (x : Threadlet) (res : ℤ) (b : ℕ)
        → Idle 1 s flight t x
        → x.pc ≡ received_msg
        → x.buf ≡ some b
        → EndsOrFails (λ _ s'. Good 1 s' flight) (on_msg uring m t x res s)
    unfolding on_msg
    on_msg-Good s t x res b i at holds = elim (Bool-cases (below res m)) [
      | inl short ↦ rw short (done i.good)
      | inr whole ↦
          rw whole (rw holds (push_then _ _ s λ r order. rearmed s r t x b i at holds order))
    ]
