-- ===== src/Sharded/Completion.antt =====
-- One completion in main_loop of io_uring_sharded.c: which handler it reaches.
use mathlib.Core.Path.{subst}
use echo_server.Prelude.{ℕ, refl, sym, Bool, List, ◌∷◌, ◌++◌, Option, none, some, ℤ, append_assoc}
use echo_server.Posix.{Fd}
use echo_server.Posix.Ends.{EndsOrFails, done}
use echo_server.Sharded.{State, dispatch, handle_cqe}
use echo_server.Sharded.Liburing.{Mem, Op, Sqe, Uring, UringLaws}
use echo_server.Sharded.Pending.{Owned}
use echo_server.Sharded.Armed.{Armed, Taken, Armed-take}
use echo_server.Sharded.Handlers.{pending, Good, on_accepted-Good, on_header-Good, on_msg-Good}

module _ {uring : Uring} (laws : UringLaws uring) (l : Fd) (m : ℕ) where
  open laws use {queued}

  -- The operation in flight that completes.
  abbrev entry : Op → Option ℕ → Bool → Sqe
  entry op user link = record { op = op; user_data = user; link = link }

  take_one :
      (s : State uring) (e : Sqe) (xs ys : List Sqe)
      → Good laws l m 1 s (xs ++ e ∷ ys)
      → Taken l m 1 s.threadlets s.bufs e (pending laws l m s (xs ++ ys))
  take_one s e xs ys good =
      subst (Taken l m 1 s.threadlets s.bufs e) (sym (append_assoc xs ys (queued s.ring))) (
        Armed-take l m 1 s.threadlets s.bufs e xs (ys ++ queued s.ring)
          (subst (Armed l m 1 s.threadlets s.bufs) (append_assoc xs (e ∷ ys) (queued s.ring)) good))

  completed :
      (s : State uring) (op : Op) (user : Option ℕ) (link : Bool) (xs ys : List Sqe) (res : ℤ)
      → Taken l m 1 s.threadlets s.bufs (entry op user link) (pending laws l m s (xs ++ ys))
      → Owned l m s.threadlets op user
      → EndsOrFails
          (λ _ s'. Good laws l m 1 s' (xs ++ ys))
          (handle_cqe uring l m (record { user_data = user; res = res }) s)
  unfolding handle_cqe
  completed s (Op.send fd mem len) none link xs ys res taken o = done taken.rest
  completed s (Op.accept fd) none link xs ys res taken o = absurd o
  completed s (Op.recv fd mem len) none link xs ys res taken o = absurd o
  completed s (Op.accept fd) (some t) link xs ys res taken (x, here, aw) =
      rw (here, aw.0, handle_cqe, dispatch)
        (on_accepted-Good laws l m (xs ++ ys) s t x res
          (record { good = taken.rest; idle = taken.idle t refl; here = here }))
  completed s (Op.send fd mem len) (some t) link xs ys res taken (x, here, aw) = absurd aw
  completed s (Op.recv fd Mem.msg_size_conv len) (some t) link xs ys res taken (x, here, aw) =
      absurd aw
  completed s (Op.recv fd Mem.header_buf len) (some t) link xs ys res taken (x, here, aw) =
      rw (here, aw.0, handle_cqe, dispatch)
        (on_header-Good laws l m (xs ++ ys) s t x res
          (record { good = taken.rest; idle = taken.idle t refl; here = here }))
  completed s (Op.recv fd (Mem.heap b) len) (some t) link xs ys res taken (x, here, aw) =
      rw (here, aw.0, handle_cqe, dispatch)
        (on_msg-Good laws l m (xs ++ ys) s t x res b
          (record { good = taken.rest; idle = taken.idle t refl; here = here }) aw.0 aw.2)

  -- The completion of any operation in flight keeps the invariant, or the process ends.
  pub handle_cqe-Good :
      (s : State uring) (e : Sqe) (xs ys : List Sqe) (res : ℤ)
      → Good laws l m 1 s (xs ++ e ∷ ys)
      → EndsOrFails
          (λ _ s'. Good laws l m 1 s' (xs ++ ys))
          (handle_cqe uring l m (record { user_data = e.user_data; res = res }) s)
  handle_cqe-Good s e xs ys res good =
      let taken = take_one s e xs ys good in
      completed s e.op e.user_data e.link xs ys res taken taken.owned
