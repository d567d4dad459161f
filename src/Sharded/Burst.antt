-- ===== src/Sharded/Burst.antt =====
-- Batches of completions and the exit "sq is full" of io_uring_sharded.c.
use echo_server.Prelude.{
  ℕ, ◌+◌, ◌*◌, ◌≤◌, ◌<◌, ◌≡◌, refl, ap, sym, ◌∙◌, true, false, List, [], ◌∷◌, none, some, below,
  length, get_elem?, arith, length-append,
}
use mathlib.Core.Path.{subst}
use native.Mathlib.Decide.{dec_lt}
use echo_server.Posix.{Fd, Run, ok, exit, failed}
use echo_server.Posix.Ends.{Ends, up_and_safe}
use echo_server.Sharded.{
  received_msg, Threadlet, Cqe, State, push, on_msg, dispatch, handle_cqe, handle_batch,
}
use echo_server.Sharded.Liburing.{Mem, Op, Sqe, sqe, Uring, UringLaws}
use echo_server.Sharded.Capacity.{load, AllGood, handle_batch-StaysUp}
use echo_server.Sharded.System.{Delivers, Reach, round, round_safe}
use echo_server.Sharded.Handlers.{pending, Good}

module _ {uring : Uring} (laws : UringLaws uring) (l : Fd) (m : ℕ) where
  open uring use {Ring, submit}

  -- A round from a reachable state, in which no completion is an error and three times as many
  -- entries as completions fit in the submission queue, ends normally: the server does not
  -- exit.
  pub round_stays_up :
      {s : State uring} {flight left : List Sqe} {cs : List Cqe}
      → Reach laws l m s flight
      → Delivers (pending laws l m s flight) cs left
      → AllGood laws l m cs
      → 3 * length cs ≤ laws.entries
      → Ends (λ _ s'. Good laws l m 1 s' left) (round laws l m cs s)
  round_stays_up {s} {cs} r d good room =
      up_and_safe _ (round_safe laws l m r d) (
        handle_batch-StaysUp laws l m cs _ good (omega (arith, ap length (laws.submit_all s.ring))))

  -- A completion of a whole message.
  pub record Whole (ts : List Threadlet) (c : Cqe) : Type 0 where
    pub t : ℕ
    pub r : Threadlet
    pub b : ℕ
    pub user : c.user_data ≡ some t
    pub here : get_elem? ts t ≡ some r
    pub at : r.pc ≡ received_msg
    pub holds : r.buf ≡ some b
    pub whole : below c.res m ≡ false

  abbrev reply : {ts : List Threadlet} {c : Cqe} → Whole ts c → Sqe
  reply w = record { op = Op.send w.r.fd (Mem.heap w.b) m; user_data = none; link = true }

  abbrev read : {ts : List Threadlet} {c : Cqe} → Whole ts c → Sqe
  read w = sqe (Op.recv w.r.fd (Mem.heap w.b) m) (some w.t)

  abbrev pub AllWhole : List Threadlet → List Cqe → Type 0
  AllWhole ts [] = Unit
  AllWhole ts (c ∷ cs) = Whole ts c × AllWhole ts cs

  -- A whole message takes two places of the queue.
  record Queued (s : State uring) (c : Cqe) : Type 0 where
    next : State uring
    runs : handle_cqe uring l m c s ≡ ok tt next
    taken : load laws l m next ≡ load laws l m s + 2
    same : next.threadlets ≡ s.threadlets

  abbrev pub Fails : Run (State uring) (Unit {0}) → Type 0
  Fails r = (s : State uring) × (r ≡ exit failed s)

  push_fits :
      (e : Sqe) (s : State uring)
      → load laws l m s < laws.entries
      → (r : Ring) × (push uring e s ≡ ok tt (record s { ring = r }))
        × (load laws l m (record s { ring = r }) ≡ load laws l m s + 1)
  unfolding push
  push_fits e s room =
      let (r, got, order) = laws.enqueue_room e s.ring room in
      (r, rw (got, push), ap length order ∙ length-append (laws.queued s.ring) (e ∷ []))

  push_full :
      (e : Sqe) (s : State uring) → laws.entries ≤ load laws l m s → push uring e s ≡ exit failed s
  unfolding push
  push_full e s full = rw (laws.enqueue_full e s.ring full, push)

  Whole-Queued :
      (s : State uring) (c : Cqe)
      → Whole s.threadlets c
      → load laws l m s + 2 ≤ laws.entries
      → Queued s c
  unfolding handle_cqe dispatch on_msg
  Whole-Queued s c w room =
      let (r, got, order) = push_fits (reply w) s (omega arith) in
      let (r', got', order') = push_fits (read w) (record s { ring = r }) (omega arith) in
      record {
        next = record s { ring = r' };
        runs = rw (w.user, w.here, handle_cqe, w.at, dispatch, w.whole, w.holds, got, got');
        taken = omega arith;
        same = refl;
      }

  whole-Fails :
      (s : State uring) (c : Cqe)
      → Whole s.threadlets c
      → laws.entries < load laws l m s + 2
      → Fails (handle_cqe uring l m c s)
  unfolding handle_cqe dispatch on_msg
  whole-Fails s c w tight = elim (dec_lt (load laws l m s) laws.entries) [
    | yes one ↦
        let (r, got, order) = push_fits (reply w) s one in
        (
          record s { ring = r },
          rw (w.user, w.here, handle_cqe, w.at, dispatch, w.whole, w.holds, got)
              (push_full (read w) (record s { ring = r }) (omega arith)),
        )
    | no full ↦ (
      s,
      rw (w.user, w.here, handle_cqe, w.at, dispatch, w.whole, w.holds)
          (rw (push_full (reply w) s (omega arith))),
    )
  ]

  then_fails :
      (c : Cqe) (cs : List Cqe) (s : State uring)
      → Fails (handle_cqe uring l m c s)
      → Fails (handle_batch uring l m (c ∷ cs) s)
  unfolding handle_batch
  then_fails c cs s (w, f) = (w, rw f)

  after :
      (c : Cqe) (cs : List Cqe) (s : State uring) (q : Queued s c)
      → Fails (handle_batch uring l m cs q.next)
      → Fails (handle_batch uring l m (c ∷ cs) s)
  unfolding handle_batch
  after c cs s q (w, f) = (w, rw q.runs f)

  burst_loop :
      (cs : List Cqe) (s : State uring)
      → AllWhole s.threadlets cs
      → load laws l m s ≤ laws.entries
      → laws.entries < load laws l m s + 2 * length cs
      → Fails (handle_batch uring l m cs s)
  burst_loop [] s all fits many = absurd (omega arith)
  burst_loop (c ∷ cs) s all fits many = elim (dec_lt laws.entries (load laws l m s + 2)) [
    | yes tight ↦ then_fails c cs s (whole-Fails s c all.0 tight)
    | no room ↦
        let q = Whole-Queued s c all.0 (omega arith) in
        after c cs s q (
          burst_loop cs q.next (subst (λ ts. AllWhole ts cs) (sym q.same) all.1)
            (omega (arith, q.taken)) (omega (arith, q.taken)))
  ]

  -- A batch of completed messages, each of a threadlet that waits for one, of which twice the
  -- number exceeds the entries of the submission queue, makes the server exit with status -1.
  pub burst_ends_server :
      (s : State uring) (cs : List Cqe)
      → AllWhole s.threadlets cs
      → laws.entries < 2 * length cs
      → Fails (round laws l m cs s)
  burst_ends_server s cs all many =
      burst_loop cs (record s { ring = submit s.ring }) all
        (omega (arith, ap length (laws.submit_all s.ring)))
        (omega (arith, ap length (laws.submit_all s.ring)))
