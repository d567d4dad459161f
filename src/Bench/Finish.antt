-- ===== src/Bench/Finish.antt =====
-- How bench gets to its end.
use mathlib.Core.Path.{subst}
use echo_server.Prelude.{
  ℕ, zero, suc, ◌+◌, ◌*◌, ◌≤◌, ◌<◌, ◌≡◌, refl, ap, sym, ◌⊎◌, inl, inr, List, [], ◌∷◌, ◌++◌, length,
  length-append, arith,
}
use echo_server.Client.{ThreadArgs}
use echo_server.Bench.{
  Pc, lost, starting, warming, measuring, timed, running, Thread, Sems, Main, creating, awaiting,
  sleeping, signalling, observing, ending, collecting, aggregating, System, system, thread, no_args,
  Move, start, begin, finish, report, Step, create, created, hear, heard, slept, signal, signalled,
  observed, end_one, ended, collect, collected, client, Reach, here, next, initial,
}
use echo_server.Bench.Counts.{
  is_lost, past_start, past_begin, past_finish, past_report, total, total-append, total-split,
}
use echo_server.Bench.Order.{
  zero_or_pos, past_begin-IsTest, past_finish-IsTest, total-le, Balanced, Reach-Balanced,
}

-- How many steps a thread and the main thread are from their ends.
abbrev thread_rank : Thread → ℕ
thread_rank t = elim t.pc [ starting ↦ 4 | warming ↦ 3 | measuring ↦ 2 | timed ↦ 1 | _ ↦ 0 ]

abbrev main_rank : ℕ → Main → ℕ
main_rank n m = elim m [
  | aggregating ↦ 0
  | collecting k ↦ k + 1
  | ending k ↦ k + n + 2
  | observing ↦ n + n + 3
  | signalling k ↦ k + n + n + 4
  | sleeping ↦ n + n + n + 5
  | awaiting k ↦ k + n + n + n + 6
  | creating k ↦ 6 * k + n + n + n + n + 7
]

abbrev rank : ℕ → System → ℕ
rank n s = main_rank n s.main + total thread_rank s.threads

-- A step that leads towards the end.
record Ahead (n : ℕ) (s : System) : Type 0 where
  next_state : System
  step : Step n s next_state
  closer : rank n next_state < rank n s
  whole : total is_lost next_state.threads ≡ 0

-- A thread that has not passed a point yet, if there is one.
record Behind (f : Thread → ℕ) (ts : List Thread) : Type 0 where
  before : List Thread
  it : Thread
  after : List Thread
  split : ts ≡ before ++ it ∷ after
  not_yet : f it ≡ 0

find-Behind : (f : Thread → ℕ) (ts : List Thread) → total f ts < length ts → Behind f ts
unfolding total
find-Behind f [] h = absurd (omega arith)
find-Behind f (t ∷ ts) h = elim (zero_or_pos (f t)) [
  | inl e ↦ record { before = []; it = t; after = ts; split = refl; not_yet = e }
  | inr some ↦
      let b = find-Behind f ts (omega arith) in
      record {
        before = t ∷ b.before;
        it = b.it;
        after = b.after;
        split = ap (λ l. t ∷ l) b.split;
        not_yet = b.not_yet;
      }
]

module _ (n : ℕ) where
  -- A move of one thread brings the end nearer.
  client-Ahead :
      {m : Main} {s s' : Sems} {t t' : Thread} (xs ys : List Thread)
      → Move s t s' t'
      → total is_lost (xs ++ t ∷ ys) ≡ 0
      → is_lost t' ≡ 0
      → thread_rank t' < thread_rank t
      → Ahead n (system m s (xs ++ t ∷ ys))
  client-Ahead {s'} {t} {t'} xs ys mv whole kept less = record {
    next_state = _;
    step = client xs ys mv;
    closer = omega (arith, total-split thread_rank xs ys t, total-split thread_rank xs ys t');
    whole = omega (arith, total-split is_lost xs ys t, total-split is_lost xs ys t');
  }

  main-Ahead :
      {m m' : Main} {s s' : Sems} {ts : List Thread}
      → Step n (system m s ts) (system m' s' ts)
      → total is_lost ts ≡ 0
      → main_rank n m' < main_rank n m
      → Ahead n (system m s ts)
  main-Ahead st whole less = record {
    next_state = _;
    step = st;
    closer = omega arith;
    whole = whole;
  }

  create-Ahead :
      (k : ℕ) (s : Sems) (ts : List Thread)
      → total is_lost ts ≡ 0
      → Ahead n (system (creating (suc k)) s ts)
  unfolding total
  create-Ahead k s ts whole = record {
    next_state = _;
    step = create;
    closer = omega (arith, total-append thread_rank ts (thread starting no_args ∷ []));
    whole = omega (arith, total-append is_lost ts (thread starting no_args ∷ []));
  }

  -- While the main thread waits to hear from the threads, one that has not started can start.
  start-Ahead :
      {m : Main} {s : Sems} (xs ys : List Thread) (pc : Pc) (a : ThreadArgs)
      → total is_lost (xs ++ thread pc a ∷ ys) ≡ 0
      → past_start (thread pc a) ≡ 0
      → Ahead n (system m s (xs ++ thread pc a ∷ ys))
  start-Ahead xs ys lost a whole behind =
      absurd (omega (arith, total-split is_lost xs ys (thread lost a)))
  start-Ahead xs ys starting a whole behind = client-Ahead xs ys start whole refl (omega arith)
  start-Ahead xs ys warming a whole behind = absurd (omega arith)
  start-Ahead xs ys measuring a whole behind = absurd (omega arith)
  start-Ahead xs ys timed a whole behind = absurd (omega arith)
  start-Ahead xs ys running a whole behind = absurd (omega arith)

  -- A positive number, as a successor.
  prev : (v : ℕ) → 0 < v → (k : ℕ) × (v ≡ suc k)
  prev zero h = absurd (omega arith)
  prev (suc k) h = (k, refl)

  -- While the main thread collects, all signals are sent, and a thread that has not reported has
  -- what it waits for.
  report-Ahead :
      {m : Main} {s : Sems} (xs ys : List Thread) (pc : Pc) (a : ThreadArgs)
      → total is_lost (xs ++ thread pc a ∷ ys) ≡ 0
      → past_report (thread pc a) ≡ 0
      → length xs + 1 + length ys ≤ s.should_measure + total past_begin (xs ++ thread pc a ∷ ys)
      → length xs + 1 + length ys ≤ s.should_report + total past_finish (xs ++ thread pc a ∷ ys)
      → Ahead n (system m s (xs ++ thread pc a ∷ ys))
  report-Ahead xs ys lost a whole behind signals ends =
      absurd (omega (arith, total-split is_lost xs ys (thread lost a)))
  report-Ahead xs ys starting a whole behind signals ends =
      client-Ahead xs ys start whole refl (omega arith)
  report-Ahead {s} xs ys warming a whole behind signals ends =
      let some_signal : 0 < s.should_measure = omega (
        arith,
        total-split past_begin xs ys (thread warming a),
        total-le past_begin past_begin-IsTest xs,
        total-le past_begin past_begin-IsTest ys,
      ) in
      let (k, e) = prev s.should_measure some_signal in
      client-Ahead xs ys (begin k e) whole refl (omega arith)
  report-Ahead {s} xs ys measuring a whole behind signals ends =
      let some_end : 0 < s.should_report = omega (
        arith,
        total-split past_finish xs ys (thread measuring a),
        total-le past_finish past_finish-IsTest xs,
        total-le past_finish past_finish-IsTest ys,
      ) in
      let (k, e) = prev s.should_report some_end in
      client-Ahead xs ys (finish k 0 e) whole refl (omega arith)
  report-Ahead xs ys timed a whole behind signals ends =
      client-Ahead xs ys report whole refl (omega arith)
  report-Ahead xs ys running a whole behind signals ends = absurd (omega arith)

  await-Ahead :
      (k : ℕ) (s : Sems) (ts : List Thread) (v : ℕ)
      → s.started ≡ v
      → Balanced n (system (awaiting (suc k)) s ts)
      → total is_lost ts ≡ 0
      → Ahead n (system (awaiting (suc k)) s ts)
  await-Ahead k s ts (suc v) e b whole = main-Ahead (hear v e) whole (omega arith)
  await-Ahead k s ts zero e b whole =
      let late = find-Behind past_start ts (omega arith) in
      subst (λ l. Ahead n (system (awaiting (suc k)) s l)) (sym late.split)
        (start-Ahead late.before late.after late.it.pc late.it.args
          (subst (λ l. total is_lost l ≡ 0) late.split whole) late.not_yet)

  collect-Ahead :
      (k : ℕ) (s : Sems) (ts : List Thread) (v : ℕ)
      → s.reported ≡ v
      → Balanced n (system (collecting (suc k)) s ts)
      → total is_lost ts ≡ 0
      → Ahead n (system (collecting (suc k)) s ts)
  collect-Ahead k s ts (suc v) e b whole = main-Ahead (collect v e) whole (omega arith)
  collect-Ahead k s ts zero e b whole =
      let late = find-Behind past_report ts (omega arith) in
      let b' = subst (λ l. Balanced n (system (collecting (suc k)) s l)) late.split b in
      let size : length (late.before ++ late.it ∷ late.after)
          ≡ length late.before + 1 + length late.after =
        omega (arith, length-append {0} late.before (late.it ∷ late.after)) in
      subst (λ l. Ahead n (system (collecting (suc k)) s l)) (sym late.split)
        (report-Ahead late.before late.after late.it.pc late.it.args
          (subst (λ l. total is_lost l ≡ 0) late.split whole) late.not_yet
          (omega (arith, b'.threads, b'.signals)) (omega (arith, b'.threads, b'.ends)))

  ahead :
      (m : Main) (s : Sems) (ts : List Thread)
      → Balanced n (system m s ts)
      → total is_lost ts ≡ 0
      → (m ≡ aggregating) ⊎ Ahead n (system m s ts)
  ahead (creating zero) s ts b whole = inr (main-Ahead created whole (omega arith))
  ahead (creating (suc k)) s ts b whole = inr (create-Ahead k s ts whole)
  ahead (awaiting zero) s ts b whole = inr (main-Ahead heard whole (omega arith))
  ahead (awaiting (suc k)) s ts b whole = inr (await-Ahead k s ts s.started refl b whole)
  ahead sleeping s ts b whole = inr (main-Ahead slept whole (omega arith))
  ahead (signalling zero) s ts b whole = inr (main-Ahead signalled whole (omega arith))
  ahead (signalling (suc k)) s ts b whole = inr (main-Ahead signal whole (omega arith))
  ahead observing s ts b whole = inr (main-Ahead observed whole (omega arith))
  ahead (ending zero) s ts b whole = inr (main-Ahead ended whole (omega arith))
  ahead (ending (suc k)) s ts b whole = inr (main-Ahead end_one whole (omega arith))
  ahead (collecting zero) s ts b whole = inr (main-Ahead collected whole (omega arith))
  ahead (collecting (suc k)) s ts b whole = inr (collect-Ahead k s ts s.reported refl b whole)
  ahead aggregating s ts b whole = inl refl

  -- A run to the end.
  pub record Finishes (s : System) : Type 0 where
    pub last : System
    pub run : Reach n s last
    pub at : last.main ≡ aggregating

  prepend : {s t u : System} → Step n s t → Reach n t u → Reach n s u
  prepend st here = next here st
  prepend st (next r st') = next (prepend st r) st'

  finish_within :
      (fuel : ℕ) (s : System)
      → rank n s < fuel
      → Reach n (initial n) s
      → total is_lost s.threads ≡ 0
      → Finishes s
  finish_within zero s h r whole = absurd (omega arith)
  finish_within (suc fuel) s h r whole =
      elim (ahead s.main s.sems s.threads (Reach-Balanced n r) whole) [
        | inl at ↦ record { last = s; run = here; at = at }
        | inr a ↦
            let f =
              finish_within fuel a.next_state (omega (arith, a.closer)) (next r a.step) a.whole in
            record { last = f.last; run = prepend a.step f.run; at = f.at }
      ]

  -- From every state that bench reaches and in which no thread failed to be created, there is a
  -- run to the aggregation: the semaphores never leave it stuck.
  pub Reach-Finishes :
      (s : System) → Reach n (initial n) s → total is_lost s.threads ≡ 0 → Finishes s
  Reach-Finishes s r whole = finish_within (rank n s + 1) s (omega arith) r whole
