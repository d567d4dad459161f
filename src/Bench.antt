-- ===== src/Bench.antt =====
-- bench of client.c and multiclient.c: the main thread, its N client threads, and the four
-- semaphores between them, as a relation between states. Client/Thread has the code of a thread by
-- itself; here an operation on its connection is a step that the other threads do not see.
pub mod Counts
pub mod Order
pub mod Finish
mod Tests
use echo_server.Prelude.{ℕ, zero, suc, ◌+◌, ◌%◌, ◌^◌, ◌≡◌, List, [], ◌∷◌, ◌++◌}
use echo_server.Posix.{Cmd}
use echo_server.Client.{ThreadArgs, Totals, aggregate}

-- How far a client thread has got: `lost` if `pthread_create` failed, `starting` until its first
-- `sem_post`, `warming` and `measuring` in the loops of that purpose, `timed` once its runtime is
-- stored, and `running` when it has reported.
pub data Pc : Type 0 where
  lost starting warming measuring timed running : Pc

-- A thread and its element of the array `args`.
pub record Thread : Type 0 where
  pub pc : Pc
  pub args : ThreadArgs

-- The values of the semaphores.
pub record Sems : Type 0 where
  pub started : ℕ
  pub should_measure : ℕ
  pub should_report : ℕ
  pub reported : ℕ

-- The main thread, with the rounds that are left of each of its loops. `sleeping` and `observing`
-- are the two calls of `nanosleep` in client.c, and of `dflag_wait` in multiclient.c.
pub data Main : Type 0 where
  creating : (left : ℕ) → Main
  awaiting : (left : ℕ) → Main
  sleeping : Main
  signalling : (left : ℕ) → Main
  observing : Main
  ending : (left : ℕ) → Main
  collecting : (left : ℕ) → Main
  aggregating : Main

pub record System : Type 0 where
  pub main : Main
  pub sems : Sems
  pub threads : List Thread

abbrev pub system : Main → Sems → List Thread → System
system m s ts = record { main = m; sems = s; threads = ts }

abbrev pub thread : Pc → ThreadArgs → Thread
thread pc a = record { pc = pc; args = a }

-- `memset(args, 0, sizeof(args))`
abbrev pub no_args : ThreadArgs
no_args = record { num_ops = 0; runtime = 0 }

-- A step of a client thread. `sem_trywait` succeeds when the value is not zero.
pub data Move : Sems → Thread → Sems → Thread → Type 0 where
  start :
      {s : Sems} {a : ThreadArgs}
      → Move s (thread starting a) (record s { started = s.started + 1 }) (thread warming a)
  warm_up :
      {s : Sems} {a : ThreadArgs}
      → s.should_measure ≡ 0
      → Move s (thread warming a) s (thread warming a)
  begin :
      {s : Sems} {a : ThreadArgs} (n : ℕ)
      → s.should_measure ≡ suc n
      → Move s
          (thread warming a)
          (record s { should_measure = n })
          (thread measuring (record a { num_ops = 0 }))
  operate :
      {s : Sems} {a : ThreadArgs}
      → s.should_report ≡ 0
      → Move s
          (thread measuring a)
          s
          (thread measuring (record a { num_ops = (a.num_ops + 1) % 2 ^ 64 }))
  finish :
      {s : Sems} {a : ThreadArgs} (n elapsed : ℕ)
      → s.should_report ≡ suc n
      → Move s
          (thread measuring a)
          (record s { should_report = n })
          (thread timed (record a { runtime = elapsed % 2 ^ 64 }))
  report :
      {s : Sems} {a : ThreadArgs}
      → Move s (thread timed a) (record s { reported = s.reported + 1 }) (thread running a)
  run_on : {s : Sems} {a : ThreadArgs} → Move s (thread running a) s (thread running a)

-- A step of the whole, where `n` threads were asked for. `sem_wait` waits for a value above zero.
pub data Step (n : ℕ) : System → System → Type 0 where
  create :
      {k : ℕ} {s : Sems} {ts : List Thread}
      → Step n
          (system (creating (suc k)) s ts)
          (system (creating k) s (ts ++ thread starting no_args ∷ []))
  create_fails :
      {k : ℕ} {s : Sems} {ts : List Thread}
      → Step n
          (system (creating (suc k)) s ts)
          (system (creating k) s (ts ++ thread lost no_args ∷ []))
  created :
      {s : Sems} {ts : List Thread}
      → Step n (system (creating zero) s ts) (system (awaiting n) s ts)
  hear :
      {k : ℕ} {s : Sems} {ts : List Thread} (m : ℕ)
      → s.started ≡ suc m
      → Step n (system (awaiting (suc k)) s ts) (system (awaiting k) (record s { started = m }) ts)
  heard :
      {s : Sems} {ts : List Thread} → Step n (system (awaiting zero) s ts) (system sleeping s ts)
  slept : {s : Sems} {ts : List Thread} → Step n (system sleeping s ts) (system (signalling n) s ts)
  signal :
      {k : ℕ} {s : Sems} {ts : List Thread}
      → Step n
          (system (signalling (suc k)) s ts)
          (system (signalling k) (record s { should_measure = s.should_measure + 1 }) ts)
  signalled :
      {s : Sems} {ts : List Thread} → Step n (system (signalling zero) s ts) (system observing s ts)
  observed : {s : Sems} {ts : List Thread} → Step n (system observing s ts) (system (ending n) s ts)
  end_one :
      {k : ℕ} {s : Sems} {ts : List Thread}
      → Step n
          (system (ending (suc k)) s ts)
          (system (ending k) (record s { should_report = s.should_report + 1 }) ts)
  ended :
      {s : Sems} {ts : List Thread}
      → Step n (system (ending zero) s ts) (system (collecting n) s ts)
  collect :
      {k : ℕ} {s : Sems} {ts : List Thread} (m : ℕ)
      → s.reported ≡ suc m
      → Step n
          (system (collecting (suc k)) s ts)
          (system (collecting k) (record s { reported = m }) ts)
  collected :
      {s : Sems} {ts : List Thread}
      → Step n (system (collecting zero) s ts) (system aggregating s ts)
  client :
      {m : Main} {s s' : Sems} {t t' : Thread} (xs ys : List Thread)
      → Move s t s' t'
      → Step n (system m s (xs ++ t ∷ ys)) (system m s' (xs ++ t' ∷ ys))

-- After `sem_init`
abbrev pub initial : ℕ → System
initial n =
    system (creating n)
      (record { started = 0; should_measure = 0; should_report = 0; reported = 0 }) []

pub data Reach (n : ℕ) (s : System) : System → Type 0 where
  here : Reach n s s
  next : {t u : System} → Reach n s t → Step n t u → Reach n s u

abbrev pub all_args : List Thread → List ThreadArgs
all_args [] = []
all_args (t ∷ ts) = t.args ∷ all_args ts

-- "now aggregate the measurements"
unfoldable pub totals : System → {W : Type 0} → Cmd W Totals
totals s = aggregate (all_args s.threads) (record { num_ops = 0; throughput = 0 })
