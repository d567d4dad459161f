-- ===== src/Multiclient.antt =====
-- multiclient.c: the load generator of client.c on several machines. The processes claim their
-- places, get their parameters and leave their reports in a Redis server.
pub mod Claims
pub mod Sent
pub mod Reports
pub mod Throughput
mod Tests
use echo_server.Prelude.{
  ℕ, zero, suc, ◌-◌, ◌^◌, get_elem?, List, [], ◌∷◌, Bool, true, false, Option, none, some, ℤ, pos,
  negsuc, pos_part, is_neg, int_lt, ltb, if◌then◌else◌, not,
}
use echo_server.Posix.{Os, Fd, Run, ok, exit, fault, Cmd, pure, quit, failed, call, ◌>>=◌, ◌>>◌}
use echo_server.Client
use echo_server.Client.{Local, ThreadArgs, handshake, aggregate}
use echo_server.Client.Thread.{
  ClientOs, Semaphore, Time, started, connect_all, for_each_thread, warm_up, report, or_exit, post,
}
use echo_server.Redis.{
  Text, Key, numclients, numthreads, address, port, results, Command, mget, decr, append, Element,
  text, other_element, Reply, integer, array, RedisOs, command,
}
use echo_server.Dsync.{dcounter_incr, dflag_wait}

-- `bench_params_t`
pub record BenchParams : Type 0 where
  pub threads : ℤ
  pub host : Text
  pub service : Text

-- `(int64_t) x` of a 64-bit number, as `%ld` prints it
abbrev pub to_int64 : ℕ → ℤ
to_int64 x = if ltb x (2 ^ 63) then pos x else negsuc (2 ^ 64 - x - 1)

-- The text of `one_operation` is that of client.c.
unfoldable pub one_operation : (os : Os) → Fd → (msg_size : ℤ) → Local → Cmd os.World Local
one_operation os conn_fd msg_size t = Client.one_operation os conn_fd msg_size t

module _ (redis : RedisOs) where
  open redis use {sys, atoi, print_long}
  open sys use {os}
  open os use {World}

  -- The element of a reply, which must be a string. An array that is too short is read behind its
  -- end.
  abbrev string_at : List Element → ℕ → Cmd World Text
  string_at elements i w = elim (get_elem? elements i) [
    | none ↦ fault
    | some e ↦ elim e [ text t ↦ ok t w | other_element ↦ exit failed w ]
  ]

  unfoldable pub load_bench_params : Cmd World BenchParams
  unfolding command
  load_bench_params = do
    reply ← command redis (mget (numthreads ∷ address ∷ port ∷ []))
    elim reply [
      | array elements ↦ do
        n ← string_at elements 0
        host ← string_at elements 1
        service ← string_at elements 2
        pure (record { threads = atoi n; host = host; service = service })
      | _ ↦ quit failed
    ]

  unfoldable pub try_claim_spot : Cmd World (Unit {0})
  unfolding command
  try_claim_spot = do
    reply ← command redis (decr numclients)
    elim reply [ integer n ↦ if is_neg n then quit failed else pure tt | _ ↦ quit failed ]

  unfoldable pub put_report : (throughput : ℕ) → Cmd World (Unit {0})
  unfolding command
  put_report throughput = elim (print_long (to_int64 throughput)) [
    | none ↦ quit failed
    | some shown ↦ do
      reply ← command redis (append results shown)
      elim reply [ integer _ ↦ pure tt | _ ↦ quit failed ]
  ]

  -- A thread of the process: `client` of client.c, with a check of the clock. Rounds as there.
  unfoldable pub start_client :
      (k j i : ℕ) → (stack : List ℕ) → Local → Cmd World (Option ThreadArgs)
  start_client k j i stack t = do
    addresses ← or_exit sys sys.getaddrinfo
    conn_fd ← connect_all sys addresses (negsuc 0)
    _ ← or_exit sys redis.clock_getres
    msg_size ← handshake os conn_fd stack
    t ← one_operation os conn_fd msg_size t
    post sys started
    warmed ← warm_up sys k conn_fd msg_size t
    elim warmed [ none ↦ pure none | some t ↦ report sys j i conn_fd msg_size t ]

-- What the main thread of a process calls besides: the threads that it creates run `start_client`,
-- and leave their measurements in `args`.
pub record ProcessOs : Type 1 where
  pub redis : RedisOs
  pub redis_connect : (host : Text) → redis.sys.os.World → Bool × redis.sys.os.World
  -- with the value 0
  pub sem_init : Semaphore → redis.sys.os.World → redis.sys.os.World
  pub create_client : redis.sys.os.World → redis.sys.os.World
  pub sem_wait : Semaphore → redis.sys.os.World → redis.sys.os.World
  pub args : redis.sys.os.World → List ThreadArgs

module _ (process : ProcessOs) where
  open process use {redis, redis_connect, sem_init, create_client, sem_wait, args}
  open redis use {sys}
  open sys use {os, sem_post}
  open os use {World}

  -- From the first signal on. The result is `false` where the flag was not set in `j` rounds.
  unfoldable pub measure_and_report : (j n : ℕ) → Cmd World Bool
  measure_and_report j n = do
    for_each_thread n (sem_post Semaphore.should_measure)
    ended ← dflag_wait redis j Key.should_report
    if not ended then pure false else do
      for_each_thread n (sem_post Semaphore.should_report)
      for_each_thread n (sem_wait Semaphore.reported)
      totals ← λ w. aggregate (args w) (record { num_ops = 0; throughput = 0 }) w
      put_report redis totals.throughput
      dcounter_incr redis Key.reported 1
      quit (pos 0)

  abbrev pub init_semaphores : Cmd World (Unit {0})
  init_semaphores w = ok tt (
      sem_init Semaphore.reported (
        sem_init Semaphore.should_report
          (sem_init Semaphore.should_measure (sem_init Semaphore.started w))))

  -- `bench`, with at most `k` and `j` rounds for the two flags. An array of no elements, or of a
  -- negative number, is undefined.
  unfoldable pub bench : (k j : ℕ) → (redis_addr : Text) → Cmd World Bool
  unfolding measure_and_report
  bench k j redis_addr = do
    connected ← λ w. ok (redis_connect redis_addr w).0 (redis_connect redis_addr w).1
    if not connected then quit failed else do
      try_claim_spot redis
      params ← load_bench_params redis
      init_semaphores
      if not (int_lt (pos 0) params.threads) then (λ w. fault) else do
        let n = pos_part params.threads
        for_each_thread n create_client
        for_each_thread n (sem_wait Semaphore.started)
        dcounter_incr redis Key.started 1
        told ← dflag_wait redis k Key.should_measure
        if not told then pure false else measure_and_report j n

  -- The arguments behind the program's name.
  unfoldable pub main : (k j : ℕ) → (arguments : List Text) → Cmd World Bool
  unfolding bench
  main k j [] = quit failed
  main k j (redis_addr ∷ _) = bench k j redis_addr
