-- ===== src/SetupRedis.antt =====
-- setup-redis.c: an earlier client that gets its parameters from Redis. It names semaphores and
-- functions that the file does not declare; they are those of multiclient.c here, and `put_report`
-- is a parameter.
pub mod Failing
mod Tests
use echo_server.Prelude.{
  ℕ, zero, suc, ◌+◌, ◌*◌, ◌/◌, ◌%◌, ◌^◌, get_elem?, List, [], ◌∷◌, Bool, true, false, Option, none,
  some, ℤ, pos, pos_part, int_lt, ltb, leb, ◌==◌, if◌then◌else◌, not, to_size,
}
use echo_server.Posix.{Run, ok, exit, fault, Cmd, pure, quit, failed, ◌>>=◌, ◌>>◌}
use echo_server.Client.{ThreadArgs}
use echo_server.Client.Thread.{Semaphore, for_each_thread}
use echo_server.Redis.{
  Text, Key, quoted, numthreads, address, port, warmup_sec, measure_sec, mget, get, incrby, Element,
  text, other_element, string, array, RedisOs, command,
}
use echo_server.Multiclient.{ProcessOs, init_semaphores}

-- `bench_params_t`
pub record BenchParams : Type 0 where
  pub threads : ℤ
  pub host : Text
  pub service : Text
  pub warmup : ℤ
  pub measure : ℤ

-- The sums over the threads, of 64 bits.
unfoldable pub aggregate : List ThreadArgs → (num_ops runtime : ℕ) → ℕ × ℕ
aggregate [] num_ops runtime = (num_ops, runtime)
aggregate (a ∷ rest) num_ops runtime =
    aggregate rest ((num_ops + a.num_ops) % 2 ^ 64) ((runtime + a.runtime) % 2 ^ 64)

-- `put_report`, and what a process calls
pub record SetupOs : Type 1 where
  pub process : ProcessOs
  pub put_report : (num_ops runtime : ℕ) → process.redis.sys.os.World → process.redis.sys.os.World

module _ (setup : SetupOs) where
  open setup use {process, put_report}
  open process use {redis, redis_connect, create_client, sem_wait, args}
  open redis use {sys, atoi, strtol}
  open sys use {os, sem_post}
  open os use {World}

  -- The loop over the five types. An array that is too short is read behind its end.
  unfoldable pub string_elements : (left i : ℕ) → List Element → Cmd World (List Text)
  string_elements zero i elements = pure []
  string_elements (suc left) i elements = elim (get_elem? elements i) [
    | none ↦ λ w. fault
    | some e ↦ elim e [
      | other_element ↦ quit failed
      | text t ↦ do rest ← string_elements left (i + 1) elements; pure (t ∷ rest)
    ]
  ]

  unfoldable pub params_of : List Text → Cmd World BenchParams
  params_of (n ∷ host ∷ service ∷ warmup ∷ measure ∷ _) = pure (record {
    threads = atoi n;
    host = host;
    service = service;
    warmup = atoi warmup;
    measure = atoi measure;
  })
  params_of _ = λ w. fault

  unfoldable pub load_bench_params : Cmd World BenchParams
  unfolding command string_elements params_of
  load_bench_params = do
    reply ← command redis (mget (numthreads ∷ address ∷ port ∷ warmup_sec ∷ measure_sec ∷ []))
    elim reply [
      | array elements ↦ do texts ← string_elements 5 0 elements; params_of texts
      | _ ↦ quit failed
    ]

  -- The marks around `%s` in the format are part of the key.
  unfoldable pub dsem_post : Key → (n : ℕ) → Cmd World (Unit {0})
  unfolding command
  dsem_post a n = do reply ← command redis (incrby (quoted a) n); pure tt

  -- At most `k` rounds of the loop: whether it has returned. The number is compared without a sign.
  unfoldable pub dsem_wait : (k : ℕ) → Key → (n : ℕ) → Cmd World Bool
  unfolding command
  dsem_wait zero a n = pure false
  dsem_wait (suc k) a n = do
    reply ← command redis (get a)
    elim reply [
      | string s ↦
          let rest = dsem_wait k a n in if leb n (to_size (strtol s)) then quit failed else rest
      | _ ↦ quit failed
    ]

  -- From the first signal on. The result is `false` where a flag was not set in `j` rounds.
  unfoldable pub measure_and_report : (j n : ℕ) → Cmd World Bool
  unfolding dsem_wait dsem_post aggregate
  measure_and_report j n = do
    for_each_thread n (sem_post Semaphore.should_measure)
    ended ← dsem_wait j Key.should_report 1
    if not ended then pure false else do
      for_each_thread n (sem_post Semaphore.should_report)
      for_each_thread n (sem_wait Semaphore.reported)
      totals ← λ w. ok (aggregate (args w) 0 0) w
      (λ w. ok tt (put_report totals.0 totals.1 w))
      dsem_post Key.reported 1
      if totals.1 == 0 then (λ w. fault) else quit (pos 0)

  -- From the creation of the threads on
  unfoldable pub run_threads : (k j n : ℕ) → Cmd World Bool
  unfolding measure_and_report dsem_post dsem_wait
  run_threads k j n = do
    for_each_thread n create_client
    for_each_thread n (sem_wait Semaphore.started)
    dsem_post Key.started 1
    told ← dsem_wait k Key.should_measure 1
    if not told then pure false else measure_and_report j n

  unfoldable pub bench : (k j : ℕ) → (redis_addr : Text) → Cmd World Bool
  unfolding load_bench_params run_threads
  bench k j redis_addr = do
    connected ← λ w. ok (redis_connect redis_addr w).0 (redis_connect redis_addr w).1
    if not connected then quit failed else do
      params ← load_bench_params
      init_semaphores process
      if not (int_lt (pos 0) params.threads)
          then (λ w. fault)
          else run_threads k j (pos_part params.threads)

  -- The arguments behind the program's name.
  unfoldable pub main : (k j : ℕ) → (arguments : List Text) → Cmd World Bool
  unfolding bench
  main k j [] = quit failed
  main k j (redis_addr ∷ _) = bench k j redis_addr
