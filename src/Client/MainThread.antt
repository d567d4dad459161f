-- ===== src/Client/MainThread.antt =====
-- client.c: the calls of its main thread, in order. Bench has the steps of the threads between them.
use echo_server.Prelude.{
  ℕ, ◌%◌, ◌^◌, List, [], ◌∷◌, ℤ, pos, pos_part, int_lt, to_int32, to_size, not, if◌then◌else◌,
}
use echo_server.Posix.{ok, fault, Cmd, quit, failed, ◌>>=◌, ◌>>◌}
use echo_server.Client.{ThreadArgs, aggregate}
use echo_server.Client.Thread.{ClientOs, Semaphore, for_each_thread}

-- What the main thread calls besides: the threads that it creates run `client`, and leave their
-- measurements in `args`.
pub record MainOs : Type 1 where
  pub sys : ClientOs
  pub sem_init : Semaphore → sys.os.World → sys.os.World
  pub create_client : sys.os.World → sys.os.World
  pub sem_wait : Semaphore → sys.os.World → sys.os.World
  pub nanosleep : (seconds : ℤ) → sys.os.World → sys.os.World
  pub args : sys.os.World → List ThreadArgs
  pub set_address : List ℕ → sys.os.World → sys.os.World
  pub strtol : List ℕ → ℤ

module _ (main_os : MainOs) where
  open main_os use {sys, sem_init, create_client, sem_wait, nanosleep, args, set_address, strtol}
  open sys use {os, sem_post}
  open os use {World}

  abbrev run : (World → World) → Cmd World (Unit {0})
  run f w = ok tt (f w)

  abbrev init_semaphores : World → World
  init_semaphores w = sem_init Semaphore.reported (
      sem_init Semaphore.should_report
        (sem_init Semaphore.should_measure (sem_init Semaphore.started w)))

  -- An array of no elements, or of a negative number, is undefined.
  unfoldable pub bench : (n : ℤ) → (warmup_sec measure_sec : ℤ) → Cmd World (Unit {0})
  bench n warmup_sec measure_sec = do
    run init_semaphores
    if not (int_lt (pos 0) n) then (λ w. fault) else do
      for_each_thread (pos_part n) create_client
      for_each_thread (pos_part n) (sem_wait Semaphore.started)
      run (nanosleep warmup_sec)
      for_each_thread (pos_part n) (sem_post Semaphore.should_measure)
      run (nanosleep measure_sec)
      for_each_thread (pos_part n) (sem_post Semaphore.should_report)
      for_each_thread (pos_part n) (sem_wait Semaphore.reported)
      totals ← λ w. aggregate (args w) (record { num_ops = 0; throughput = 0 }) w
      quit (pos 0)

  -- The arguments behind the program's name. The number is converted from 64 bits to 32.
  unfoldable pub main : (arguments : List (List ℕ)) → Cmd World (Unit {0})
  unfolding bench
  main [] = quit failed
  main (_ ∷ []) = quit failed
  main (number ∷ address ∷ _) = do
    run (set_address address)
    bench (to_int32 (to_size (strtol number) % 2 ^ 32)) (pos 2) (pos 2)
