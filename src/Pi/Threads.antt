-- ===== src/Pi/Threads.antt =====
-- bench and main of go/pi.c, over what they call of the system. Each thread that is created runs
-- oneThread.
use echo_server.Prelude.{ℕ, zero, suc, ◌+◌, ◌-◌, ◌*◌, ◌/◌, ℤ, pos, negsuc, leb, if◌then◌else◌}
use echo_server.Posix.{ok, Cmd, pure, ◌>>=◌, ◌>>◌}
use echo_server.Client.Thread.{Time, for_each_thread}

-- `set_iters` and `set_start` are the writes of numIters and shouldStart, which the threads read.
pub record ThreadOs : Type 1 where
  pub World : Type 0
  pub set_iters : ℕ → World → World
  pub set_start : World → World
  pub create_thread : World → World
  pub clock_gettime : World → Time × World
  pub sem_wait : World → World

-- `-n`
abbrev negated : ℕ → ℤ
negated n = elim n [ zero ↦ pos 0 | suc k ↦ negsuc k ]

abbrev pub nanoseconds : Time → ℕ
nanoseconds t = t.tv_sec * 1000000000 + t.tv_nsec

-- The milliseconds that are printed, cut off towards zero.
unfoldable pub milliseconds : (start end : Time) → ℤ
milliseconds start end =
    if leb (nanoseconds start) (nanoseconds end)
    then pos ((nanoseconds end - nanoseconds start) / 1000000)
    else negated ((nanoseconds start - nanoseconds end) / 1000000)

module _ (os : ThreadOs) where
  open os use {World, set_iters, set_start, create_thread, clock_gettime, sem_wait}

  unfoldable pub bench : (num_threads num_ops : ℕ) → Cmd World ℤ
  unfolding milliseconds
  bench num_threads num_ops = do
    (λ w. ok tt (set_iters num_ops w))
    for_each_thread num_threads create_thread
    start ← λ w. ok (clock_gettime w).0 (clock_gettime w).1
    (λ w. ok tt (set_start w))
    for_each_thread num_threads sem_wait
    end ← λ w. ok (clock_gettime w).0 (clock_gettime w).1
    pure (milliseconds start end)

  unfoldable pub main : Cmd World ℤ
  unfolding bench
  main = bench 6 (10 * 1000 * 1000)
