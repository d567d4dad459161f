-- ===== src/Dsync/Wait.antt =====
-- dsync.c, `dflag_wait`: the loop ends once the flag is set.
use echo_server.Prelude.{ℕ, zero, suc, ◌≤◌, ◌<◌, ◌≡◌, true, false, some, pos, int_lt, arith}
use echo_server.Posix.{ok}
use echo_server.Redis.{Text, Key, get, string, RedisOs, command}
use echo_server.Dsync.{dflag_wait}

module _ (redis : RedisOs) where
  open redis use {sys, redis_command, nanosleep, strtol}
  open sys.os use {World}

  -- The world after `i` more rounds that see no flag.
  abbrev pub rounds : (i : ℕ) → Key → World → World
  rounds zero a w = w
  rounds (suc i) a w = rounds i a (nanosleep 100000000 (redis_command (get a) w).1)

  -- Where the server replies with a text in each round, dflag_wait ends in the first round
  -- whose text reads as a positive number, for every number of rounds above it, in the world
  -- behind that round.
  pub dflag_wait-ends :
      (i k : ℕ) (a : Key) (values : ℕ → Text) (w : World)
      → i < k
      → ((n : ℕ) → n ≤ i → (redis_command (get a) (rounds n a w)).0 ≡ some (string (values n)))
      → ((n : ℕ) → n < i → int_lt (pos 0) (strtol (values n)) ≡ false)
      → int_lt (pos 0) (strtol (values i)) ≡ true
      → dflag_wait redis k a w ≡ ok true (redis_command (get a) (rounds i a w)).1
  unfolding dflag_wait command
  dflag_wait-ends i zero a values w lt replies unset set = absurd (omega arith)
  dflag_wait-ends zero (suc k) a values w lt replies unset set =
      rw (dflag_wait, command, replies 0 (omega arith), set)
  dflag_wait-ends (suc i) (suc k) a values w lt replies unset set =
      rw (dflag_wait, command, replies 0 (omega arith), unset 0 (omega arith))
        (dflag_wait-ends i k a (λ n. values (suc n))
          (nanosleep 100000000 (redis_command (get a) w).1) (omega arith)
          (λ n h. replies (suc n) (omega arith)) (λ n h. unset (suc n) (omega arith)) set)
