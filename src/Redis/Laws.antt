-- ===== src/Redis/Laws.antt =====
-- What the benchmark relies on of Redis, as its manual documents the commands, and of the text
-- functions around it.
use echo_server.Prelude.{ℕ, zero, suc, ◌+◌, ◌≡◌, ◌++◌, some, ℤ, pos, negsuc}
use echo_server.Redis.{Text, numclients, reported, results, decr, incrby, append, integer, RedisOs}

-- `n - 1`
abbrev pub pred : ℤ → ℤ
pred (pos n) = elim n [ zero ↦ negsuc 0 | suc k ↦ pos k ]
pred (negsuc n) = negsuc (n + 1)

-- `numclients_of`, `results_of` and `reported_of` are the values of these keys.
pub record RedisLaws (redis : RedisOs) : Type 0 where
  pub numclients_of : redis.sys.os.World → ℤ
  pub results_of : redis.sys.os.World → Text
  pub reported_of : redis.sys.os.World → ℕ
  -- DECR subtracts one and replies with the new value.
  pub decr_reply :
      (w : redis.sys.os.World)
      → (redis.redis_command (decr numclients) w).0 ≡ some (integer (pred (numclients_of w)))
  pub decr_value :
      (w : redis.sys.os.World)
      → numclients_of (redis.redis_command (decr numclients) w).1 ≡ pred (numclients_of w)
  -- APPEND appends, and INCRBY adds; neither changes another key.
  pub append_value :
      (t : Text) (w : redis.sys.os.World)
      → results_of (redis.redis_command (append results t) w).1 ≡ results_of w ++ t
  pub append_keeps :
      (t : Text) (w : redis.sys.os.World)
      → reported_of (redis.redis_command (append results t) w).1 ≡ reported_of w
  pub incrby_value :
      (n : ℕ) (w : redis.sys.os.World)
      → reported_of (redis.redis_command (incrby reported n) w).1 ≡ reported_of w + n
  pub incrby_keeps :
      (n : ℕ) (w : redis.sys.os.World)
      → results_of (redis.redis_command (incrby reported n) w).1 ≡ results_of w
