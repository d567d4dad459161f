-- ===== src/Dsync.antt =====
-- dsync.c: a counter and a flag that processes on several machines share.
pub mod Wait
use echo_server.Prelude.{ℕ, zero, suc, ◌*◌, Bool, true, false, ℤ, pos, int_lt, if◌then◌else◌}
use echo_server.Posix.{Run, ok, Cmd, pure, quit, failed, ◌>>=◌, ◌>>◌}
use echo_server.Redis.{Key, get, incrby, Reply, string, RedisOs, command}

module _ (redis : RedisOs) where
  open redis use {sys, nanosleep, strtol}

  unfoldable pub dcounter_incr : Key → (n : ℕ) → Cmd sys.os.World (Unit {0})
  unfolding command
  dcounter_incr a n = do reply ← command redis (incrby a n); pure tt

  -- At most `k` rounds of the loop: whether the flag was seen.
  unfoldable pub dflag_wait : (k : ℕ) → Key → Cmd sys.os.World Bool
  unfolding command
  dflag_wait zero a = pure false
  dflag_wait (suc k) a = do
    reply ← command redis (get a)
    elim reply [
      | string s ↦
          let rest = λ (w : sys.os.World). dflag_wait k a (nanosleep 100000000 w) in
          if int_lt (pos 0) (strtol s) then pure true else rest
      | _ ↦ quit failed
    ]
