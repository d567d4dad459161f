-- ===== src/Redis.antt =====
-- What multiclient.c and dsync.c call of hiredis and of the C library around it, a parameter of the
-- model. The Redis server is shared by all the clients of a benchmark.
pub mod Laws
use echo_server.Prelude.{ℕ, List, Option, none, some, ℤ}
use echo_server.Posix.{Run, ok, exit, failed, Cmd}
use echo_server.Client.Thread.{ClientOs, Time}

-- The bytes of a text.
abbrev pub Text : Type 0
Text = List ℕ

-- The keys that the programs use.
pub data Key : Type 0 where
  numclients numthreads address port started reported should_measure should_report results : Key
  warmup_sec measure_sec : Key
  -- the name between quotation marks
  quoted : Key → Key

pub data Command : Type 0 where
  mget : List Key → Command
  get : Key → Command
  decr : Key → Command
  incrby : Key → ℕ → Command
  append : Key → Text → Command

pub data Element : Type 0 where
  text : Text → Element
  other_element : Element

-- `redisReply`, by its type
pub data Reply : Type 0 where
  integer : ℤ → Reply
  string : Text → Reply
  array : List Element → Reply
  other : Reply

-- `redis_command` gives `none` for a null pointer. `print_long` is `asprintf` with " %ld".
pub record RedisOs : Type 1 where
  pub sys : ClientOs
  pub redis_command : Command → sys.os.World → Option Reply × sys.os.World
  pub clock_getres : sys.os.World → Option Time × sys.os.World
  pub nanosleep : (nanoseconds : ℕ) → sys.os.World → sys.os.World
  pub strtol : Text → ℤ
  pub atoi : Text → ℤ
  pub print_long : ℤ → Option Text

module _ (redis : RedisOs) where
  open redis use {sys, redis_command}

  -- A command and the exit on a null pointer.
  unfoldable pub command : Command → Cmd sys.os.World Reply
  command c w = elim (redis_command c w).0 [
    | none ↦ exit failed (redis_command c w).1
    | some r ↦ ok r (redis_command c w).1
  ]
