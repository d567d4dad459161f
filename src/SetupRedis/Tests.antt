-- ===== src/SetupRedis/Tests.antt =====
-- setup-redis.c on a Redis server with the parameters of two threads. A text has one symbol for each
-- number; the world counts the looks at a flag before it is set.
use echo_server.Prelude.{
  ℕ, ◌-◌, ◌≡◌, ◌∙◌, ap, sym, get_elem?, int_lt, refl, List, [], ◌∷◌, Option, none, some, false,
  true, ℤ, pos, negsuc, ◌==◌, if◌then◌else◌, length,
}
use echo_server.Posix.{Os, exit, failed}
use echo_server.Posix.Ends.{EndsOrFails}
use echo_server.Client.Thread.{ClientOs}
use echo_server.Redis.{
  Text, Command, get, mget, incrby, Element, text, Reply, integer, string, array, other, RedisOs,
  command,
}
use echo_server.SetupRedis.{
  SetupOs, bench, load_bench_params, string_elements, params_of, run_threads, dsem_post, dsem_wait,
}
use echo_server.SetupRedis.Failing.{Configured, bench-Waiting}

abbrev quiet_os : Os
quiet_os = record {
  World = ℕ;
  socket = λ w. (pos 3, w);
  setsockopt = λ fd option w. (pos 0, w);
  bind = λ fd port w. (pos 0, w);
  listen = λ fd backlog w. (pos 0, w);
  accept = λ fd w. (negsuc 0, w);
  send = λ fd bytes w. (pos (length bytes), w);
  recv = λ fd len w. (pos 0, [], w);
  pthread_create = λ fd w. (pos 0, w);
}

abbrev quiet_sys : ClientOs
quiet_sys = record {
  os = quiet_os;
  getaddrinfo = λ w. (some (1 ∷ []), w);
  connect = λ fd address w. (pos 0, w);
  sem_post = λ s w. w;
  sem_trywait = λ s w. (pos 0, w);
  clock_gettime = λ w. (some (record { tv_sec = 1; tv_nsec = 0 }), w);
}

abbrev parameters : List Element
parameters = text (50 ∷ []) ∷ text (57 ∷ []) ∷ text (56 ∷ []) ∷ text (49 ∷ []) ∷ text (53 ∷ []) ∷ []

abbrev serve : Command → ℕ → Option Reply × ℕ
serve (mget keys) w = (some (array parameters), w)
serve (incrby key n) w = (some (integer (pos n)), w)
serve (get key) w = (some (string ((if w == 0 then 49 else 48) ∷ [])), w - 1)
serve c w = (some other, w)

abbrev number_of : Text → ℤ
number_of [] = pos 0
number_of (c ∷ t) = pos (c - 48)

abbrev quiet_redis : RedisOs
quiet_redis = record {
  sys = quiet_sys;
  redis_command = serve;
  clock_getres = λ w. (some (record { tv_sec = 0; tv_nsec = 1 }), w);
  nanosleep = λ n w. w;
  strtol = number_of;
  atoi = number_of;
  print_long = λ n. none;
}

abbrev quiet : SetupOs
quiet = record {
  process = record {
    redis = quiet_redis;
    redis_connect = λ host w. (true, w);
    sem_init = λ s w. w;
    create_client = λ w. w;
    sem_wait = λ s w. w;
    args = λ w. record { num_ops = 5; runtime = 2 } ∷ record { num_ops = 6; runtime = 3 } ∷ [];
  };
  put_report = λ num_ops runtime w. w;
}

abbrev elements_of : Option Reply → List Element
elements_of (some (array elements)) = elements
elements_of _ = []

abbrev first_of : Option Element → Text
first_of (some (text t)) = t
first_of _ = []

quiet-Configured : Configured quiet
quiet-Configured = record {
  five = λ w elements e. ap (λ r. length (elements_of r)) (sym e);
  positive = λ w elements t e f.
      let first : 50 ∷ [] ≡ t =
        ap (λ r. first_of (get_elem? (elements_of r) 0)) e ∙ ap first_of f in
      ap (λ u. int_lt (pos 0) (number_of u)) (sym first);
}

bench-Waiting_example : EndsOrFails (λ returned _. returned ≡ false) (bench quiet 3 3 (57 ∷ []) 9)
bench-Waiting_example = bench-Waiting quiet 3 3 (57 ∷ []) 9 quiet-Configured

-- When the flag is set, the process is gone.
bench_run : bench quiet 3 3 (57 ∷ []) 1 ≡ exit failed 0
unfolding bench load_bench_params string_elements params_of run_threads dsem_post dsem_wait command
bench_run = refl
