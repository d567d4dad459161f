-- ===== src/Multiclient/Tests.antt =====
-- multiclient.c and dsync.c at concrete inputs: a Redis server with three keys, whose texts have one
-- symbol for each number.
use echo_server.Prelude.{
  ℕ, ◌+◌, ◌-◌, ◌≤◌, ◌⊎◌, ◌≡◌, refl, sym, ap, min, List, [], ◌∷◌, ◌++◌, Option, some, none, true, ℤ,
  pos, negsuc, pos_part, ◌==◌, if◌then◌else◌, Bool-cases, inl, inr, arith, length,
}
use echo_server.Posix.{Os, ok}
use echo_server.Client.Thread.{ClientOs}
use echo_server.Redis.{
  Text, numclients, reported, results, should_measure, Command, get, decr, incrby, append, Reply,
  integer, string, other, RedisOs, command,
}
use echo_server.Redis.Laws.{RedisLaws, pred}
use echo_server.Dsync.{dcounter_incr, dflag_wait}
use echo_server.Dsync.Wait.{dflag_wait-ends, rounds}
use echo_server.Multiclient.{put_report}
use echo_server.Multiclient.Claims.{claim_all, claim_all-min}
use echo_server.Multiclient.Reports.{
  get_throughput, TextLaws, process, unsent, appended, counted, starting, sum, put, count, Reach,
  here, next,
}
use echo_server.Multiclient.Throughput.{reports_sum}

-- `polls` counts down to the moment at which the flags are set.
record Server : Type 0 where
  spots : ℤ
  finished : ℕ
  written : Text
  polls : ℕ

abbrev server_os : Os
server_os = record {
  World = Server;
  socket = λ w. (pos 3, w);
  setsockopt = λ fd option w. (pos 0, w);
  bind = λ fd port w. (pos 0, w);
  listen = λ fd backlog w. (pos 0, w);
  accept = λ fd w. (negsuc 0, w);
  send = λ fd bytes w. (pos (length bytes), w);
  recv = λ fd len w. (pos 0, [], w);
  pthread_create = λ fd w. (pos 0, w);
}

abbrev server_sys : ClientOs
server_sys = record {
  os = server_os;
  getaddrinfo = λ w. (some (1 ∷ []), w);
  connect = λ fd address w. (pos 0, w);
  sem_post = λ s w. w;
  sem_trywait = λ s w. (pos 0, w);
  clock_gettime = λ w. (some (record { tv_sec = 1; tv_nsec = 0 }), w);
}

abbrev digit : ℕ → ℕ
digit n = n + 48

abbrev serve : Command → Server → Option Reply × Server
serve (decr numclients) w = (some (integer (pred w.spots)), record w { spots = pred w.spots })
serve (append results t) w = (some (integer (pos 0)), record w { written = w.written ++ t })
serve (incrby reported n) w =
    (some (integer (pos (w.finished + n))), record w { finished = w.finished + n })
serve (get k) w = (
  some (string ((if w.polls == 0 then digit 1 else digit 0) ∷ [])),
  record w { polls = w.polls - 1 },
)
serve c w = (some other, w)

abbrev number_of : Text → ℤ
number_of [] = pos 0
number_of (c ∷ t) = pos (c - 48)

abbrev shown_as : ℤ → Option Text
shown_as (pos n) = some (32 ∷ digit n ∷ [])
shown_as (negsuc n) = none

abbrev server_redis : RedisOs
server_redis = record {
  sys = server_sys;
  redis_command = serve;
  clock_getres = λ w. (some (record { tv_sec = 0; tv_nsec = 1 }), w);
  nanosleep = λ n w. w;
  strtol = number_of;
  atoi = number_of;
  print_long = shown_as;
}

unfoldable server_laws : RedisLaws server_redis
server_laws = record {
  numclients_of = λ w. w.spots;
  results_of = λ w. w.written;
  reported_of = λ w. w.finished;
  decr_reply = λ w. refl;
  decr_value = λ w. refl;
  append_value = λ t w. refl;
  append_keeps = λ t w. refl;
  incrby_value = λ n w. refl;
  incrby_keeps = λ n w. refl;
}

-- Every symbol but the space is a word.
abbrev words : Text → List Text
words [] = []
words (c ∷ t) = if c == 32 then words t else (c ∷ []) ∷ words t

words-append : (n : ℕ) (t : Text) → words (t ++ 32 ∷ digit n ∷ []) ≡ words t ++ (digit n ∷ []) ∷ []
words-append n [] = elim (Bool-cases (digit n == 32)) [
  | inl e ↦ absurd (ground arith)
  | inr e ↦ rw e
]
words-append n (c ∷ t) = elim (Bool-cases (c == 32)) [
  | inl e ↦ rw e (words-append n t)
  | inr e ↦ rw e (ap (λ l. (c ∷ []) ∷ l) (words-append n t))
]

abbrev before_claims : Server
before_claims = record { spots = pos 2; finished = 0; written = []; polls = 2 }

claim_all-min_example : claim_all server_redis 3 (λ i w. w) before_claims ≡ min 3 (pos_part (pos 2))
unfolding server_laws
claim_all-min_example = claim_all-min server_laws 3 (λ i w. w) before_claims (λ i v. refl)

n_le_two : (n : ℕ) → n ≤ 2 → (n ≡ 0) ⊎ ((n ≡ 1) ⊎ (n ≡ 2))
n_le_two n h = omega arith

-- The flag is set at the third look.
dflag_wait-ends_example :
    dflag_wait server_redis 5 should_measure before_claims
    ≡ ok true (serve (get should_measure) (rounds server_redis 2 should_measure before_claims)).1
dflag_wait-ends_example =
    dflag_wait-ends server_redis 2 5 should_measure
      (λ n. (if n == 2 then digit 1 else digit 0) ∷ []) before_claims (omega arith)
      (λ n h. elim (n_le_two n h) [ inl e ↦ rw e | inr e ↦ elim e [ inl e ↦ rw e | inr e ↦ rw e ] ])
      (λ n h. elim (n_le_two n (omega arith)) [
        | inl e ↦ rw e
        | inr e ↦ elim e [ inl e ↦ rw e | inr e ↦ absurd (omega arith) ]
      ])
      refl

shown_as-word :
    (x : ℤ) (shown : Text)
    → shown_as x ≡ some shown
    → (word : Text) × (number_of word ≡ x)
      × ((t : Text) → words (t ++ shown) ≡ words t ++ word ∷ [])
shown_as-word (pos n) shown e =
    let same : 32 ∷ digit n ∷ [] ≡ shown = cc in
    (digit n ∷ [], ap pos (omega arith), λ t. rw (sym same) (words-append n t))
shown_as-word (negsuc n) shown e = cc

server_texts : TextLaws server_redis words number_of
server_texts = record { split_nil = refl; split_shown = shown_as-word }

-- The server with a count and a text.
abbrev server_with : ℕ → Text → Server
server_with n t = record { spots = pos 2; finished = n; written = t; polls = 2 }

-- The second process is the first to report.
two_reports :
    Reach server_redis server_laws
      (starting (3 ∷ 5 ∷ []), before_claims)
      (process 3 counted ∷ process 5 counted ∷ [], server_with 2 (32 ∷ 53 ∷ 32 ∷ 51 ∷ []))
unfolding put_report dcounter_incr command
two_reports =
    next
      (next
        (next
          (next here
            (put (process 3 unsent ∷ []) [] 5 before_claims (server_with 0 (32 ∷ 53 ∷ [])) refl))
          (put [] (process 5 appended ∷ []) 3 (server_with 0 (32 ∷ 53 ∷ []))
            (server_with 0 (32 ∷ 53 ∷ 32 ∷ 51 ∷ [])) refl))
        (count (process 3 appended ∷ []) [] 5 (server_with 0 (32 ∷ 53 ∷ 32 ∷ 51 ∷ []))
          (server_with 1 (32 ∷ 53 ∷ 32 ∷ 51 ∷ [])) refl))
      (count [] (process 5 counted ∷ []) 3 (server_with 1 (32 ∷ 53 ∷ 32 ∷ 51 ∷ []))
        (server_with 2 (32 ∷ 53 ∷ 32 ∷ 51 ∷ [])) refl)

reports_sum_example :
    get_throughput words number_of (32 ∷ 53 ∷ 32 ∷ 51 ∷ []) ≡ pos (sum (3 ∷ 5 ∷ []))
unfolding server_laws
reports_sum_example =
    reports_sum server_laws server_texts (3 ∷ 5 ∷ []) before_claims
      (process 3 counted ∷ process 5 counted ∷ [], server_with 2 (32 ∷ 53 ∷ 32 ∷ 51 ∷ []))
      (omega arith, (omega arith, tt)) refl refl two_reports (omega arith)
