-- ===== src/SetupRedis/Failing.antt =====
-- The two waits of setup-redis.c, and bench around them.
use echo_server.Prelude.{
  ℕ, zero, suc, ◌+◌, ◌≤◌, ◌<◌, ◌≡◌, ◌≢◌, if◌then◌else◌, pos_part, refl, ap, ◌∙◌, List, [], ◌∷◌,
  length, Bool-cases, inl, inr, Bool, true, false, Option-cases, some, none, pos, int_lt, leb, not,
  get_elem?, to_size, arith,
}
use echo_server.Posix.{Cmd, quit, failed, ◌>>=◌}
use echo_server.Posix.Ends.{EndsOrFails, done, stops, bind_or_fail, weaken_or_fail}
use echo_server.Redis.{
  Text, Key, numthreads, address, port, warmup_sec, measure_sec, Command, mget, get, Element, text,
  other_element, Reply, string, array, command,
}
use echo_server.Client.Thread.{for_each_thread}
use echo_server.SetupRedis.{
  SetupOs, BenchParams, string_elements, params_of, load_bench_params, dsem_post, dsem_wait,
  run_threads, bench,
}

-- The number of elements of a list, and its first text.
abbrev pub FirstText : List Element → Text → Type 0
FirstText elements t = get_elem? elements 0 ≡ some (text t)

-- MGET replies with an element for each key, and the number of threads that is kept is positive.
pub record Configured (setup : SetupOs) : Type 0 where
  pub five :
      (w : setup.process.redis.sys.os.World) (elements : List Element)
      → (setup.process.redis.redis_command
          (mget (numthreads ∷ address ∷ port ∷ warmup_sec ∷ measure_sec ∷ []))
          w).0
        ≡ some (array elements)
      → length elements ≡ 5
  pub positive :
      (w : setup.process.redis.sys.os.World) (elements : List Element) (t : Text)
      → (setup.process.redis.redis_command
          (mget (numthreads ∷ address ∷ port ∷ warmup_sec ∷ measure_sec ∷ []))
          w).0
        ≡ some (array elements)
      → FirstText elements t
      → int_lt (pos 0) (setup.process.redis.atoi t) ≡ true

get_elem?-inside : {A : Type 0} (xs : List A) (i : ℕ) → i < length xs → get_elem? xs i ≢ none
get_elem?-inside [] i h e = absurd (omega arith)
get_elem?-inside (x ∷ xs) zero h e = cc
get_elem?-inside (x ∷ xs) (suc i) h e = get_elem?-inside xs i (omega arith) e

-- The texts of the elements from `i` on.
abbrev TextsOf : List Element → (i : ℕ) → List Text → Type 0
TextsOf elements i [] = Unit
TextsOf elements i (t ∷ ts) = (get_elem? elements i ≡ some (text t)) × TextsOf elements (i + 1) ts

module _ (setup : SetupOs) where
  abbrev World : Type 0
  World = setup.process.redis.sys.os.World

  -- The reply is the one of the server.
  command-EndsOrFails :
      (c : Command) (w : World)
      → EndsOrFails
          (λ reply _. (setup.process.redis.redis_command c w).0 ≡ some reply)
          (command setup.process.redis c w)
  unfolding command
  command-EndsOrFails c w = elim (Option-cases (setup.process.redis.redis_command c w).0) [
    | inl null ↦ rw (command, null) (stops refl)
    | inr there ↦ rw (command, there.1) (done refl)
  ]

  string_elements-EndsOrFails :
      (left i : ℕ) (elements : List Element) (w : World)
      → i + left ≤ length elements
      → EndsOrFails
          (λ texts _. (length texts ≡ left) × TextsOf elements i texts)
          (string_elements setup left i elements w)
  unfolding string_elements
  string_elements-EndsOrFails zero i elements w h = done (refl, tt)
  string_elements-EndsOrFails (suc left) i elements w h =
      elim (Option-cases (get_elem? elements i)) [
        | inl outside ↦ absurd (get_elem?-inside elements i (omega arith) outside)
        | inr (other_element, at) ↦ rw (string_elements, at) (stops refl)
        | inr (text t, at) ↦
            rw (string_elements, at)
              (bind_or_fail _ (string_elements-EndsOrFails left (i + 1) elements w (omega arith))
                λ rest w' e. done (ap suc e.0, (at, e.1)))
      ]

  params_of-EndsOrFails :
      (texts : List Text) (w : World) (elements : List Element)
      → length texts ≡ 5
      → TextsOf elements 0 texts
      → EndsOrFails
          (λ params _.
            (t : Text) × FirstText elements t × (params.threads ≡ setup.process.redis.atoi t))
          (params_of setup texts w)
  unfolding params_of
  params_of-EndsOrFails (t ∷ _ ∷ _ ∷ _ ∷ _ ∷ _) w elements five h = done (t, h.0, refl)
  params_of-EndsOrFails (_ ∷ _ ∷ _ ∷ _ ∷ []) w elements five h = absurd (omega arith)
  params_of-EndsOrFails (_ ∷ _ ∷ _ ∷ []) w elements five h = absurd (omega arith)
  params_of-EndsOrFails (_ ∷ _ ∷ []) w elements five h = absurd (omega arith)
  params_of-EndsOrFails (_ ∷ []) w elements five h = absurd (omega arith)
  params_of-EndsOrFails [] w elements five h = absurd (omega arith)

  module _ (configured : Configured setup) where
    load_bench_params-EndsOrFails :
        (w : World)
        → EndsOrFails (λ params _. int_lt (pos 0) params.threads ≡ true) (load_bench_params setup w)
    unfolding load_bench_params
    load_bench_params-EndsOrFails w =
        bind_or_fail _ (command-EndsOrFails _ w) λ reply v e. of_reply reply v e
      where
        of_reply :
            (reply : Reply) (v : World)
            → (setup.process.redis.redis_command
                (mget (numthreads ∷ address ∷ port ∷ warmup_sec ∷ measure_sec ∷ []))
                w).0
              ≡ some reply
            → EndsOrFails
                (λ params _. int_lt (pos 0) params.threads ≡ true)
                ((elim reply as (λ r. Cmd World BenchParams) [
                  | array elements ↦
                      string_elements setup 5 0 elements >>= λ texts. params_of setup texts
                  | _ ↦ quit failed
                ])
                  v)
        of_reply (array elements) v e =
            bind_or_fail _
              (string_elements-EndsOrFails 5 0 elements v
                (omega (arith, configured.five w elements e)))
              λ texts u h.
                weaken_or_fail (params_of-EndsOrFails texts u elements h.0 h.1)
                  λ params u' p. ap (int_lt (pos 0)) p.2 ∙ configured.positive w elements p.0 e p.1
        of_reply _ v e = stops refl

  dsem_post-EndsOrFails :
      (a : Key) (n : ℕ) (w : World) → EndsOrFails (λ _ _. Unit {0}) (dsem_post setup a n w)
  unfolding dsem_post
  dsem_post-EndsOrFails a n w = bind_or_fail _ (command-EndsOrFails _ w) λ reply w' _. done tt

  abbrev Waiting : Bool → World → Type 0
  Waiting returned w = returned ≡ false

  -- A reply, where the loop goes on with `rest`
  of_flag :
      (n : ℕ) (rest : Cmd World Bool) (reply : Reply) (w : World)
      → EndsOrFails Waiting (rest w)
      → EndsOrFails Waiting (
          (elim reply as (λ r. Cmd World Bool) [
            | string s ↦
                if leb n (to_size (setup.process.redis.strtol s)) then quit failed else rest
            | _ ↦ quit failed
          ])
            w)
  of_flag n rest (string s) w go =
      elim (Bool-cases (leb n (to_size (setup.process.redis.strtol s)))) [
        | inl high ↦ rw high (stops refl)
        | inr low ↦ rw low go
      ]
  of_flag n rest _ w go = stops refl

  -- The wait is never over: the process is in its loop, or gone.
  dsem_wait-Waiting :
      (k : ℕ) (a : Key) (n : ℕ) (w : World) → EndsOrFails Waiting (dsem_wait setup k a n w)
  unfolding dsem_wait
  dsem_wait-Waiting zero a n w = done refl
  dsem_wait-Waiting (suc k) a n w =
      bind_or_fail _ (command-EndsOrFails (get a) w)
        λ reply v _. of_flag n (dsem_wait setup k a n) reply v (dsem_wait-Waiting k a n v)

  for_each_thread-EndsOrFails :
      (n : ℕ) (f : World → World) (w : World)
      → EndsOrFails (λ _ _. Unit {0}) (for_each_thread n f w)
  for_each_thread-EndsOrFails zero f w = done tt
  for_each_thread-EndsOrFails (suc n) f w = for_each_thread-EndsOrFails n f (f w)

  run_threads-Waiting : (k j n : ℕ) (w : World) → EndsOrFails Waiting (run_threads setup k j n w)
  unfolding run_threads
  run_threads-Waiting k j n w = bind_or_fail _ (for_each_thread-EndsOrFails n _ w) λ _ w1 _.
      bind_or_fail _ (for_each_thread-EndsOrFails n _ w1) λ _ w2 _.
        bind_or_fail _ (dsem_post-EndsOrFails _ 1 w2) λ _ w3 _.
          bind_or_fail _ (dsem_wait-Waiting k _ 1 w3) λ told w4 never. rw never (done refl)

  -- Where Redis replies to MGET with an element for each key and has a positive number of
  -- threads, bench of setup-redis.c exits with status -1, or is still waiting for a flag after
  -- the rounds that its two waits are given, for every number of rounds: it never exits with
  -- status 0, and it is never undefined.
  pub bench-Waiting :
      (k j : ℕ) (redis_addr : Text) (w : World)
      → Configured setup
      → EndsOrFails (λ returned _. returned ≡ false) (bench setup k j redis_addr w)
  unfolding bench
  bench-Waiting k j redis_addr w configured =
      let at = setup.process.redis_connect redis_addr w in
      elim (Bool-cases (not at.0)) [
        | inl unconnected ↦ rw unconnected (stops refl)
        | inr connected ↦ rw connected (
            bind_or_fail _ (load_bench_params-EndsOrFails configured at.1)
              λ params w1 several. rw several (run_threads-Waiting k j (pos_part params.threads) _))
      ]
