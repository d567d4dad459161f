-- ===== src/Multiclient/Reports.antt =====
-- multiclient.c, from `put_report` on, for all the clients of a benchmark, and the sum that
-- driver.py makes of their reports.
use echo_server.Prelude.{
  ℕ, ◌+◌, ◌-◌, ◌^◌, ◌<◌, ◌≡◌, List, [], ◌∷◌, ◌++◌, some, ℤ, pos, negsuc, ltb, if◌then◌else◌,
}
use echo_server.Posix.{ok}
use echo_server.Redis.{Text, reported, RedisOs}
use echo_server.Redis.Laws.{RedisLaws}
use echo_server.Dsync.{dcounter_incr}
use echo_server.Multiclient.{put_report}

-- `a + b`
abbrev pub int_add : ℤ → ℤ → ℤ
int_add (pos a) (pos b) = pos (a + b)
int_add (pos a) (negsuc b) = if ltb b a then pos (a - b - 1) else negsuc (b - a)
int_add (negsuc a) (pos b) = if ltb a b then pos (b - a - 1) else negsuc (a - b)
int_add (negsuc a) (negsuc b) = negsuc (a + b + 1)

-- `sum` of Python, from a first value
abbrev pub sum_from : ℤ → List ℤ → ℤ
sum_from a [] = a
sum_from a (x ∷ xs) = sum_from (int_add a x) xs

abbrev pub map_int : (Text → ℤ) → List Text → List ℤ
map_int int [] = []
map_int int (word ∷ words) = int word ∷ map_int int words

-- driver.py's `get_throughput` of the text in Redis; `split` and `int` are Python's.
unfoldable pub get_throughput : (split : Text → List Text) (int : Text → ℤ) → Text → ℤ
get_throughput split int reports = sum_from (pos 0) (map_int int (split reports))

-- `" %ld"` begins a new word, which reads back as the number.
pub record TextLaws (redis : RedisOs) (split : Text → List Text) (int : Text → ℤ) : Type 0 where
  pub split_nil : split [] ≡ []
  pub split_shown :
      (x : ℤ) (shown : Text)
      → redis.print_long x ≡ some shown
      → (word : Text) × (int word ≡ x) × ((t : Text) → split (t ++ shown) ≡ split t ++ word ∷ [])

-- How far a process is: its report is yet to be sent, is in the results, is counted.
pub data Stage : Type 0 where
  unsent appended counted : Stage

pub data Process : Type 0 where
  process : (throughput : ℕ) → Stage → Process

abbrev pub total : (Process → ℕ) → List Process → ℕ
total f [] = 0
total f (p ∷ ps) = f p + total f ps

-- What of a process is counted, is in the results, and does not fit a signed number.
abbrev pub counted_of : Process → ℕ
counted_of (process x counted) = 1
counted_of (process x _) = 0

abbrev pub sent_of : Process → ℕ
sent_of (process x unsent) = 0
sent_of (process x _) = x

abbrev pub throughput_of : Process → ℕ
throughput_of (process x s) = x

abbrev pub oversize_of : Process → ℕ
oversize_of (process x s) = if ltb x (2 ^ 63) then 0 else 1

-- All processes before their reports, by their throughputs.
abbrev pub starting : List ℕ → List Process
starting [] = []
starting (x ∷ xs) = process x unsent ∷ starting xs

abbrev pub sum : List ℕ → ℕ
sum [] = 0
sum (x ∷ xs) = x + sum xs

abbrev pub AllFit : List ℕ → Type 0
AllFit [] = Unit
AllFit (x ∷ xs) = (x < 2 ^ 63) × AllFit xs

module _ (redis : RedisOs) where
  open redis use {sys}
  open sys.os use {World}

  -- All the processes and the server: a process sends its report or counts itself, or something else
  -- happens that leaves the results and the count alone.
  pub data Step (laws : RedisLaws redis)
      : List Process × World → List Process × World → Type 0 where
    put :
        (before behind : List Process) (x : ℕ) (w w' : World)
        → put_report redis x w ≡ ok tt w'
        → Step laws
            (before ++ process x unsent ∷ behind, w)
            (before ++ process x appended ∷ behind, w')
    count :
        (before behind : List Process) (x : ℕ) (w w' : World)
        → dcounter_incr redis reported 1 w ≡ ok tt w'
        → Step laws
            (before ++ process x appended ∷ behind, w)
            (before ++ process x counted ∷ behind, w')
    meanwhile :
        (ps : List Process) (w w' : World)
        → laws.results_of w' ≡ laws.results_of w
        → laws.reported_of w' ≡ laws.reported_of w
        → Step laws (ps, w) (ps, w')

  pub data Reach (laws : RedisLaws redis) (start : List Process × World)
      : List Process × World → Type 0 where
    here : Reach laws start start
    next : {s t : List Process × World} → Reach laws start s → Step laws s t → Reach laws start t
