-- ===== src/Multiclient/Throughput.antt =====
-- multiclient.c and driver.py: the sum of the reports, when every process has counted itself.
use echo_server.Prelude.{
  ℕ, suc, ◌+◌, ◌≤◌, ◌≡◌, refl, ap, ◌∙◌, List, [], ◌∷◌, ◌++◌, some, ℤ, pos, length, length-append,
  sym, arith,
}
use echo_server.Multiclient.Sent.{put_report-ok, dcounter_incr-ok}
use echo_server.Redis.{Text, RedisOs}
use echo_server.Redis.Laws.{RedisLaws}
use echo_server.Multiclient.{to_int64}
use echo_server.Multiclient.Reports.{
  int_add, sum_from, map_int, get_throughput, TextLaws, Process, process, unsent, appended, counted,
  total, counted_of, sent_of, throughput_of, oversize_of, starting, sum, AllFit, Step, put, count,
  meanwhile, Reach, here, next,
}

sum_from-append :
    (int : Text → ℤ) (a : ℤ) (words : List Text) (word : Text)
    → sum_from a (map_int int (words ++ word ∷ []))
      ≡ int_add (sum_from a (map_int int words)) (int word)
sum_from-append int a [] word = refl
sum_from-append int a (w ∷ words) word = sum_from-append int (int_add a (int w)) words word

total-append :
    (f : Process → ℕ) (before : List Process) (p : Process) (behind : List Process)
    → total f (before ++ p ∷ behind) ≡ total f before + f p + total f behind
total-append f [] p behind = omega arith
total-append f (q ∷ before) p behind = omega (arith, total-append f before p behind)

counted_le : (ps : List Process) → total counted_of ps ≤ length ps
counted_le [] = omega arith
counted_le (process x unsent ∷ ps) = omega (arith, counted_le ps)
counted_le (process x appended ∷ ps) = omega (arith, counted_le ps)
counted_le (process x counted ∷ ps) = omega (arith, counted_le ps)

total-swap :
    (f : Process → ℕ) (before : List Process) (p q : Process) (behind : List Process)
    → total f (before ++ q ∷ behind) + f p ≡ total f (before ++ p ∷ behind) + f q
total-swap f before p q behind =
    omega (arith, total-append f before p behind, total-append f before q behind)

length-swap :
    (before : List Process) (p q : Process) (behind : List Process)
    → length (before ++ q ∷ behind) ≡ length (before ++ p ∷ behind)
length-swap before p q behind =
    length-append before (q ∷ behind) ∙ sym (length-append before (p ∷ behind))

-- Where everything is counted, everything is in the results.
all_counted :
    (ps : List Process)
    → length ps ≤ total counted_of ps
    → total sent_of ps ≡ total throughput_of ps
all_counted [] h = refl
all_counted (process x unsent ∷ ps) h = absurd (omega (arith, counted_le ps))
all_counted (process x appended ∷ ps) h = absurd (omega (arith, counted_le ps))
all_counted (process x counted ∷ ps) h = ap (λ n. x + n) (all_counted ps (omega arith))

fits : (x : ℕ) → oversize_of (process x unsent) ≡ 0 → to_int64 x ≡ pos x
fits x h = ground arith

length-starting : (xs : List ℕ) → length (starting xs) ≡ length xs
length-starting [] = refl
length-starting (x ∷ xs) = ap suc (length-starting xs)

starting-throughput : (xs : List ℕ) → total throughput_of (starting xs) ≡ sum xs
starting-throughput [] = refl
starting-throughput (x ∷ xs) = ap (λ n. x + n) (starting-throughput xs)

starting-sent : (xs : List ℕ) → total sent_of (starting xs) ≡ 0
starting-sent [] = refl
starting-sent (x ∷ xs) = omega (arith, starting-sent xs)

starting-counted : (xs : List ℕ) → total counted_of (starting xs) ≡ 0
starting-counted [] = refl
starting-counted (x ∷ xs) = omega (arith, starting-counted xs)

starting-fits : (xs : List ℕ) → AllFit xs → total oversize_of (starting xs) ≡ 0
starting-fits [] h = refl
starting-fits (x ∷ xs) (h, hs) = let rest = starting-fits xs hs in ground arith

module _ {redis : RedisOs} (laws : RedisLaws redis) {split : Text → List Text} {int : Text → ℤ}
    (texts : TextLaws redis split int) where
  open redis.sys.os use {World}
  open laws use {results_of, reported_of}

  -- Of the processes `ps0` at the start, and how far they are now.
  record Accounted (ps0 : List Process) (s : List Process × World) : Type 0 where
    same_length : length s.0 ≡ length ps0
    same_throughput : total throughput_of s.0 ≡ total throughput_of ps0
    no_oversize : total oversize_of s.0 ≡ 0
    reported_counted : reported_of s.1 ≡ total counted_of s.0
    results_sent : get_throughput split int (results_of s.1) ≡ pos (total sent_of s.0)

  shown-adds :
      (x : ℕ) (shown t : Text) (n : ℕ)
      → redis.print_long (pos x) ≡ some shown
      → get_throughput split int t ≡ pos n
      → get_throughput split int (t ++ shown) ≡ pos (n + x)
  unfolding get_throughput
  shown-adds x shown t n e h =
      let (word, reads, splits) = texts.split_shown (pos x) shown e in
      rw (splits t, sum_from-append int (pos 0) (split t) word, h, reads)

  Step-Accounted :
      (ps0 : List Process) {s t : List Process × World}
      → Step redis laws s t
      → Accounted ps0 s
      → Accounted ps0 t
  Step-Accounted ps0 (put before behind x w w' h) a =
      let swap =
        λ (f : Process → ℕ). total-swap f before (process x unsent) (process x appended) behind in
      let size = total-append oversize_of before (process x unsent) behind in
      let (shown, e, at) = put_report-ok redis x w w' h in
      let e' = ap redis.print_long (sym (fits x (omega (arith, size, a.no_oversize)))) ∙ e in
      let so_far = total sent_of (before ++ process x unsent ∷ behind) in
      let added = shown-adds x shown (results_of w) so_far e' a.results_sent in
      record {
        same_length =
            length-swap before (process x unsent) (process x appended) behind ∙ a.same_length;
        same_throughput = omega (arith, swap throughput_of, a.same_throughput);
        no_oversize = omega (arith, swap oversize_of, a.no_oversize);
        reported_counted = omega (
          arith,
          ap reported_of at ∙ laws.append_keeps shown w,
          swap counted_of,
          a.reported_counted,
        );
        results_sent =
            ap (get_throughput split int) (ap results_of at ∙ laws.append_value shown w)
            ∙ added
            ∙ ap pos (omega (arith, swap sent_of));
      }
  Step-Accounted ps0 (count before behind x w w' h) a =
      let swap =
        λ (f : Process → ℕ). total-swap f before (process x appended) (process x counted) behind in
      let at = dcounter_incr-ok redis w w' h in
      record {
        same_length =
            length-swap before (process x appended) (process x counted) behind ∙ a.same_length;
        same_throughput = omega (arith, swap throughput_of, a.same_throughput);
        no_oversize = omega (arith, swap oversize_of, a.no_oversize);
        reported_counted =
            omega (
              arith,
              ap reported_of at ∙ laws.incrby_value 1 w,
              swap counted_of,
              a.reported_counted,
            );
        results_sent =
            ap (get_throughput split int) (ap results_of at ∙ laws.incrby_keeps 1 w)
            ∙ a.results_sent
            ∙ ap pos (omega (arith, swap sent_of));
      }
  Step-Accounted ps0 (meanwhile ps w w' r n) a = record {
    same_length = a.same_length;
    same_throughput = a.same_throughput;
    no_oversize = a.no_oversize;
    reported_counted = n ∙ a.reported_counted;
    results_sent = ap (get_throughput split int) r ∙ a.results_sent;
  }

  Reach-Accounted :
      (ps0 : List Process) {s0 s : List Process × World}
      → Reach redis laws s0 s
      → Accounted ps0 s0
      → Accounted ps0 s
  Reach-Accounted ps0 here a = a
  Reach-Accounted ps0 (next r step) a = Step-Accounted ps0 step (Reach-Accounted ps0 r a)

  starting-Accounted :
      (xs : List ℕ) (w : World)
      → AllFit xs
      → results_of w ≡ []
      → reported_of w ≡ 0
      → Accounted (starting xs) (starting xs, w)
  unfolding get_throughput
  starting-Accounted xs w fit r n = record {
    same_length = refl;
    same_throughput = refl;
    no_oversize = starting-fits xs fit;
    reported_counted = n ∙ sym (starting-counted xs);
    results_sent = rw (r, texts.split_nil, starting-sent xs);
  }

  -- For processes whose throughputs are below 2^63, starting from empty results and a count of
  -- zero, in every state that they reach by sending their reports and counting themselves, in
  -- any order and with other commands in between that change neither, the sum that the driver
  -- makes of the results is the sum of all throughputs once the count is the number of the
  -- processes or more.
  pub reports_sum :
      (xs : List ℕ) (w : World) (s : List Process × World)
      → AllFit xs
      → results_of w ≡ []
      → reported_of w ≡ 0
      → Reach redis laws (starting xs, w) s
      → length xs ≤ reported_of s.1
      → get_throughput split int (results_of s.1) ≡ pos (sum xs)
  reports_sum xs w s fit r n reach h =
      let a = Reach-Accounted (starting xs) reach (starting-Accounted xs w fit r n) in
      let lengths = a.same_length ∙ length-starting xs in
      let sent = all_counted s.0 (omega (arith, lengths, a.reported_counted)) in
      a.results_sent ∙ ap pos (sent ∙ a.same_throughput ∙ starting-throughput xs)
