-- ===== src/Sharded/Armed.antt =====
-- The invariant of io_uring_sharded.c on the operations of the ring.
use echo_server.Prelude.{
  ℕ, ◌+◌, ◌-◌, ◌≤◌, ◌<◌, ◌≡◌, ◌≢◌, refl, ap, sym, ◌∙◌, Bool, List, [], ◌∷◌, ◌++◌, none, some, inl,
  inr, length, get_elem?, set, get_elem?-set_self, get_elem?-lt, ◌⊎◌, get_elem?-set_ne,
  get_elem?-append_inv, get_elem?-append_last, arith,
}
use native.Mathlib.Decide.{ℕ_discrete}
use echo_server.Posix.{Fd}
use echo_server.Sharded.{accepted, Threadlet}
use echo_server.Sharded.Liburing.{Op, Sqe, sqe}
use echo_server.Sharded.Pending.{
  count, is_accept, accepts, count-append, accepts-append, Awaits, IsSend, Owned, AllOwned,
  AllOwned-append, AllOwned-left, AllOwned-right, count_fresh, AllOwned-set, AllOwned-extend,
}

-- Every buffer is one that was allocated, and belongs to one threadlet.
pub record Bufs (ts : List Threadlet) (bufs : ℕ) : Type 0 where
  pub allocated : (t b : ℕ) (r : Threadlet) → get_elem? ts t ≡ some r → r.buf ≡ some b → b < bufs
  pub apart :
      (t u b : ℕ) (r q : Threadlet)
      → get_elem? ts t ≡ some r
      → get_elem? ts u ≡ some q
      → r.buf ≡ some b
      → q.buf ≡ some b
      → t ≡ u

-- A new threadlet has no buffer.
Bufs-extend :
    (ts : List Threadlet) (bufs : ℕ) (x : Threadlet)
    → x.buf ≡ none
    → Bufs ts bufs
    → Bufs (ts ++ x ∷ []) bufs
Bufs-extend ts bufs x new h = record {
  allocated = λ t b r e f. elim (get_elem?-append_inv ts x r t e) [
    | inl old ↦ h.allocated t b r old f
    | inr last ↦ cc (ap (λ (y : Threadlet). y.buf) last.1)
  ];
  apart = λ t u b r q e e' f f'. elim (get_elem?-append_inv ts x r t e) [
    | inl old ↦ elim (get_elem?-append_inv ts x q u e') [
      | inl old' ↦ h.apart t u b r q old old' f f'
      | inr last ↦ cc (ap (λ (y : Threadlet). y.buf) last.1)
    ]
    | inr last ↦ cc (ap (λ (y : Threadlet). y.buf) last.1)
  ];
}

module _ (ts : List Threadlet) (bufs t : ℕ) (r r' : Threadlet) (e : get_elem? ts t ≡ some r)
    (h : Bufs ts bufs) where
  read_set :
      (u : ℕ) (q : Threadlet)
      → get_elem? (set ts t r') u ≡ some q
      → ((t ≡ u) × (q ≡ r')) ⊎ ((t ≢ u) × (get_elem? ts u ≡ some q))
  read_set u q f = elim (ℕ_discrete t u) [
    | yes same ↦ inl (same, cc (get_elem?-set_self ts t r' (get_elem?-lt ts t e)))
    | no other ↦ inr (other, sym (get_elem?-set_ne ts r' other) ∙ f)
  ]

  -- Another state of a threadlet, with the same buffer.
  pub Bufs-keep : r'.buf ≡ r.buf → Bufs (set ts t r') bufs
  Bufs-keep same = record {
    allocated = λ u b q f g. let (q', f', g') = before u q f in h.allocated u b q' f' (sym g' ∙ g);
    apart = λ u v b q p f f' g g'.
        let (q', old, oldb) = before u q f in
        let (p', old', oldb') = before v p f' in
        h.apart u v b q' p' old old' (sym oldb ∙ g) (sym oldb' ∙ g');
  }
    where
      before :
          (u : ℕ) (q : Threadlet)
          → get_elem? (set ts t r') u ≡ some q
          → (q' : Threadlet) × (get_elem? ts u ≡ some q') × (q.buf ≡ q'.buf)
      before u q f = elim (read_set u q f) [
        | inl new ↦ (r, rw (← new.0) e, ap (λ (y : Threadlet). y.buf) new.1 ∙ same)
        | inr old ↦ (q, old.1, refl)
      ]

  -- A buffer that was just allocated.
  pub Bufs-fresh : r'.buf ≡ some bufs → Bufs (set ts t r') (bufs + 1)
  Bufs-fresh new = record {
    allocated = λ u b q f g. elim (read_set u q f) [
      | inl mine ↦ ground (arith, number u b q mine.1 g)
      | inr old ↦ ground (arith, h.allocated u b q old.1 g)
    ];
    apart = λ u v b q p f f' g g'. elim (read_set u q f) [
      | inl mine ↦ elim (read_set v p f') [
        | inl mine' ↦ sym mine.0 ∙ mine'.0
        | inr old' ↦ absurd (omega (arith, number u b q mine.1 g, h.allocated v b p old'.1 g'))
      ]
      | inr old ↦ elim (read_set v p f') [
        | inl mine' ↦ absurd (omega (arith, number v b p mine'.1 g', h.allocated u b q old.1 g))
        | inr old' ↦ h.apart u v b q p old.1 old'.1 g g'
      ]
    ];
  }
    where
      number : (u b : ℕ) (q : Threadlet) → q ≡ r' → q.buf ≡ some b → b ≡ bufs
      number u b q same g = cc (ap (λ (y : Threadlet). y.buf) same)

module _ (listen_fd : Fd) (msg_size : ℕ) where
  send-plain : (op : Op) → IsSend listen_fd msg_size op → is_accept op ≡ 0
  send-plain (Op.accept _) s = absurd s
  send-plain (Op.send _ _ _) s = refl
  send-plain (Op.recv _ _ _) s = refl

  -- Of the operations `es` that are not complete, `n` are `accept`; each threadlet waits for one at
  -- most, and for the one that its state says.
  pub record Armed (n : ℕ) (ts : List Threadlet) (bufs : ℕ) (es : List Sqe) : Type 0 where
    pub accepting : accepts es ≡ n
    pub once : (t : ℕ) → count t es ≤ 1
    pub owned : AllOwned listen_fd msg_size ts es
    pub buffers : Bufs ts bufs

  module _ {n : ℕ} {ts : List Threadlet} {bufs : ℕ} {es : List Sqe} (a : Armed n ts bufs es) where
    -- A reply is queued.
    pub Armed-send :
        (op : Op) (link : Bool)
        → IsSend listen_fd msg_size op
        → Armed n ts bufs (es ++ record { op = op; user_data = none; link = link } ∷ [])
    Armed-send op link s = record {
      accepting = omega (arith, a.accepting, accepts-append es (reply ∷ []), send-plain op s);
      once = λ t. omega (arith, a.once t, count-append t es (reply ∷ []));
      owned = AllOwned-append listen_fd msg_size ts es _ a.owned (s, tt);
      buffers = a.buffers;
    }
      where
        reply : Sqe
        reply = record { op = op; user_data = none; link = link }

    -- `accept` is queued, with a threadlet of its own.
    pub Armed-accept :
        Armed
          (n + 1)
          (ts ++ record { pc = accepted; fd = listen_fd; buf = none } ∷ [])
          bufs
          (es ++ sqe (Op.accept listen_fd) (some (length ts)) ∷ [])
    Armed-accept = record {
      accepting = omega (
        arith,
        a.accepting,
        accepts-append es (sqe (Op.accept listen_fd) (some (length ts)) ∷ []),
      );
      once = λ t. ground (
        arith,
        a.once t,
        count-append t es (sqe (Op.accept listen_fd) (some (length ts)) ∷ []),
        count_fresh listen_fd msg_size ts es t a.owned,
      );
      owned =
          AllOwned-append listen_fd msg_size _ es _
            (AllOwned-extend listen_fd msg_size ts es _ a.owned)
            ((_, get_elem?-append_last ts _, (refl, refl)), tt);
      buffers = Bufs-extend ts bufs _ refl a.buffers;
    }

    -- An idle threadlet is set to wait for `op`.
    pub Armed-arm :
        (op : Op) (t : ℕ) (r r' : Threadlet) {bufs' : ℕ}
        → count t es ≡ 0
        → get_elem? ts t ≡ some r
        → Awaits listen_fd msg_size r' op
        → is_accept op ≡ 0
        → Bufs (set ts t r') bufs'
        → Armed n (set ts t r') bufs' (es ++ sqe op (some t) ∷ [])
    Armed-arm op t r r' idle e w plain buffers = record {
      accepting = omega (arith, a.accepting, accepts-append es (sqe op (some t) ∷ []));
      once = λ u. ground (
        arith,
        a.once u,
        count-append u es (sqe op (some t) ∷ []),
        ap (λ v. count v es) {x = t} {y = u},
      );
      owned =
          AllOwned-append listen_fd msg_size _ es _
            (AllOwned-set listen_fd msg_size ts es t r' a.owned idle)
            ((r', get_elem?-set_self ts t r' (get_elem?-lt ts t e), w), tt);
      buffers = buffers;
    }

-- An operation completes: what is left, and what was known of it.
pub record Taken (listen_fd : Fd) (msg_size n : ℕ) (ts : List Threadlet) (bufs : ℕ) (e : Sqe)
    (es : List Sqe) : Type 0 where
  pub rest : Armed listen_fd msg_size (n - is_accept e.op) ts bufs es
  pub idle : (t : ℕ) → e.user_data ≡ some t → count t es ≡ 0
  pub owned : Owned listen_fd msg_size ts e.op e.user_data
  pub among : is_accept e.op ≤ n

pub Armed-take :
    (listen_fd : Fd) (msg_size n : ℕ) (ts : List Threadlet) (bufs : ℕ) (e : Sqe) (xs ys : List Sqe)
    → Armed listen_fd msg_size n ts bufs (xs ++ e ∷ ys)
    → Taken listen_fd msg_size n ts bufs e (xs ++ ys)
Armed-take l m n ts bufs e xs ys a = record {
  rest = record {
    accepting = omega (arith, a.accepting, accepts-append xs ys, accepts-append xs (e ∷ ys));
    once = λ t. omega (arith, a.once t, count-append t xs ys, count-append t xs (e ∷ ys));
    owned =
        AllOwned-append l m ts xs ys (AllOwned-left l m ts xs (e ∷ ys) a.owned)
          (AllOwned-right l m ts xs (e ∷ ys) a.owned).1;
    buffers = a.buffers;
  };
  idle = λ t u. ground (arith, a.once t, count-append t xs ys, count-append t xs (e ∷ ys));
  owned = (AllOwned-right l m ts xs (e ∷ ys) a.owned).0;
  among = omega (arith, a.accepting, accepts-append xs (e ∷ ys));
}
