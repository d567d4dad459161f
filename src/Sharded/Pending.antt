-- ===== src/Sharded/Pending.antt =====
-- The operations that the ring of io_uring_sharded.c has not completed, and what they say about the
-- threadlets that wait for them.

use echo_server.Prelude.{
  ℕ, ◌+◌, ◌≤◌, ◌≡◌, ◌≢◌, refl, ◌∙◌, List, [], ◌∷◌, ◌++◌, Option, none, some, length, get_elem?,
  get_elem?-lt, get_elem?-set_ne, get_elem?-append_some, set, if◌then◌else◌, ◌==◌, arith,
}
use echo_server.Posix.{Fd}
use echo_server.Sharded.{accepted, received_header, received_msg, Threadlet}
use echo_server.Sharded.Liburing.{Mem, Op, Sqe}

-- How many of the operations name threadlet `t`.
abbrev pub names : ℕ → Option ℕ → ℕ
names t none = 0
names t (some u) = if u == t then 1 else 0

abbrev pub count : ℕ → List Sqe → ℕ
count t [] = 0
count t (e ∷ es) = names t e.user_data + count t es

abbrev pub is_accept : Op → ℕ
is_accept (Op.accept _) = 1
is_accept _ = 0

-- How many of them are `accept`.
abbrev pub accepts : List Sqe → ℕ
accepts [] = 0
accepts (e ∷ es) = is_accept e.op + accepts es

pub count-append : (t : ℕ) (xs ys : List Sqe) → count t (xs ++ ys) ≡ count t xs + count t ys
count-append t [] ys = omega arith
count-append t (x ∷ xs) ys = omega (arith, count-append t xs ys)

pub accepts-append : (xs ys : List Sqe) → accepts (xs ++ ys) ≡ accepts xs + accepts ys
accepts-append [] ys = omega arith
accepts-append (x ∷ xs) ys = omega (arith, accepts-append xs ys)

module _ (listen_fd : Fd) (msg_size : ℕ) where
  -- The operation that a threadlet in this state waits for.
  abbrev pub Awaits : Threadlet → Op → Type 0
  Awaits r (Op.accept fd) = (r.pc ≡ accepted) × (fd ≡ listen_fd)
  Awaits r (Op.send _ _ _) = ⊥
  Awaits r (Op.recv fd Mem.msg_size_conv len) = ⊥
  Awaits r (Op.recv fd Mem.header_buf len) = (r.pc ≡ received_header) × (fd ≡ r.fd) × (len ≡ 2)
  Awaits r (Op.recv fd (Mem.heap b) len) =
      (r.pc ≡ received_msg) × (fd ≡ r.fd) × (r.buf ≡ some b) × (len ≡ msg_size)

  abbrev pub IsSend : Op → Type 0
  IsSend (Op.send _ _ _) = Unit
  IsSend _ = ⊥

  -- An operation without a threadlet is a reply that nobody waits for.
  abbrev pub Owned : List Threadlet → Op → Option ℕ → Type 0
  Owned ts op none = IsSend op
  Owned ts op (some t) = (r : Threadlet) × (get_elem? ts t ≡ some r) × Awaits r op

  abbrev pub AllOwned : List Threadlet → List Sqe → Type 0
  AllOwned ts [] = Unit
  AllOwned ts (e ∷ es) = Owned ts e.op e.user_data × AllOwned ts es

  pub AllOwned-append :
      (ts : List Threadlet) (xs ys : List Sqe)
      → AllOwned ts xs
      → AllOwned ts ys
      → AllOwned ts (xs ++ ys)
  AllOwned-append ts [] ys a b = b
  AllOwned-append ts (x ∷ xs) ys a b = (a.0, AllOwned-append ts xs ys a.1 b)

  pub AllOwned-left :
      (ts : List Threadlet) (xs ys : List Sqe) → AllOwned ts (xs ++ ys) → AllOwned ts xs
  AllOwned-left ts [] ys a = tt
  AllOwned-left ts (x ∷ xs) ys a = (a.0, AllOwned-left ts xs ys a.1)

  pub AllOwned-right :
      (ts : List Threadlet) (xs ys : List Sqe) → AllOwned ts (xs ++ ys) → AllOwned ts ys
  AllOwned-right ts [] ys a = a
  AllOwned-right ts (x ∷ xs) ys a = AllOwned-right ts xs ys a.1

  names_fresh :
      (ts : List Threadlet) (op : Op) (user : Option ℕ) (t : ℕ)
      → Owned ts op user
      → length ts ≤ t
      → names t user ≡ 0
  names_fresh ts op none t o h = refl
  names_fresh ts op (some u) t o h = ground (arith, get_elem?-lt ts u o.1)

  -- No operation names a threadlet that is not there yet.
  pub count_fresh :
      (ts : List Threadlet) (es : List Sqe) (t : ℕ)
      → AllOwned ts es
      → length ts ≤ t
      → count t es ≡ 0
  count_fresh ts [] t a h = refl
  count_fresh ts (e ∷ es) t a h =
      omega (arith, names_fresh ts e.op e.user_data t a.0 h, count_fresh ts es t a.1 h)

  Owned-set :
      (ts : List Threadlet) (op : Op) (user : Option ℕ) (t : ℕ) (r : Threadlet)
      → Owned ts op user
      → names t user ≡ 0
      → Owned (set ts t r) op user
  Owned-set ts op none t r o h = o
  Owned-set ts op (some u) t r o h = (o.0, get_elem?-set_ne ts r other ∙ o.1, o.2)
    where
      other : t ≢ u
      other = ground arith

  -- A change to a threadlet that nothing waits for disturbs no operation.
  pub AllOwned-set :
      (ts : List Threadlet) (es : List Sqe) (t : ℕ) (r : Threadlet)
      → AllOwned ts es
      → count t es ≡ 0
      → AllOwned (set ts t r) es
  AllOwned-set ts [] t r a h = tt
  AllOwned-set ts (e ∷ es) t r a h = (
    Owned-set ts e.op e.user_data t r a.0 (omega arith),
    AllOwned-set ts es t r a.1 (omega arith),
  )

  Owned-extend :
      (ts : List Threadlet) (op : Op) (user : Option ℕ) (r : Threadlet)
      → Owned ts op user
      → Owned (ts ++ r ∷ []) op user
  Owned-extend ts op none r o = o
  Owned-extend ts op (some u) r o = (o.0, get_elem?-append_some ts (r ∷ []) u o.1, o.2)

  pub AllOwned-extend :
      (ts : List Threadlet) (es : List Sqe) (r : Threadlet)
      → AllOwned ts es
      → AllOwned (ts ++ r ∷ []) es
  AllOwned-extend ts [] r a = tt
  AllOwned-extend ts (e ∷ es) r a =
      (Owned-extend ts e.op e.user_data r a.0, AllOwned-extend ts es r a.1)
