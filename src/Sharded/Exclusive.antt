-- ===== src/Sharded/Exclusive.antt =====
-- How many operations of io_uring_sharded.c that are not complete use a buffer.
use echo_server.Prelude.{
  ℕ, ◌≤◌, ◌≡◌, ◌⊎◌, refl, ap, ◌∙◌, Bool-cases, inl, inr, Bool, List, [], ◌∷◌, Option, none, some,
  get_elem?, ◌==◌, arith,
}
use echo_server.Posix.{Fd}
use echo_server.Sharded.{Threadlet}
use echo_server.Sharded.Liburing.{Mem, Op, Sqe, sqe}
use echo_server.Sharded.Pending.{count, names, Owned, AllOwned}
use echo_server.Sharded.Armed.{Armed, Bufs}
use echo_server.Sharded.Chained.{After, Chained, sends, fills, sends_of, fills_of}

After-nil : (b : ℕ) (op : Op) (link : Bool) → After op link [] → sends b op ≡ 0
After-nil b (Op.accept fd) link h = refl
After-nil b (Op.recv fd mem len) link h = refl
After-nil b (Op.send fd Mem.msg_size_conv len) link h = refl
After-nil b (Op.send fd Mem.header_buf len) link h = refl
After-nil b (Op.send fd (Mem.heap a) len) link (l, (t, rest, e)) = cc

After-sends :
    (b : ℕ) (op : Op) (link : Bool) (x : Sqe) (es : List Sqe)
    → After op link (x ∷ es)
    → sends b op ≤ fills b x.op
After-sends b (Op.accept fd) link x es h = omega arith
After-sends b (Op.recv fd mem len) link x es h = omega arith
After-sends b (Op.send fd Mem.msg_size_conv len) link x es h = omega arith
After-sends b (Op.send fd Mem.header_buf len) link x es h = omega arith
After-sends b (Op.send fd (Mem.heap a) len) link x es (l, (t, rest, e)) =
    let same : x ≡ sqe (Op.recv fd (Mem.heap a) len) (some t) = cc in
    let equal : fills b x.op ≡ sends b (Op.send fd (Mem.heap a) len) =
      ap (λ (y : Sqe). fills b y.op) same in
    omega (arith, equal)

-- Behind each reply stands a read into its buffer.
sends_of-fills_of :
    (b : ℕ) (e : Sqe) (es : List Sqe) → Chained (e ∷ es) → sends_of b (e ∷ es) ≤ fills_of b es
sends_of-fills_of b e [] c = omega (arith, After-nil b e.op e.link c.0)
sends_of-fills_of b e (x ∷ es) c =
    omega (arith, After-sends b e.op e.link x es c.0, sends_of-fills_of b x es c.1)

module _ (l : Fd) (m : ℕ) (ts : List Threadlet) (b : ℕ) where
  Owner : Type 0
  Owner = (t : ℕ) × (r : Threadlet) × (get_elem? ts t ≡ some r) × (r.buf ≡ some b)

  -- Who waits for a read into the buffer has it.
  Owned-fills : (op : Op) (user : Option ℕ) → Owned l m ts op user → (fills b op ≡ 0) ⊎ Owner
  unfolding Owner
  Owned-fills (Op.accept fd) user o = inl refl
  Owned-fills (Op.send fd mem len) user o = inl refl
  Owned-fills (Op.recv fd Mem.msg_size_conv len) user o = inl refl
  Owned-fills (Op.recv fd Mem.header_buf len) user o = inl refl
  Owned-fills (Op.recv fd (Mem.heap a) len) none o = absurd o
  Owned-fills (Op.recv fd (Mem.heap a) len) (some u) (r, at, aw) = elim (Bool-cases (a == b)) [
    | inl same ↦ let number : a ≡ b = ground arith in inr (u, r, at, aw.2 ∙ ap some number)
    | inr other ↦ inl (rw other refl)
  ]

  AllOwned-fills : (es : List Sqe) → AllOwned l m ts es → (fills_of b es ≡ 0) ⊎ Owner
  AllOwned-fills [] a = inl refl
  AllOwned-fills (e ∷ es) a = elim (Owned-fills e.op e.user_data a.0) [
    | inl nothing ↦ elim (AllOwned-fills es a.1) [ inl rest ↦ inl (omega arith) | inr o ↦ inr o ]
    | inr o ↦ inr o
  ]

  module _ {bufs : ℕ} (buffers : Bufs ts bufs) (t : ℕ) (r : Threadlet)
      (at : get_elem? ts t ≡ some r) (has : r.buf ≡ some b) where
    fills-names : (op : Op) (user : Option ℕ) → Owned l m ts op user → fills b op ≤ names t user
    fills-names (Op.accept fd) user o = omega arith
    fills-names (Op.send fd mem len) user o = omega arith
    fills-names (Op.recv fd Mem.msg_size_conv len) user o = omega arith
    fills-names (Op.recv fd Mem.header_buf len) user o = omega arith
    fills-names (Op.recv fd (Mem.heap a) len) none o = absurd o
    fills-names (Op.recv fd (Mem.heap a) len) (some u) (q, there, aw) = elim (Bool-cases (a == b)) [
      | inl same ↦
          let number : a ≡ b = ground arith in
          let mine : t ≡ u = buffers.apart t u b r q at there has (aw.2 ∙ ap some number) in
          ground arith
      | inr other ↦ rw other (omega arith)
    ]

    fills_of-count : (es : List Sqe) → AllOwned l m ts es → fills_of b es ≤ count t es
    fills_of-count [] a = omega arith
    fills_of-count (e ∷ es) a =
        omega (arith, fills-names e.op e.user_data a.0, fills_of-count es a.1)

-- One reply at most reads a buffer, and a read into it stands behind the reply; one read at most
-- fills it.
pub record Exclusive (es : List Sqe) : Type 0 where
  pub chained : Chained es
  pub one_fill : (b : ℕ) → fills_of b es ≤ 1
  pub one_send : (b : ℕ) → sends_of b es ≤ 1

one_fill :
    (l : Fd) (m n : ℕ) (ts : List Threadlet) (bufs : ℕ) (es : List Sqe) (b : ℕ)
    → Armed l m n ts bufs es
    → fills_of b es ≤ 1
unfolding Owner
one_fill l m n ts bufs es b a = elim (AllOwned-fills l m ts b es a.owned) [
  | inl nothing ↦ omega arith
  | inr (t, r, at, has) ↦
      omega (arith, fills_of-count l m ts b a.buffers t r at has es a.owned, a.once t)
]

sends-some : (b : ℕ) (es : List Sqe) → Chained es → sends_of b es ≤ fills_of b es
sends-some b [] c = omega arith
sends-some b (e ∷ es) c = omega (arith, sends_of-fills_of b e es c)

pub Armed-Exclusive :
    (l : Fd) (m n : ℕ) (ts : List Threadlet) (bufs : ℕ) (es : List Sqe)
    → Armed l m n ts bufs es
    → Chained es
    → Exclusive es
Armed-Exclusive l m n ts bufs es a c = record {
  chained = c;
  one_fill = λ b. one_fill l m n ts bufs es b a;
  one_send = λ b. omega (arith, sends-some b es c, one_fill l m n ts bufs es b a);
}
