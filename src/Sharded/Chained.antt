-- ===== src/Sharded/Chained.antt =====
-- The order of linked operations on the ring of io_uring_sharded.c, as a predicate on a queue.
use echo_server.Prelude.{
  ℕ, ◌+◌, ◌≡◌, ap, Bool, true, false, List, [], ◌∷◌, ◌++◌, some, if◌then◌else◌, ◌==◌,
}
use echo_server.Sharded.Liburing.{Mem, Op, Sqe, sqe}

-- What stands behind an operation in the queue.
abbrev pub After : Op → (link : Bool) → List Sqe → Type 0
After (Op.accept fd) link es = link ≡ false
After (Op.recv fd mem len) link es = link ≡ false
After (Op.send fd Mem.msg_size_conv len) link es = link ≡ false
After (Op.send fd Mem.header_buf len) link es = link ≡ false
After (Op.send fd (Mem.heap b) len) link es =
    (link ≡ true)
    × ((t : ℕ) × (rest : List Sqe) × (es ≡ sqe (Op.recv fd (Mem.heap b) len) (some t) ∷ rest))

abbrev pub Chained : List Sqe → Type 0
Chained [] = Unit
Chained (e ∷ es) = After e.op e.link es × Chained es

-- Whether the last of the entries is linked to what comes next.
abbrev pub last_link : List Sqe → Bool
last_link [] = false
last_link (e ∷ []) = e.link
last_link (e ∷ x ∷ es) = last_link (x ∷ es)

After-append :
    (op : Op) (link : Bool) (xs ys : List Sqe) → After op link xs → After op link (xs ++ ys)
After-append (Op.accept fd) link xs ys h = h
After-append (Op.recv fd mem len) link xs ys h = h
After-append (Op.send fd Mem.msg_size_conv len) link xs ys h = h
After-append (Op.send fd Mem.header_buf len) link xs ys h = h
After-append (Op.send fd (Mem.heap b) len) link xs ys (l, (t, rest, e)) =
    (l, (t, rest ++ ys, ap (λ q. q ++ ys) e))

pub Chained-append : (xs ys : List Sqe) → Chained xs → Chained ys → Chained (xs ++ ys)
Chained-append [] ys c d = d
Chained-append (x ∷ xs) ys c d = (After-append x.op x.link xs ys c.0, Chained-append xs ys c.1 d)

-- Only the next entry matters.
After-next :
    (op : Op) (link : Bool) (x : Sqe) (xs ys : List Sqe)
    → After op link (x ∷ xs)
    → After op link (x ∷ ys)
After-next (Op.accept fd) link x xs ys h = h
After-next (Op.recv fd mem len) link x xs ys h = h
After-next (Op.send fd Mem.msg_size_conv len) link x xs ys h = h
After-next (Op.send fd Mem.header_buf len) link x xs ys h = h
After-next (Op.send fd (Mem.heap b) len) link x xs ys (l, (t, rest, e)) =
    (l, (t, ys, ap (λ q. q ∷ ys) (cc e)))

-- Where there is no link, nothing has to follow.
After-unlinked :
    (op : Op) (link : Bool) (xs ys : List Sqe) → link ≡ false → After op link xs → After op link ys
After-unlinked (Op.accept fd) link xs ys free h = h
After-unlinked (Op.recv fd mem len) link xs ys free h = h
After-unlinked (Op.send fd Mem.msg_size_conv len) link xs ys free h = h
After-unlinked (Op.send fd Mem.header_buf len) link xs ys free h = h
After-unlinked (Op.send fd (Mem.heap b) len) link xs ys free h = let yes_link = h.0 in cc

-- An entry that no link holds back is taken out.
pub Chained-take :
    (xs ys : List Sqe) (e : Sqe)
    → last_link xs ≡ false
    → Chained (xs ++ e ∷ ys)
    → Chained (xs ++ ys)
Chained-take [] ys e free c = c.1
Chained-take (x ∷ []) ys e free c = (After-unlinked x.op x.link (e ∷ ys) ys free c.0, c.1.1)
Chained-take (x ∷ x' ∷ xs) ys e free c =
    (After-next x.op x.link x' (xs ++ e ∷ ys) (xs ++ ys) c.0, Chained-take (x' ∷ xs) ys e free c.1)

-- How many of the operations send, or fill, the buffer `b`.
abbrev pub sends : ℕ → Op → ℕ
sends b (Op.send fd (Mem.heap a) len) = if a == b then 1 else 0
sends b _ = 0

abbrev pub fills : ℕ → Op → ℕ
fills b (Op.recv fd (Mem.heap a) len) = if a == b then 1 else 0
fills b _ = 0

abbrev pub sends_of : ℕ → List Sqe → ℕ
sends_of b [] = 0
sends_of b (e ∷ es) = sends b e.op + sends_of b es

abbrev pub fills_of : ℕ → List Sqe → ℕ
fills_of b [] = 0
fills_of b (e ∷ es) = fills b e.op + fills_of b es
