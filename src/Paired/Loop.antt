-- ===== src/Paired/Loop.antt =====
-- The loop of uring2.c.
use mathlib.Core.Path.{subst}
use echo_server.Prelude.{
  ℕ, zero, suc, ◌*◌, ◌≤◌, ◌≡◌, sym, ap, ◌∙◌, List, [], ◌++◌, length, take, length-append,
  append_assoc, append-nil, IsPrefix, IsPrefix-append, arith,
}
use echo_server.Posix.{Fd, Cmd, pure}
use echo_server.Posix.Laws.{SocketLaws, Moved, Moved-refl, Moved-trans}
use echo_server.Posix.Ends
use echo_server.Posix.Ends.{Ends, ends}
use echo_server.Paired.{Progress, looping, returned, pair_loop}
use echo_server.Paired.Rings.{PairRings, PairLaws}
use echo_server.Paired.Round.{buf_size, Round, IdleAfter, pair_round-Ends}

-- The loop is one message behind: what it has sent and what waits in the array to send is what was
-- there at first and what it has read.
abbrev pub LoopSo : (k m : ℕ) (front : List ℕ) → Progress → (got sent : List ℕ) → Type 0
LoopSo k m front (looping send_buf recv_buf) got sent =
    (sent ++ take m send_buf ≡ front ++ got) × (length got ≡ k * m)
LoopSo k m front returned got sent = IsPrefix sent (front ++ got)

pub IsPrefix-append_right : (xs ys zs : List ℕ) → IsPrefix xs ys → IsPrefix xs (ys ++ zs)
IsPrefix-append_right xs ys zs (rest, e) =
    (rest ++ zs, ap (λ l. l ++ zs) e ∙ append_assoc xs rest zs)

module _ {rings : PairRings} (plaws : PairLaws rings) (laws : SocketLaws rings.os) (fd : Fd) where
  open rings use {os, Ring}
  open os use {World}

  pub record Looped (k m : ℕ) (front : List ℕ) (w : World) (p : Progress) (w' : World)
      : Type 0 where
    pub got : List ℕ
    pub sent : List ℕ
    pub moved : Moved laws fd w w' got sent
    pub so : LoopSo k m front p got sent

  -- A round that went on, and then the rest.
  LoopSo-suc :
      (k m : ℕ) (sb sb' : List ℕ) (p : Progress) (got sent got' sent' : List ℕ)
      → sent ≡ take m sb
      → take m sb' ≡ got
      → length got ≡ m
      → LoopSo k m (take m sb') p got' sent'
      → LoopSo (suc k) m (take m sb) p (got ++ got') (sent ++ sent')
  LoopSo-suc k m sb sb' (looping last _) got sent got' sent' out front size (same, count) = (
    append_assoc sent sent' (take m last)
        ∙ ap (λ l. sent ++ l) (same ∙ ap (λ l. l ++ got') front)
        ∙ ap (λ l. l ++ (got ++ got')) out,
    omega (arith, count, length-append {0} got got'),
  )
  LoopSo-suc k m sb sb' returned got sent got' sent' out front size so =
      subst (λ l. IsPrefix (sent ++ sent') (l ++ (got ++ got'))) out
        (IsPrefix-append sent sent' (got ++ got')
          (subst (λ l. IsPrefix sent' (l ++ got')) front so))

  -- What `pair_loop` does behind a round.
  abbrev behind : ℕ → ℕ → Progress × Ring → Cmd World Progress
  behind k m p = elim p.0 [
    | looping send_buf recv_buf ↦ pair_loop rings k fd send_buf recv_buf m p.1
    | returned ↦ pure returned
  ]

  behind-Ends :
      (k m : ℕ) (sb : List ℕ) (w : World) (p : Progress) (r : Ring) (v : World)
      → Round laws fd m sb w p v
      → IdleAfter plaws laws fd p r
      → ((sb' rb' : List ℕ) (r' : Ring)
          → length sb' ≡ buf_size
          → length rb' ≡ buf_size
          → plaws.Idle r'
          → Ends (Looped k m (take m sb') v) (pair_loop rings k fd sb' rb' m r' v))
      → Ends (Looped (suc k) m (take m sb) w) (behind k m (p, r) v)
  behind-Ends k m sb w (looping sb' rb') r v h idle go_on =
      Ends.weaken (go_on sb' rb' r h.so.3 h.so.4 idle) λ p u l. record {
        got = h.got ++ l.got;
        sent = h.sent ++ l.sent;
        moved = Moved-trans laws fd w v u h.got h.sent l.got l.sent h.moved l.moved;
        so = LoopSo-suc k m sb sb' p h.got h.sent l.got l.sent h.so.0 h.so.1 h.so.2 l.so;
      }
  behind-Ends k m sb w returned r v h idle go_on = ends (record {
    got = h.got;
    sent = h.sent;
    moved = h.moved;
    so = IsPrefix-append_right h.sent (take m sb) h.got h.so;
  })

  pub pair_loop-Ends :
      (k m : ℕ) (sb rb : List ℕ) (r : Ring) (w : World)
      → m ≤ buf_size
      → length sb ≡ buf_size
      → length rb ≡ buf_size
      → plaws.Idle r
      → Ends (Looped k m (take m sb) w) (pair_loop rings k fd sb rb m r w)
  unfolding pair_loop
  pair_loop-Ends zero m sb rb r w small s_size r_size idle = ends (record {
    got = [];
    sent = [];
    moved = Moved-refl laws fd w;
    so = (sym (append-nil (take m sb)), omega arith);
  })
  pair_loop-Ends (suc k) m sb rb r w small s_size r_size idle =
      Ends.bind _ (pair_round-Ends plaws laws fd m sb rb w small s_size r_size r idle) λ p v h.
        behind-Ends k m sb w p.0 p.1 v h.0 h.1
          (λ sb' rb' r' s' t' i'. pair_loop-Ends k m sb' rb' r' v small s' t' i')
