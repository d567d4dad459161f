-- ===== src/Simple/Echo.antt =====
-- What a connection handler of simple.c reads and sends.
use echo_server.Prelude.{
  ℕ, Bool, true, sym, zero, suc, ◌+◌, ◌*◌, ◌≤◌, ◌≡◌, refl, inl, inr, List, [], ◌++◌, ℤ, ap, ◌∙◌,
  if◌then◌else◌, false, below, below-le, Bool-cases, arith, length, take, length-append, take_all,
  IsPrefix, IsPrefix-nil, IsPrefix-take, IsPrefix-append, pos_part, pos,
}
use mathlib.Core.Path.{subst}
use echo_server.Posix.{Os, Fd}
use echo_server.Posix.Laws.{SocketLaws, Reliable, Moved, Moved-refl, Moved-trans, Moved-reply}
use echo_server.Posix.Calls.{Received, Sent, recv_into-Ends, send_from-Ends, length-fill, take-fill}
use echo_server.Posix.Ends
use echo_server.Posix.Ends.{Ends, ends}
use echo_server.Simple.{Progress, looping, returned, echo_round, echo_loop}

-- After `k` rounds every message has come back whole; a handler that has returned has sent the
-- beginning of what it read, and is at most one message behind.
abbrev pub Echoed : (k msg_size room : ℕ) → Progress → (got sent : List ℕ) → Type 0
Echoed k m room (looping buf) got sent = (got ≡ sent) × (length sent ≡ k * m) × (length buf ≡ room)
Echoed k m room returned got sent = IsPrefix sent got × (length got ≤ length sent + m)

abbrev pub is_looping : Progress → Bool
is_looping (looping _) = true
is_looping returned = false

module _ {os : Os} (laws : SocketLaws os) (fd : Fd) where
  open os use {World}

  pub record Served (k msg_size room : ℕ) (w : World) (p : Progress) (w' : World) : Type 0 where
    pub got : List ℕ
    pub sent : List ℕ
    pub moved : Moved laws fd w w' got sent
    pub echoed : Echoed k msg_size room p got sent
    pub live : Reliable laws fd → k * msg_size ≤ length (laws.input fd w) → is_looping p ≡ true

  never_short : (n : ℤ) (m : ℕ) → below n m ≡ true → n ≡ pos m → ⊥
  never_short n m short e = absurd (ground arith)

  module _ (m : ℕ) (buf : List ℕ) (w : World) (fits : m ≤ length buf) where
    module _ {r : ℤ × List ℕ} {v : World} (got : Received laws fd m buf w r v)
        (whole : below r.0 m ≡ false) where
      length-bytes : m ≡ length got.bytes
      length-bytes = omega (arith, below-le r.0 m whole, got.counted, got.short)

      length-stored : length r.1 ≡ length buf
      length-stored = ap length got.stored ∙ length-fill buf got.bytes (omega (arith, got.short))

      take-stored : take m r.1 ≡ got.bytes
      take-stored = ap (take m) got.stored ∙ take-fill m buf got.bytes length-bytes

      reply-Moved :
          {n : ℤ} {u : World}
          → Sent laws fd m r.1 v n u
          → Moved laws fd w u got.bytes (take (pos_part n) got.bytes)
      reply-Moved {n} {u} put =
          Moved-reply laws fd w v u got.bytes _ got.moved
            (subst (λ l. Moved laws fd v u [] (take (pos_part n) l)) take-stored put.moved)

      reply-Served :
          (n : ℤ) (u : World)
          → Sent laws fd m r.1 v n u
          → Served 1 m (length buf) w (if below n m then returned else looping r.1) u
      reply-Served n u put = elim (Bool-cases (below n m)) [
        | inl short ↦ rw short (record {
          got = got.bytes;
          sent = take (pos_part n) got.bytes;
          moved = reply-Moved put;
          echoed = (IsPrefix-take (pos_part n) got.bytes, omega (arith, length-bytes));
          live = λ good enough. absurd (never_short n m short (put.full good));
        })
        | inr all ↦ rw all (record {
          got = got.bytes;
          sent = take (pos_part n) got.bytes;
          moved = reply-Moved put;
          echoed = (
            sym (whole_message all),
            omega (arith, ap length (whole_message all), length-bytes),
            length-stored,
          );
          live = λ good enough. refl;
        })
      ]
        where
          whole_message : below n m ≡ false → take (pos_part n) got.bytes ≡ got.bytes
          whole_message all =
              take_all (pos_part n) got.bytes (omega (arith, below-le n m all, length-bytes))

    echo_round-Ends : Ends (Served 1 m (length buf) w) (echo_round os fd buf m w)
    unfolding echo_round
    echo_round-Ends = Ends.bind _ (recv_into-Ends laws fd m buf w fits) λ r v got.
        elim (Bool-cases (below r.0 m)) [
          | inl short ↦ rw short (
              ends (record {
                got = got.bytes;
                sent = [];
                moved = got.moved;
                echoed = (IsPrefix-nil _, omega (arith, got.short));
                live =
                    λ good enough. absurd (never_short r.0 m short (got.full good (omega arith)));
              }))
          | inr whole ↦ rw whole (
              Ends.bind _ (send_from-Ends laws fd m r.1 v (omega (arith, length-stored got whole)))
                λ n u put. ends (reply-Served got whole n u put))
        ]

  Echoed-append :
      (k m room : ℕ) (p : Progress) (s g t : List ℕ)
      → length s ≡ m
      → Echoed k m room p g t
      → Echoed (suc k) m room p (s ++ g) (s ++ t)
  Echoed-append k m room (looping buf) s g t e h =
      (ap (λ l. s ++ l) h.0, omega (arith, length-append {0} s t, h.1), h.2)
  Echoed-append k m room returned s g t e h =
      (IsPrefix-append s t g h.0, omega (arith, length-append {0} s t, length-append {0} s g, h.1))

  -- A round that came back whole, then the rest of the rounds.
  Served-suc :
      (k m room : ℕ) (w v u : World) (buf : List ℕ) (p : Progress)
      → Served 1 m room w (looping buf) v
      → Served k m room v p u
      → Served (suc k) m room w p u
  Served-suc k m room w v u buf p a b = record {
    got = a.got ++ b.got;
    sent = a.sent ++ b.sent;
    moved = Moved-trans laws fd w v u a.got a.sent b.got b.sent a.moved b.moved;
    echoed =
        subst (λ l. Echoed (suc k) m room p (l ++ b.got) (a.sent ++ b.sent)) (sym a.echoed.0)
          (Echoed-append k m room p a.sent b.got b.sent (omega (arith, a.echoed.1)) b.echoed);
    live = λ good enough. b.live good (
        omega (
          arith,
          ap length a.moved.reads,
          ap length a.echoed.0,
          a.echoed.1,
          length-append {0} a.got (laws.input fd v),
        ));
  }

  pub echo_loop-Ends :
      (k m : ℕ) (buf : List ℕ) (w : World)
      → m ≤ length buf
      → Ends (Served k m (length buf) w) (echo_loop os k fd buf m w)
  unfolding echo_loop
  echo_loop-Ends zero m buf w fits = ends (record {
    got = [];
    sent = [];
    moved = Moved-refl laws fd w;
    echoed = (refl, omega arith, refl);
    live = λ _ _. refl;
  })
  echo_loop-Ends (suc k) m buf w fits = Ends.bind _ (echo_round-Ends m buf w fits) elim [
    | looping buf' ↦ λ v a.
        Ends.weaken (echo_loop-Ends k m buf' v (omega (arith, a.echoed.2))) (λ p u b.
          Served-suc k m (length buf) w v u buf' p a
            (subst (λ room. Served k m room v p u) a.echoed.2 b))
    | returned ↦ λ v a. ends (record {
      got = a.got;
      sent = a.sent;
      moved = a.moved;
      echoed = a.echoed;
      live = λ good enough. a.live good (omega (arith));
    })
  ]
