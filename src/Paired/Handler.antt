-- ===== src/Paired/Handler.antt =====
-- The connection handler of uring2.c, from the greeting on.
use mathlib.Core.Path.{subst}
use echo_server.Prelude.{
  ℕ, suc, ◌*◌, ◌≤◌, ◌≡◌, refl, sym, ap, ◌∙◌, Bool-cases, inl, inr, List, [], ◌++◌, none, some,
  below, below-le, length, take, length-append, append_assoc, append-nil, IsPrefix, IsPrefix-nil,
  IsPrefix-append, arith,
}
use echo_server.Posix.{Fd}
use echo_server.Posix.Laws.{SocketLaws, Moved, Moved-trans}
use echo_server.Posix.Calls.{recv_into-Ends, length-fill, take-fill}
use echo_server.Posix.Ends
use echo_server.Posix.Ends.{Ends, ends}
use echo_server.Simple.Greet.{header, Greeted, greet-Ends}
use echo_server.Paired.{Progress, looping, returned, after_greeting, handle_conn}
use echo_server.Paired.Rings.{PairRings, PairLaws}
use echo_server.Paired.Round.{buf_size}
use echo_server.Paired.Loop.{LoopSo, IsPrefix-append_right, pair_loop-Ends}

-- The same from the greeting on.
abbrev pub HandledSo : (k m : ℕ) → Progress → (got sent : List ℕ) → Type 0
HandledSo k m (looping send_buf _) got sent =
    (hello : List ℕ) × (body : List ℕ) × (got ≡ hello ++ body)
    × (length hello ≡ 2)
    × (length body ≡ suc k * m)
    × (sent ++ take m send_buf ≡ header m ++ body)
HandledSo k m returned got sent =
    (hello : List ℕ) × (body : List ℕ) × (got ≡ hello ++ body)
    × (length hello ≤ 2)
    × IsPrefix sent (header m ++ body)

module _ {rings : PairRings} (plaws : PairLaws rings) (laws : SocketLaws rings.os) (fd : Fd) where
  open rings use {os, Ring}
  open os use {World}

  -- After the greeting: the body of what is read begins with the first message.
  abbrev BodySo : (k m : ℕ) → Progress → (got sent : List ℕ) → Type 0
  BodySo k m (looping send_buf recv_buf) got sent =
      (sent ++ take m send_buf ≡ got) × (length got ≡ suc k * m)
  BodySo k m returned got sent = IsPrefix sent got

  record Echoed (k m : ℕ) (w : World) (p : Progress) (w' : World) : Type 0 where
    got : List ℕ
    sent : List ℕ
    moved : Moved laws fd w w' got sent
    so : BodySo k m p got sent

  pub record Handled (k m : ℕ) (w : World) (p : Progress) (w' : World) : Type 0 where
    pub got : List ℕ
    pub sent : List ℕ
    pub moved : Moved laws fd w w' got sent
    pub so : HandledSo k m p got sent

  BodySo-first :
      (k m : ℕ) (front : List ℕ) (p : Progress) (bytes got sent : List ℕ)
      → front ≡ bytes
      → length bytes ≡ m
      → LoopSo k m front p got sent
      → BodySo k m p (bytes ++ got) sent
  BodySo-first k m front (looping sb _) bytes got sent e size so =
      (so.0 ∙ ap (λ l. l ++ got) e, omega (arith, so.1, length-append {0} bytes got))
  BodySo-first k m front returned bytes got sent e size so =
      subst (λ l. IsPrefix sent (l ++ got)) e so

  -- The first message, behind the greeting, and the loop.
  after_greeting-Ends :
      (k m : ℕ) (sb rb : List ℕ) (w : World)
      → m ≤ buf_size
      → length sb ≡ buf_size
      → length rb ≡ buf_size
      → Ends (Echoed k m w) (after_greeting rings k fd sb rb m w)
  unfolding after_greeting
  after_greeting-Ends k m sb rb w small s_size r_size =
      Ends.bind _ (recv_into-Ends laws fd m sb (rings.queue_init 2 w).1 (omega arith)) λ r v got.
        let read : Moved laws fd w v got.bytes [] =
          subst (λ z. Moved laws fd z v got.bytes []) (plaws.init_quiet 2 w) got.moved in
        elim (Bool-cases (below r.0 m)) [
          | inl short ↦ rw short (
              ends
                (record { got = got.bytes; sent = []; moved = read; so = IsPrefix-nil got.bytes }))
          | inr whole ↦ rw whole (
              let count : m ≡ length got.bytes =
                omega (arith, below-le r.0 m whole, got.counted, got.short) in
              Ends.weaken
                (pair_loop-Ends plaws laws fd k m r.1 rb (rings.queue_init 2 w).0 v small
                  (ap length got.stored
                    ∙ length-fill sb got.bytes (omega (arith, got.short))
                    ∙ s_size)
                  r_size (plaws.init_idle 2 w))
                λ p u l. record {
                  got = got.bytes ++ l.got;
                  sent = l.sent;
                  moved = Moved-trans laws fd w v u got.bytes [] l.got l.sent read l.moved;
                  so =
                      BodySo-first k m (take m r.1) p got.bytes l.got l.sent
                        (ap (take m) got.stored ∙ take-fill m sb got.bytes count) (sym count) l.so;
                })
        ]

  HandledSo-greeted :
      (k m : ℕ) (p : Progress) (hello got sent : List ℕ)
      → length hello ≡ 2
      → BodySo k m p got sent
      → HandledSo k m p (hello ++ got) (header m ++ sent)
  HandledSo-greeted k m (looping sb _) hello got sent two so = (
    hello,
    got,
    refl,
    two,
    so.1,
    append_assoc (header m) sent (take m sb) ∙ ap (λ l. header m ++ l) so.0,
  )
  HandledSo-greeted k m returned hello got sent two so =
      (hello, got, refl, omega arith, IsPrefix-append (header m) sent got so)

  greeted :
      (k m : ℕ) (rb rb' : List ℕ) (w v : World)
      → Greeted laws fd m rb w (some rb') v
      → (p : Progress) (u : World) → Echoed k m v p u
      → Handled k m w p u
  greeted k m rb rb' w v g p u e = record {
    got = g.got ++ e.got;
    sent = header m ++ e.sent;
    moved =
        Moved-trans laws fd w v u g.got (header m) e.got e.sent
          (subst (Moved laws fd w v g.got) g.outcome.0 g.moved) e.moved;
    so = HandledSo-greeted k m p g.got e.got e.sent g.outcome.1 e.so;
  }

  refused :
      (k m : ℕ) (rb : List ℕ) (w v : World)
      → Greeted laws fd m rb w none v
      → Handled k m w returned v
  refused k m rb w v g = record {
    got = g.got;
    sent = g.sent;
    moved = g.moved;
    so = (
      g.got,
      [],
      sym (append-nil g.got),
      omega (arith, g.outcome.1),
      IsPrefix-append_right g.sent (header m) [] g.outcome.0,
    );
  }

  -- For a message size m of at most 1024 and two buffers of 1024 bytes, where an idle ring
  -- carries out a reply and a read as the system calls of their names would, in either order,
  -- the first k rounds of the handler of uring2.c end without undefined behaviour and without
  -- an exit; if it is still looping it has read the greeting and k + 1 messages and has sent
  -- the header and all but the last of them, which is in front of its send buffer, and if it
  -- has returned, what it sent is a prefix of the header and what it read behind the greeting.
  pub handle_conn-Handled :
      (k m : ℕ) (sb rb : List ℕ) (w : World)
      → m ≤ buf_size
      → length sb ≡ buf_size
      → length rb ≡ buf_size
      → Ends (Handled k m w) (handle_conn rings k fd sb rb m w)
  unfolding handle_conn
  handle_conn-Handled k m sb rb w small s_size r_size =
      Ends.bind _ (greet-Ends laws fd m rb w (omega arith)) elim [
        | none ↦ λ v g. ends (refused k m rb w v g)
        | some rb' ↦ λ v g.
            Ends.weaken (after_greeting-Ends k m sb rb' v small s_size (omega (arith, g.outcome.2)))
              (λ p u e. greeted k m rb rb' w v g p u e)
      ]
