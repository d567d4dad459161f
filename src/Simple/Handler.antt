-- ===== src/Simple/Handler.antt =====
-- The whole connection handler of simple.c: what it promises to the peer.
use mathlib.Core.Path.{subst}
use echo_server.Prelude.{
  ℕ, ◌+◌, ◌*◌, ◌≤◌, ◌≡◌, refl, sym, ap, ◌∙◌, true, none, some, List, ◌++◌, arith, length,
  length-append, drop, take, drop-length_append, drop_all, take-length_append, IsPrefix,
  IsPrefix-append, append_assoc, append-nil,
}
use echo_server.Posix.{Os, Fd}
use echo_server.Posix.Laws.{SocketLaws, Reliable, Moved, Moved-trans}
use echo_server.Posix.Ends
use echo_server.Posix.Ends.{Ends, ends}
use echo_server.Simple.{buf_size, Progress, looping, returned, handle_conn}
use echo_server.Simple.Greet.{header, Greeted, greet-Ends}
use echo_server.Simple.Echo.{Echoed, Served, is_looping, echo_loop-Ends}

-- After the greeting `hello` of two bytes the server has sent the header and all of `body`, which
-- is `k` messages. A handler that has returned has sent a beginning of the header and the bytes
-- behind the greeting, and lacks at most one message.
abbrev pub HandledSo : (k m : ℕ) → Progress → (got sent : List ℕ) → Type 0
HandledSo k m (looping _) got sent =
    (hello : List ℕ) × (body : List ℕ) × (got ≡ hello ++ body)
    × (length hello ≡ 2)
    × (sent ≡ header m ++ body)
    × (length body ≡ k * m)
HandledSo k m returned got sent =
    IsPrefix sent (header m ++ drop 2 got) × (length got ≤ length sent + m)

module _ {os : Os} (laws : SocketLaws os) (fd : Fd) where
  open os use {World}

  pub record Handled (k m : ℕ) (w : World) (p : Progress) (w' : World) : Type 0 where
    pub got : List ℕ
    pub sent : List ℕ
    pub moved : Moved laws fd w w' got sent
    pub handled : HandledSo k m p got sent
    pub live : Reliable laws fd → 2 + k * m ≤ length (laws.input fd w) → is_looping p ≡ true

  stopped :
      (k m : ℕ) (buf : List ℕ) (w v : World)
      → Greeted laws fd m buf w none v
      → Handled k m w returned v
  stopped k m buf w v g = record {
    got = g.got;
    sent = g.sent;
    moved = g.moved;
    handled = (
      subst (IsPrefix g.sent)
          (sym (append-nil (header m))
            ∙ ap (λ l. header m ++ l) (sym (drop_all 2 g.got (omega (arith, g.outcome)))))
          g.outcome.0,
      omega (arith, g.outcome),
    );
    live = λ good enough. cc (g.live good (omega arith));
  }

  joined :
      (k m room : ℕ) (p : Progress) (hello got sent : List ℕ)
      → length hello ≡ 2
      → Echoed k m room p got sent
      → HandledSo k m p (hello ++ got) (header m ++ sent)
  joined k m room (looping buf) hello got sent two (same, size, _) =
      (hello, got, refl, two, ap (λ l. header m ++ l) (sym same), omega (arith, ap length same))
  joined k m room returned hello got sent two (front, near) = (
    subst (λ l. IsPrefix (header m ++ sent) (header m ++ l))
        (sym (drop-length_append 2 hello got (omega arith)))
        (IsPrefix-append (header m) sent got front),
    omega (arith, length-append {0} hello got),
  )

  served :
      (k m : ℕ) (buf b : List ℕ) (w v u : World) (p : Progress)
      → Greeted laws fd m buf w (some b) v
      → Served laws fd k m (length b) v p u
      → Handled k m w p u
  served k m buf b w v u p g s = record {
    got = g.got ++ s.got;
    sent = header m ++ s.sent;
    moved =
        subst (λ l. Moved laws fd w u (g.got ++ s.got) (l ++ s.sent)) g.outcome.0
          (Moved-trans laws fd w v u g.got g.sent s.got s.sent g.moved s.moved);
    handled = joined k m (length b) p g.got s.got s.sent g.outcome.1 s.echoed;
    live = λ good enough. s.live good (
        omega
          (arith, ap length g.moved.reads, length-append {0} g.got (laws.input fd v), g.outcome.1));
  }

  -- For a message size of at most 1024 and a stack buffer of 1024 bytes, the first k rounds of
  -- handle_conn end without undefined behaviour under the laws of the sockets; if it is still
  -- looping it has read two bytes and then k messages and has sent the header and those
  -- messages unchanged, and if it has returned it has sent a beginning of the header and of
  -- what it read.
  pub handle_conn-echoes :
      (k m : ℕ) (buf : List ℕ) (w : World)
      → m ≤ buf_size
      → length buf ≡ buf_size
      → Ends (Handled k m w) (handle_conn os k fd buf m w)
  unfolding handle_conn
  handle_conn-echoes k m buf w small room =
      Ends.bind _ (greet-Ends laws fd m buf w (omega arith)) elim [
        | none ↦ λ v g. ends (stopped k m buf w v g)
        | some b ↦ λ v g.
            Ends.weaken (echo_loop-Ends laws fd k m b v (omega (arith, g.outcome.2)))
              (λ p u s. served k m buf b w v u p g s)
      ]

  -- What the peer sees of a connection in good order.
  abbrev pub Answered : (k m : ℕ) → World → Progress → World → Type 0
  Answered k m w p w' =
      (is_looping p ≡ true)
      × (laws.output fd w'
          ≡ laws.output fd w ++ (header m ++ take (k * m) (drop 2 (laws.input fd w))))
      × (laws.input fd w' ≡ drop (k * m) (drop 2 (laws.input fd w)))

  answered :
      (k m : ℕ) (w : World) (p : Progress) (w' : World)
      → Reliable laws fd
      → 2 + k * m ≤ length (laws.input fd w)
      → Handled k m w p w'
      → Answered k m w p w'
  answered k m w returned w' good enough h = cc (h.live good enough)
  answered k m w (looping buf) w' good enough h = (
    refl,
    h.moved.writes
        ∙ ap (λ l. laws.output fd w ++ l) (out ∙ ap (λ l. header m ++ l) (sym body_taken)),
    sym (ap (drop (k * m)) behind ∙ drop-length_append (k * m) body _ (sym size)),
  )
    where
      hello : List ℕ
      hello = h.handled.0

      body : List ℕ
      body = h.handled.1

      size : length body ≡ k * m
      size = h.handled.5

      out : h.sent ≡ header m ++ body
      out = h.handled.4

      behind : drop 2 (laws.input fd w) ≡ body ++ laws.input fd w'
      behind =
          ap (drop 2) (
            h.moved.reads ∙ ap (λ l. l ++ laws.input fd w') h.handled.2 ∙ append_assoc hello body _)
          ∙ drop-length_append 2 hello _ (sym h.handled.3)

      body_taken : take (k * m) (drop 2 (laws.input fd w)) ≡ body
      body_taken = ap (take (k * m)) behind ∙ take-length_append (k * m) body _ (sym size)

  -- On a connection in good order whose peer sends two bytes and at least k messages, the
  -- handler is still looping after k rounds and its output is the header followed by exactly
  -- those k messages.
  pub handle_conn-answers :
      (k m : ℕ) (buf : List ℕ) (w : World)
      → m ≤ buf_size
      → length buf ≡ buf_size
      → Reliable laws fd
      → 2 + k * m ≤ length (laws.input fd w)
      → Ends (Answered k m w) (handle_conn os k fd buf m w)
  handle_conn-answers k m buf w small room good enough =
      Ends.weaken (handle_conn-echoes k m buf w small room)
        (λ p w' h. answered k m w p w' good enough h)
