-- ===== src/Client/Session.antt =====
-- client.c on its connection while no signal comes: the handshake, and one operation after the other.
use echo_server.Prelude.{
  ℕ, zero, suc, ◌+◌, ◌*◌, ◌≤◌, ◌≡◌, refl, sym, ap, ◌∙◌, false, List, [], ◌++◌, append_assoc, ℤ, pos,
  int_lt, length, length-append, arith,
}
use echo_server.Posix.{Os, Fd, Cmd, pure, ◌>>=◌}
use echo_server.Posix.Laws.{SocketLaws, Reliable, Moved, Moved-refl, Moved-trans}
use echo_server.Posix.Ends
use echo_server.Posix.Ends.{Ends, ends, EndsOrFails}
use echo_server.Client.{buf_size, Local, rounds_of, one_operation, handshake}
use echo_server.Client.Message.{Exchanged, fill_words-Fresh, exchanged}
use echo_server.Posix.Calls.{recv_into-Ends, send_from-Ends}
use echo_server.Client.Handshake.{greeting, handshake-header}
use echo_server.Simple.Greet.{header}

module _ (os : Os) where
  open os use {World}

  -- `n` operations
  unfoldable pub operate : ℕ → Fd → (msg_size : ℤ) → Local → Cmd World Local
  operate zero conn_fd msg_size t = pure t
  operate (suc n) conn_fd msg_size t = do
    t ← one_operation os conn_fd msg_size t
    operate n conn_fd msg_size t

  -- The handshake and `n` operations, with the message size.
  unfoldable pub session : ℕ → Fd → (stack : List ℕ) → Local → Cmd World (ℤ × Local)
  unfolding operate
  session n conn_fd stack t = do
    msg_size ← handshake os conn_fd stack
    t ← operate n conn_fd msg_size t
    pure (msg_size, t)

not_below : (n : ℤ) (m : ℕ) → n ≡ pos m → int_lt n (pos m) ≡ false
not_below n m e = rw e (ground arith)

module _ {os : Os} (laws : SocketLaws os) (fd : Fd) (good : Reliable laws fd) where
  open os use {World}

  -- On a connection in good order on which the answer is there, an operation does not fail.
  one_operation-Ends :
      (m : ℕ) (t : Local) (w : World)
      → m ≤ 128
      → length t.buf ≡ buf_size
      → m ≤ length (laws.input fd w)
      → Ends (Exchanged laws fd m t w) (one_operation os fd (pos m) t w)
  unfolding one_operation
  one_operation-Ends m t w small size enough =
      Ends.bind _ (fill_words-Fresh m (rounds_of (pos m)) t w refl small size) λ r v f.
        Ends.bind _ (send_from-Ends laws fd m r.buf v (omega (arith, f.keeps))) λ n u put.
          let whole = not_below n m (put.full good) in
          rw whole (
            Ends.bind _ (recv_into-Ends laws fd m r.buf u (omega (arith, f.keeps))) λ a x got.
              let there : length (laws.input fd u) ≡ length (laws.input fd w) =
                ap length (sym put.moved.reads) ∙ ap (λ z. length (laws.input fd z)) f.world in
              let all = not_below a.0 m (got.full good (omega (arith, there))) in
              rw all (ends (exchanged laws fd m t w small size r v f n u put whole a x got all)))

  -- `n` messages each way.
  pub record Operated (n m : ℕ) (t : Local) (w : World) (r : Local) (w' : World) : Type 0 where
    pub got : List ℕ
    pub sent : List ℕ
    pub moved : Moved laws fd w w' got sent
    pub sends : length sent ≡ n * m
    pub gets : length got ≡ n * m
    pub keeps : length r.buf ≡ length t.buf

  operate-Ends :
      (n m : ℕ) (t : Local) (w : World)
      → m ≤ 128
      → length t.buf ≡ buf_size
      → n * m ≤ length (laws.input fd w)
      → Ends (Operated n m t w) (operate os n fd (pos m) t w)
  unfolding operate
  operate-Ends zero m t w small size enough = ends (record {
    got = [];
    sent = [];
    moved = Moved-refl laws fd w;
    sends = omega arith;
    gets = omega arith;
    keeps = refl;
  })
  operate-Ends (suc n) m t w small size enough =
      Ends.bind _ (one_operation-Ends m t w small size (omega arith)) λ t' v x.
        let left : length (laws.input fd w) ≡ m + length (laws.input fd v) =
          omega
            (arith, ap length x.moved.reads, length-append {0} x.got (laws.input fd v), x.gets) in
        Ends.weaken (operate-Ends n m t' v small (x.keeps ∙ size) (omega arith)) λ r u o. record {
          got = x.got ++ o.got;
          sent = x.sent ++ o.sent;
          moved = Moved-trans laws fd w v u x.got x.sent o.got o.sent x.moved o.moved;
          sends = omega (arith, x.sends, o.sends, length-append {0} x.sent o.sent);
          gets = omega (arith, x.gets, o.gets, length-append {0} x.got o.got);
          keeps = o.keeps ∙ x.keeps;
        }

  -- What a session has exchanged when `body` is there behind the header.
  pub record Sessioned (n m : ℕ) (body : List ℕ) (w : World) (r : ℤ × Local) (w' : World)
      : Type 0 where
    pub size : r.0 ≡ pos m
    pub got : List ℕ
    pub sent : List ℕ
    pub reads : body ≡ got ++ laws.input fd w'
    pub writes : laws.output fd w' ≡ laws.output fd w ++ (greeting ++ sent)
    pub sends : length sent ≡ n * m
    pub gets : length got ≡ n * m

  pub session-Ends :
      (n m : ℕ) (stack body : List ℕ) (t : Local) (w : World)
      → m ≤ 128
      → 4 ≤ length stack
      → length t.buf ≡ buf_size
      → laws.input fd w ≡ header m ++ body
      → n * m ≤ length body
      → Ends (Sessioned n m body w) (session os n fd stack t w)
  unfolding session
  session-Ends n m stack body t w small fits size announced enough =
      Ends.bind _ (handshake-header laws fd stack fits m body w (omega arith) good announced)
        λ size' v h. rw h.0 (
          Ends.bind _ (operate-Ends n m t v small size (omega (arith, ap length h.1))) λ t' u o.
            ends (record {
              size = refl;
              got = o.got;
              sent = o.sent;
              reads = sym h.1 ∙ o.moved.reads;
              writes =
                  o.moved.writes
                  ∙ ap (λ l. l ++ o.sent) h.2
                  ∙ append_assoc (laws.output fd w) greeting o.sent;
              sends = o.sends;
              gets = o.gets;
            }))
