-- ===== src/Client/Message.antt =====
-- One operation of client.c on a connection.
use mathlib.Core.Path.{subst}
use echo_server.Prelude.{
  ℕ, zero, suc, ◌+◌, ◌*◌, ◌/◌, ◌≤◌, ◌<◌, ◌≡◌, refl, ap, ◌∙◌, sym, List, [], ◌∷◌, ◌++◌, ℤ, pos,
  negsuc, pos_part, int_lt, false, inl, inr, Bool-cases, leb, le→leb, arith, length, take, drop,
  length-append, length-take, length-drop, take_all,
}
use echo_server.Posix.{Os, Fd, fault}
use echo_server.Posix.Laws.{SocketLaws, Moved, Moved-ask}
use echo_server.Posix.Calls.{
  Received, Sent, recv_into-Ends, send_from-Ends, length-fill, take-fill, length-take_le,
}
use echo_server.Posix.Ends
use echo_server.Posix.Ends.{Ends, ends, EndsOrFails, done, stops, bind_or_fail, Ends-EndsOrFails}
use echo_server.Client.{
  buf_size, Local, next_rng, bytes64, store_word, fill_words, rounds_of, one_operation,
}

take-append_front : (n : ℕ) (xs ys : List ℕ) → n ≤ length xs → take n (xs ++ ys) ≡ take n xs
take-append_front zero xs ys h = refl
take-append_front (suc n) [] ys h = absurd (omega arith)
take-append_front (suc n) (x ∷ xs) ys h = ap (λ l. x ∷ l) (take-append_front n xs ys (omega arith))

take-take : (n k : ℕ) (xs : List ℕ) → n ≤ k → take n (take k xs) ≡ take n xs
take-take zero k xs h = refl
take-take (suc n) zero xs h = absurd (omega arith)
take-take (suc n) (suc k) [] h = refl
take-take (suc n) (suc k) (x ∷ xs) h = ap (λ l. x ∷ l) (take-take n k xs (omega arith))

module _ (buf : List ℕ) (i word : ℕ) (fits : 8 * i + 8 ≤ length buf) where
  length-store_word : length (store_word buf i word) ≡ length buf
  unfolding store_word
  length-store_word = omega (
    arith,
    length-append {0} (take (8 * i) buf) (bytes64 word ++ drop (8 * i + 8) buf),
    length-append {0} (bytes64 word) (drop (8 * i + 8) buf),
    length-take {0} (8 * i) buf,
    length-drop {0} (8 * i + 8) buf,
  )

  -- A store behind the first word keeps it.
  take-store_word : 1 ≤ i → take 8 (store_word buf i word) ≡ take 8 buf
  unfolding store_word
  take-store_word h =
      take-append_front 8 (take (8 * i) buf) _ (omega (arith, length-take {0} (8 * i) buf))
      ∙ take-take 8 (8 * i) buf (omega arith)

take-first_word : (buf : List ℕ) (word : ℕ) → take 8 (store_word buf 0 word) ≡ bytes64 word
unfolding store_word
take-first_word buf word = refl

module _ {W : Type 0} where
  fill_words-overrun :
      (rounds i : ℕ) (t : Local) (w : W)
      → 0 < rounds
      → length t.buf + 56 < 8 * i + 64 * rounds
      → fill_words rounds i t w ≡ fault
  unfolding fill_words
  fill_words-overrun zero i t w some_round over = absurd (omega arith)
  fill_words-overrun (suc rounds) i t w some_round over =
      elim (Bool-cases (leb (8 * i + 8) (length t.buf))) [
        | inl fits ↦
            let room : 8 * i + 8 ≤ length t.buf = ground arith in
            rw fits (
              fill_words-overrun rounds (i + 8) _ w (omega arith)
                (omega (arith, length-store_word t.buf i (next_rng t.rng_state) room)))
        | inr out ↦ rw out refl
      ]

  -- What the loop leaves, from an `i` behind the first word.
  record Filled (t : Local) (w : W) (r : Local) (v : W) : Type 0 where
    keeps : length r.buf ≡ length t.buf
    front : take 8 r.buf ≡ take 8 t.buf
    world : v ≡ w

  fill_words-Ends :
      (rounds i : ℕ) (t : Local) (w : W)
      → 1 ≤ i
      → 8 * i + 64 * rounds ≤ length t.buf + 56
      → Ends (Filled t w) (fill_words rounds i t w)
  unfolding fill_words
  fill_words-Ends zero i t w behind fits =
      ends (record { keeps = refl; front = refl; world = refl })
  fill_words-Ends (suc rounds) i t w behind fits = rw (le→leb (8 * i + 8) (length t.buf) room) (
      Ends.weaken
        (fill_words-Ends rounds (i + 8) _ w (omega arith)
          (omega (arith, length-store_word t.buf i (next_rng t.rng_state) room)))
        λ r v f. record {
          keeps = f.keeps ∙ length-store_word t.buf i (next_rng t.rng_state) room;
          front = f.front ∙ take-store_word t.buf i (next_rng t.rng_state) room behind;
          world = f.world;
        })
    where
      room : 8 * i + 8 ≤ length t.buf
      room = omega arith

  -- What the whole loop leaves: the first word is the next of the generator.
  pub record Fresh (m : ℕ) (t : Local) (w : W) (r : Local) (v : W) : Type 0 where
    pub keeps : length r.buf ≡ length t.buf
    pub front : 0 < m → take 8 r.buf ≡ bytes64 (next_rng t.rng_state)
    pub world : v ≡ w

  pub fill_words-Fresh :
      (m rounds : ℕ) (t : Local) (w : W)
      → rounds ≡ (m + 7) / 8
      → m ≤ 128
      → length t.buf ≡ buf_size
      → Ends (Fresh m t w) (fill_words rounds 0 t w)
  unfolding fill_words
  fill_words-Fresh m zero t w e small size =
      ends (record { keeps = refl; front = λ h. absurd (omega arith); world = refl })
  fill_words-Fresh m (suc rounds) t w e small size = rw (le→leb 8 (length t.buf) (omega arith)) (
      Ends.weaken
        (fill_words-Ends rounds 8 _ w (omega arith)
          (omega (arith, length-store_word t.buf 0 (next_rng t.rng_state) (omega arith))))
        λ r v f. record {
          keeps = f.keeps ∙ length-store_word t.buf 0 (next_rng t.rng_state) (omega arith);
          front = λ h. f.front ∙ take-first_word t.buf (next_rng t.rng_state);
          world = f.world;
        })

-- For every message size above 128 and a buffer of 1024 bytes, one_operation writes behind the
-- end of the buffer, because the loop index counts bytes and the array has words.
pub one_operation_overrun :
    (os : Os) (conn_fd : Fd) (m : ℕ) (t : Local) (w : os.World)
    → 128 < m
    → length t.buf ≡ buf_size
    → one_operation os conn_fd (pos m) t w ≡ fault
unfolding one_operation
one_operation_overrun os conn_fd m t w large size =
    rw (fill_words-overrun (rounds_of (pos m)) 0 t w (omega arith) (omega arith)) refl

pub int_lt-le : (n : ℤ) (m : ℕ) → int_lt n (pos m) ≡ false → m ≤ pos_part n
int_lt-le (pos n) m h = ground arith
int_lt-le (negsuc n) m h = ground arith

module _ {os : Os} (laws : SocketLaws os) (fd : Fd) where
  open os use {World}

  -- A message that went out and came back: `m` bytes each way, the answer in the buffer.
  pub record Exchanged (m : ℕ) (t : Local) (w : World) (r : Local) (w' : World) : Type 0 where
    pub sent : List ℕ
    pub got : List ℕ
    pub moved : Moved laws fd w w' got sent
    pub sends : length sent ≡ m
    pub stores : take m r.buf ≡ got
    pub gets : length got ≡ m
    pub keeps : length r.buf ≡ length t.buf
    pub fresh : 8 ≤ m → take 8 sent ≡ bytes64 (next_rng t.rng_state)

  pub exchanged :
      (m : ℕ) (t : Local) (w : World)
      → m ≤ 128
      → length t.buf ≡ buf_size
      → (r : Local) (v : World) → Fresh m t w r v
      → (n : ℤ) (u : World) → Sent laws fd m r.buf v n u
      → int_lt n (pos m) ≡ false
      → (a : ℤ × List ℕ) (x : World) → Received laws fd m r.buf u a x
      → int_lt a.0 (pos m) ≡ false
      → Exchanged m t w (record r { buf = a.1 }) x
  exchanged m t w small size r v f n u put whole a x got all =
      let count : length got.bytes ≡ m =
        omega (arith, got.counted, got.short, int_lt-le a.0 m all) in
      let length_taken : length (take m r.buf) ≡ m =
        length-take_le laws fd m r.buf (omega (arith, f.keeps)) in
      let whole_out : take (pos_part n) (take m r.buf) ≡ take m r.buf =
        take_all (pos_part n) (take m r.buf) (omega (arith, length_taken, int_lt-le n m whole)) in
      record {
        sent = take m r.buf;
        got = got.bytes;
        moved =
            Moved-ask laws fd w u x got.bytes (take m r.buf)
              (subst (λ z. Moved laws fd z u [] (take m r.buf)) f.world
                (subst (Moved laws fd v u []) whole_out put.moved))
              got.moved;
        sends = length_taken;
        stores = ap (take m) got.stored ∙ take-fill m r.buf got.bytes (sym count);
        gets = count;
        keeps =
            ap length got.stored ∙ length-fill r.buf got.bytes (omega (arith, f.keeps)) ∙ f.keeps;
        fresh = λ h. take-take 8 m r.buf h ∙ f.front (omega arith);
      }

  -- For a message size m of at most 128 and a buffer of 1024 bytes, one_operation exits with
  -- status -1 or ends with m bytes sent and m bytes received, the answer in front of its
  -- buffer, and the message starting with the next word of the generator when m is at least 8.
  pub one_operation-Exchanged :
      (m : ℕ) (t : Local) (w : World)
      → m ≤ 128
      → length t.buf ≡ buf_size
      → EndsOrFails (Exchanged m t w) (one_operation os fd (pos m) t w)
  unfolding one_operation
  one_operation-Exchanged m t w small size =
      bind_or_fail _ (Ends-EndsOrFails (fill_words-Fresh m (rounds_of (pos m)) t w refl small size))
        λ r v f.
          bind_or_fail _
            (Ends-EndsOrFails (send_from-Ends laws fd m r.buf v (omega (arith, f.keeps))))
            λ n u put. elim (Bool-cases (int_lt n (pos m))) [
              | inl short ↦ rw short (stops refl)
              | inr whole ↦ rw whole (
                  bind_or_fail _
                    (Ends-EndsOrFails (recv_into-Ends laws fd m r.buf u (omega (arith, f.keeps))))
                    λ a x got. elim (Bool-cases (int_lt a.0 (pos m))) [
                      | inl cut ↦ rw cut (stops refl)
                      | inr all ↦
                          rw all (done (exchanged m t w small size r v f n u put whole a x got all))
                    ])
            ]
