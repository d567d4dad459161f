-- ===== src/Simple/Greet.antt =====
-- The greeting of a connection in simple.c: the header out, two bytes in.
use mathlib.Core.Path.{subst}
use echo_server.Prelude.{
  ℕ, ◌≤◌, ◌<◌, ◌≡◌, refl, ap, ◌∙◌, Bool, true, false, ◌||◌, Option, none, some, inl, inr, List, [],
  ℤ, pos, negsuc, pos_part, below, below-le, is_nonpos, to_size, ltb, if◌then◌else◌, Bool-cases,
  arith, length, take, take_all, IsPrefix, IsPrefix-refl, IsPrefix-take,
}
use echo_server.Posix.{Os, Fd, htonl, bytes32}
use echo_server.Posix.Laws.{SocketLaws, Reliable, Moved, Moved-trans}
use echo_server.Posix.Calls.{Received, Sent, recv_into-Ends, send_from-Ends, length-fill}
use echo_server.Posix.Ends
use echo_server.Posix.Ends.{Ends, ends}
use echo_server.Simple.{greet}

-- What the server announces: the message size as `htonl` stores it.
abbrev pub header : ℕ → List ℕ
header m = bytes32 (htonl m)

abbrev pub is_some {ℓ} : {A : Type ℓ} → Option A → Bool
is_some none = false
is_some (some _) = true

-- A greeting that went through has sent the header whole and read two bytes; one that failed has
-- sent the beginning of the header and read at most one byte, and that only after the header.
abbrev pub GreetedSo : (m : ℕ) (buf : List ℕ) → Option (List ℕ) → (got sent : List ℕ) → Type 0
GreetedSo m buf none got sent =
    IsPrefix sent (header m) × (length got < 2) × (length got ≤ length sent)
GreetedSo m buf (some buf') got sent =
    (sent ≡ header m) × (length got ≡ 2) × (length buf' ≡ length buf)

-- `n <= 0 || (size_t)n < sizeof(msg_size_conv)`
abbrev cut_short : ℤ → Bool
cut_short n = is_nonpos n || ltb (to_size n) 4

cut_short-le : (n : ℤ) → cut_short n ≡ false → 4 ≤ pos_part n
cut_short-le (pos n) h = ground arith
cut_short-le (negsuc n) h = ground arith

not-cut_short : (n : ℤ) → cut_short n ≡ true → n ≡ pos 4 → ⊥
not-cut_short n h e = ground arith

short_count :
    (bytes : List ℕ) (n : ℤ) → below n 2 ≡ true → length bytes ≡ pos_part n → length bytes < 2
short_count bytes (pos n) h e = ground arith
short_count bytes (negsuc n) h e = omega arith

not_short : (n : ℤ) → below n 2 ≡ true → n ≡ pos 2 → ⊥
not_short n h e = ground arith

module _ {os : Os} (laws : SocketLaws os) (fd : Fd) where
  open os use {World}

  pub record Greeted (m : ℕ) (buf : List ℕ) (w : World) (r : Option (List ℕ)) (w' : World)
      : Type 0 where
    pub got : List ℕ
    pub sent : List ℕ
    pub moved : Moved laws fd w w' got sent
    pub outcome : GreetedSo m buf r got sent
    pub live : Reliable laws fd → 2 ≤ length (laws.input fd w) → is_some r ≡ true

  module _ (m : ℕ) (buf : List ℕ) (w : World) (fits : 2 ≤ length buf) where
    unsent :
        (n : ℤ) (v : World)
        → Sent laws fd 4 (header m) w n v
        → cut_short n ≡ true
        → Greeted m buf w none v
    unsent n v put bad = record {
      got = [];
      sent = take (pos_part n) (header m);
      moved = put.moved;
      outcome = (IsPrefix-take (pos_part n) (header m), omega arith, omega arith);
      live = λ good enough. absurd (not-cut_short n bad (put.full good));
    }

    announced :
        (n : ℤ) (v : World)
        → Sent laws fd 4 (header m) w n v
        → cut_short n ≡ false
        → Moved laws fd w v [] (header m)
    announced n v put good =
        subst (Moved laws fd w v []) (take_all (pos_part n) (header m) (cut_short-le n good))
          put.moved

    answered :
        (v : World)
        → Moved laws fd w v [] (header m)
        → (r : ℤ × List ℕ) (u : World) → Received laws fd 2 buf v r u
        → Greeted m buf w (if below r.0 2 then none else some r.1) u
    answered v out r u got = elim (Bool-cases (below r.0 2)) [
      | inl short ↦ rw short (record {
        got = got.bytes;
        sent = header m;
        moved = moved;
        outcome = (
          IsPrefix-refl (header m),
          short_count got.bytes r.0 short got.counted,
          omega (arith, got.short),
        );
        live = λ good enough.
            absurd (not_short r.0 short (got.full good (omega (arith, ap length out.reads))));
      })
      | inr whole ↦ rw whole (record {
        got = got.bytes;
        sent = header m;
        moved = moved;
        outcome = (
          refl,
          omega (arith, below-le r.0 2 whole, got.counted, got.short),
          ap length got.stored ∙ length-fill buf got.bytes (omega (arith, got.short)),
        );
        live = λ good enough. refl;
      })
    ]
      where
        moved : Moved laws fd w u got.bytes (header m)
        moved = Moved-trans laws fd w v u [] (header m) got.bytes [] out got.moved

    pub greet-Ends : Ends (Greeted m buf w) (greet os fd buf m w)
    unfolding greet
    greet-Ends = Ends.bind _ (send_from-Ends laws fd 4 (header m) w (omega arith)) λ n v put.
        elim (Bool-cases (cut_short n)) [
          | inl bad ↦ rw bad (ends (unsent n v put bad))
          | inr good ↦ rw good (
              Ends.bind _ (recv_into-Ends laws fd 2 buf v fits)
                λ r u got. ends (answered v (announced n v put good) r u got))
        ]
