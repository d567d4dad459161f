-- ===== src/Pi/Series.antt =====
-- The loop of oneThread of go/pi.c, the sign of its terms, and its rounds.
use echo_server.Prelude.{
  ℕ, zero, suc, ◌+◌, ◌*◌, ◌/◌, ◌%◌, ◌^◌, ◌≤◌, ◌<◌, ◌≡◌, refl, Bool-cases, inl, inr, true, false,
  Option, none, some, ◌==◌, if◌then◌else◌, arith,
}
use mathlib.Core.Option
use native.Mathlib.Nat.{mod-eq_of_lt}
use echo_server.Pi.{◌>>=◌, Float, square_loop, custom_pow, add_term, add_terms, one_thread}
use echo_server.Pi.Powers.{Exact, half-lt, custom_pow-power}

bind-map : {A B : Type 0} (o : Option A) (f : A → B) → (o >>= λ p. some (f p)) ≡ Option.map f o
bind-map none f = refl
bind-map (some a) f = refl

module _ {F : Type 0} (float : Float F) where
  -- What the arithmetic has for products of 1 and -1, which are not rounded.
  pub record Signs : Type 0 where
    pub one-one : float.mul float.one float.one ≡ float.one
    pub one-minus : float.mul float.one float.minus_one ≡ float.minus_one
    pub minus-one : float.mul float.minus_one float.one ≡ float.minus_one
    pub minus-minus : float.mul float.minus_one float.minus_one ≡ float.one

  abbrev pub sign : ℕ → F
  sign n = if n % 2 == 0 then float.one else float.minus_one

  sign-Exact : (limit : ℕ) → Signs → Exact float float.minus_one limit sign
  sign-Exact limit signs = record {
    at_zero = refl;
    at_one = refl;
    product = λ a b h. elim (Bool-cases (a % 2 == 0)) [
      | inl even_a ↦ elim (Bool-cases (b % 2 == 0)) [
        | inl even_b ↦
            let both : ((a + b) % 2 == 0) ≡ true = ground arith in
            rw (even_a, even_b, both) signs.one-one
        | inr odd_b ↦
            let both : ((a + b) % 2 == 0) ≡ false = ground arith in
            rw (even_a, odd_b, both) signs.one-minus
      ]
      | inr odd_a ↦ elim (Bool-cases (b % 2 == 0)) [
        | inl even_b ↦
            let both : ((a + b) % 2 == 0) ≡ false = ground arith in
            rw (odd_a, even_b, both) signs.minus-one
        | inr odd_b ↦
            let both : ((a + b) % 2 == 0) ≡ true = ground arith in
            rw (odd_a, odd_b, both) signs.minus-minus
      ]
    ];
  }

  -- Below 2^63 the index of a term does not wrap, and its sign is the one of the series.
  pub add_term-sign :
      (n : ℕ) (x a : F)
      → Signs
      → n < 2 ^ 63
      → add_term float 64 x n a
        ≡ Option.map
            (λ p.
              float.add a (float.divide (float.mul (sign n) p) (float.from_unsigned (2 * n + 1))))
            (custom_pow float 64 x (2 * n + 1))
  unfolding add_term
  add_term-sign n x a signs bound =
      let index : (2 * n + 1) % 2 ^ 64 ≡ 2 * n + 1 = mod-eq_of_lt (omega arith) in
      let s = custom_pow-power float (sign-Exact n signs) n (omega arith) (omega arith) in
      rw (add_term, s, index)
        (bind-map (custom_pow float 64 x (2 * n + 1))
          λ p. float.add a (float.divide (float.mul (sign n) p) (float.from_unsigned (2 * n + 1))))

  square_loop-Some :
      (k n : ℕ) (x y : F) → n < 2 ^ k → (v : F) × (square_loop float k x n y ≡ some v)
  unfolding square_loop
  square_loop-Some k zero x y h = (y, refl)
  square_loop-Some zero (suc n) x y h = absurd (omega arith)
  square_loop-Some (suc k) (suc n) x y h = square_loop-Some k (suc n / 2) _ _ (half-lt k (suc n) h)

  custom_pow-Some : (n : ℕ) (x : F) → n < 2 ^ 64 → (v : F) × (custom_pow float 64 x n ≡ some v)
  unfolding custom_pow
  custom_pow-Some n x h = elim (Bool-cases (n == 0)) [
    | inl none_left ↦ (float.one, rw (custom_pow, none_left) refl)
    | inr some_left ↦
        let r = square_loop-Some 64 n x float.one h in (r.0, rw (custom_pow, some_left) r.1)
  ]

  add_terms-Some :
      (left n : ℕ) (x a : F)
      → n + left ≤ 2 ^ 64
      → (v : F) × (add_terms float 64 x left n a ≡ some v)
  unfolding add_terms
  add_terms-Some zero n x a h = (a, refl)
  add_terms-Some (suc left) n x a h =
      let index = (2 * n + 1) % 2 ^ 64 in
      let s = custom_pow-Some n float.minus_one (omega arith) in
      let p = custom_pow-Some index x (omega arith) in
      let a' = float.add a (float.divide (float.mul s.0 p.0) (float.from_unsigned index)) in
      let r = add_terms-Some left (n + 1) x a' (omega arith) in (r.0, rw (add_term, s.1, p.1) r.1)

  -- With 64 rounds for each power, a thread works out its sum, whatever the number of its terms.
  pub one_thread-Some :
      (num_iters : ℕ) (x : F)
      → num_iters < 2 ^ 64
      → (v : F) × (one_thread float 64 num_iters x ≡ some v)
  unfolding one_thread
  one_thread-Some num_iters x h = add_terms-Some num_iters 0 x float.zero_value (omega arith)
