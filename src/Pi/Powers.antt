-- ===== src/Pi/Powers.antt =====
-- What custom_pow of go/pi.c gives where the products are exact.
use echo_server.Prelude.{
  ℕ, zero, suc, ◌+◌, ◌*◌, ◌/◌, ◌%◌, ◌^◌, ◌≤◌, ◌<◌, ◌≡◌, ◌≢◌, ap, ◌∙◌, sym, Bool-cases, inl, inr,
  some, ◌==◌, arith,
}
use native.Mathlib.Nat.{mul-add, add-mul}
use echo_server.Pi.{Float, square_loop, custom_pow}

halves : (b n : ℕ) → b * n ≡ (b + b) * (n / 2) + b * (n % 2)
halves b n =
    let cut : n ≡ n / 2 + n / 2 + n % 2 = omega arith in
    ap (λ m. b * m) cut
    ∙ mul-add b (n / 2 + n / 2) (n % 2)
    ∙ ap (λ m. m + b * (n % 2)) (mul-add b (n / 2) (n / 2) ∙ sym (add-mul b b (n / 2)))

halves_odd : (b n : ℕ) → n % 2 ≡ 1 → b * n ≡ b + (b + b) * (n / 2)
halves_odd b n h = halves b n ∙ ap (λ r. (b + b) * (n / 2) + b * r) h ∙ omega arith

halves_even : (b n : ℕ) → n % 2 ≢ 1 → b * n ≡ (b + b) * (n / 2)
halves_even b n h =
    let even : n % 2 ≡ 0 = omega arith in
    halves b n ∙ ap (λ r. (b + b) * (n / 2) + b * r) even ∙ omega arith

at_least : (b n : ℕ) → 0 < n → b ≤ b * n
at_least b zero h = absurd (omega arith)
at_least b (suc n) h = omega (arith, mul-add b n 1)

pub half-lt : (k n : ℕ) → n < 2 ^ suc k → n / 2 < 2 ^ k
half-lt k n h = omega arith

module _ {F : Type 0} (float : Float F) where
  -- The powers of `x` up to `limit`, with exact products: nothing is rounded, and nothing overflows.
  pub record Exact (x : F) (limit : ℕ) (power : ℕ → F) : Type 0 where
    pub at_zero : power 0 ≡ float.one
    pub at_one : power 1 ≡ x
    pub product : (a b : ℕ) → a + b ≤ limit → float.mul (power a) (power b) ≡ power (a + b)

  module _ {x : F} {limit : ℕ} {power : ℕ → F} (exact : Exact x limit power) where
    square_loop-power :
        (k n a b : ℕ) (y z : F)
        → n < 2 ^ k
        → a + b * n ≤ limit
        → y ≡ power a
        → (0 < n → z ≡ power b)
        → square_loop float k z n y ≡ some (power (a + b * n))
    unfolding square_loop
    square_loop-power k zero a b y z bound fits ey ez = ap some (ey ∙ ap power (omega arith))
    square_loop-power zero (suc n) a b y z bound fits ey ez = absurd (omega arith)
    square_loop-power (suc k) (suc n) a b y z bound fits ey ez =
        let at = ez (omega arith) in
        let within = at_least b (suc n) (omega arith) in
        let squared : b + b ≤ limit → float.mul z z ≡ power (b + b) =
          λ h. ap (λ u. float.mul u u) at ∙ exact.product b b h in
        elim (Bool-cases (suc n % 2 == 1)) [
          | inl odd ↦
              let cut = halves_odd b (suc n) (ground arith) in
              rw (square_loop, odd)
                (square_loop-power k (suc n / 2) (a + b) (b + b) _ _ (half-lt k (suc n) bound)
                    (omega (arith, cut))
                    (ap (λ u. float.mul u z) ey
                      ∙ ap (float.mul (power a)) at
                      ∙ exact.product a b (omega arith))
                    (λ more. squared (omega (arith, cut, at_least (b + b) (suc n / 2) more)))
                  ∙ ap (λ m. some (power m)) (omega (arith, cut)))
          | inr even ↦
              let cut = halves_even b (suc n) (ground arith) in
              rw (square_loop, even)
                (square_loop-power k (suc n / 2) a (b + b) _ _ (half-lt k (suc n) bound)
                    (omega (arith, cut)) ey
                    (λ more. squared (omega (arith, cut, at_least (b + b) (suc n / 2) more)))
                  ∙ ap (λ m. some (power m)) (omega (arith, cut)))
        ]

    -- Where the powers of x up to a limit have exact products in the arithmetic that is used,
    -- and n is at most the limit and below 2^64, custom_pow gives the n-th power, and 64 rounds
    -- of its loop are enough; products beyond the limit, such as the last square, may be
    -- anything.
    pub custom_pow-power :
        (n : ℕ) → n < 2 ^ 64 → n ≤ limit → custom_pow float 64 x n ≡ some (power n)
    unfolding custom_pow
    custom_pow-power n bound fits = elim (Bool-cases (n == 0)) [
      | inl none_left ↦
          rw (custom_pow, none_left) (ap some (sym exact.at_zero ∙ ap power (ground arith)))
      | inr some_left ↦
          rw (custom_pow, some_left)
            (square_loop-power 64 n 0 1 float.one x bound (omega arith) (sym exact.at_zero)
                (λ h. sym exact.at_one)
              ∙ ap (λ m. some (power m)) (omega arith))
    ]
