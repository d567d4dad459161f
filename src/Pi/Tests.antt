-- ===== src/Pi/Tests.antt =====
-- The power by squaring with a multiplication that overflows.
use echo_server.Prelude.{
  ℕ, zero, suc, true, ap, sym, ◌∙◌, ◌+◌, ◌*◌, ◌^◌, ◌≡◌, refl, ◌≤◌, some, ltb, if◌then◌else◌, arith,
}
use native.Mathlib.Nat.{mul_assoc, zero-add, one-mul, pow-zero, pow-succ', pow-le-pow_right}
use echo_server.Pi.{Float, custom_pow}
use echo_server.Pi.Powers.{Exact, custom_pow-power}

-- Numbers of 16 bits, with 0 for what does not fit.
abbrev small : Float ℕ
small = record {
  zero_value = 0;
  one = 1;
  minus_one = 0;
  add = λ a b. if ltb (a + b) 65536 then a + b else 0;
  mul = λ a b. if ltb (a * b) 65536 then a * b else 0;
  divide = λ a b. 0;
  from_unsigned = λ n. n;
}

pow_add : (a b : ℕ) → 3 ^ a * 3 ^ b ≡ 3 ^ (a + b)
pow_add zero b =
    ap (λ u. u * 3 ^ b) (pow-zero 3) ∙ one-mul (3 ^ b) ∙ ap (λ m. 3 ^ m) (sym (zero-add b))
pow_add (suc a) b =
    let same : suc (a + b) ≡ suc a + b = omega arith in
    ap (λ u. u * 3 ^ b) (pow-succ' 3 a)
    ∙ mul_assoc 3 (3 ^ a) (3 ^ b)
    ∙ ap (λ u. 3 * u) (pow_add a b)
    ∙ sym (pow-succ' 3 (a + b))
    ∙ ap (λ m. 3 ^ m) same

fits : (a b : ℕ) → a + b ≤ 10 → ltb (3 ^ a * 3 ^ b) 65536 ≡ true
fits a b h =
    ground (arith, pow_add a b, pow-le-pow_right {n = 3} (omega arith) {i = a + b} {j = 10} h)

three-Exact : Exact small 3 10 (λ n. 3 ^ n)
three-Exact = record {
  at_zero = refl;
  at_one = refl;
  product = λ a b h. rw (fits a b h) (pow_add a b);
}

custom_pow-power_example : custom_pow small 64 3 10 ≡ some 59049
custom_pow-power_example = custom_pow-power small three-Exact 10 (omega arith) (omega arith)
