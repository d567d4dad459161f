-- ===== src/Prelude/Int.antt =====
-- C's signed integers as values: `negsuc n` is -(n + 1). Over the native numbers.
use Prim.Native.Nat.{ℕ, ◌+◌, ◌-◌, ◌%◌, ◌^◌, ◌≤◌, ◌<◌}
use mathlib.Core.Path.{◌≡◌, refl, ap}
use mathlib.Core.Bool.{Bool, true, false}
use native.Mathlib.Omega.{arith}
use native.Mathlib.Nat.{mod-eq_of_lt}
use echo_server.Prelude.Tests.{ltb, ◌==◌, if◌then◌else◌}

pub data ℤ : Type 0 where
  pos : ℕ → ℤ
  negsuc : ℕ → ℤ

abbrev pub pos_part : ℤ → ℕ
pos_part (pos n) = n
pos_part (negsuc n) = 0

-- `n < m` for a signed `n` and a non-negative `m`.
abbrev pub below : ℤ → ℕ → Bool
below (pos n) m = ltb n m
below (negsuc n) m = true

-- `n < 0`
abbrev pub is_neg : ℤ → Bool
is_neg (pos n) = false
is_neg (negsuc n) = true

-- `a == b`
abbrev pub int_eq : ℤ → ℤ → Bool
int_eq (pos a) (pos b) = a == b
int_eq (pos a) (negsuc b) = false
int_eq (negsuc a) (pos b) = false
int_eq (negsuc a) (negsuc b) = a == b

pub below-le : (n : ℤ) (m : ℕ) → below n m ≡ false → m ≤ pos_part n
below-le (pos n) m h = ground arith
below-le (negsuc n) m h = ground arith

-- `n <= 0`
abbrev pub is_nonpos : ℤ → Bool
is_nonpos (pos n) = n == 0
is_nonpos (negsuc n) = true

-- `(size_t) n`, 64 bits wide
abbrev pub to_size : ℤ → ℕ
to_size (pos n) = n
to_size (negsuc n) = 2 ^ 64 - (n + 1)

-- `a < b`
abbrev pub int_lt : ℤ → ℤ → Bool
int_lt (pos a) (pos b) = ltb a b
int_lt (pos a) (negsuc b) = false
int_lt (negsuc a) (pos b) = true
int_lt (negsuc a) (negsuc b) = ltb b a

-- The signed number that a 32-bit pattern stands for.
abbrev pub to_int32 : ℕ → ℤ
to_int32 x = if ltb x (2 ^ 31) then pos x else negsuc (2 ^ 32 - x - 1)

-- `n < m` for two signed numbers; where `m` is not negative it is `below`.
abbrev pub less : ℤ → ℤ → Bool
less n (pos m) = below n m
less n (negsuc m) = int_lt n (negsuc m)

-- `(uint32_t) n` of an int
abbrev pub to_uint32 : ℤ → ℕ
to_uint32 (pos n) = n
to_uint32 (negsuc n) = 2 ^ 32 - (n + 1)

-- `(int) n` of a wider number: its lowest 32 bits.
unfoldable pub int_of : ℤ → ℤ
int_of n = to_int32 (to_size n % 2 ^ 32)

pub int_of_small : (n : ℕ) → n < 2 ^ 31 → int_of (pos n) ≡ pos n
unfolding int_of
int_of_small n h = rw (mod-eq_of_lt {n = n} {m = 2 ^ 32} (omega arith), small) refl
  where
    small : ltb n (2 ^ 31) ≡ true
    small = ground arith

pub int_eq-eq : (a b : ℤ) → int_eq a b ≡ true → a ≡ b
int_eq-eq (pos a) (pos b) h = ap pos (ground arith)
int_eq-eq (pos a) (negsuc b) h = cc
int_eq-eq (negsuc a) (pos b) h = cc
int_eq-eq (negsuc a) (negsuc b) h = ap negsuc (ground arith)
