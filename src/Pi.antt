-- ===== src/Pi.antt =====
-- go/pi.c: the power by squaring and the sum of a series that each thread works out.
pub mod Powers
pub mod Series
pub mod Threads
mod Tests
use echo_server.Prelude.{
  ℕ, zero, suc, ◌+◌, ◌*◌, ◌/◌, ◌%◌, ◌^◌, true, false, Option, none, some, ◌==◌, if◌then◌else◌,
}

-- `float64`, the type `long double` of C, whose arithmetic is not part of the repository.
-- `from_unsigned` converts a 64-bit integer, and `minus_one` is the converted -1.
pub record Float (F : Type 0) : Type 0 where
  pub zero_value : F
  pub one : F
  pub minus_one : F
  pub add : F → F → F
  pub mul : F → F → F
  pub divide : F → F → F
  pub from_unsigned : ℕ → F

infixl 5 ◌>>=◌
abbrev pub ◌>>=◌ : {A B : Type 0} → Option A → (A → Option B) → Option B
none >>= f = none
some a >>= f = f a

module _ {F : Type 0} (float : Float F) where
  open float use {zero_value, one, minus_one, add, mul, divide, from_unsigned}

  -- `while (n > 0)`, at most `k` rounds
  unfoldable pub square_loop : (k : ℕ) → (x : F) → (n : ℕ) → (y : F) → Option F
  square_loop k x zero y = some y
  square_loop zero x (suc n) y = none
  square_loop (suc k) x (suc n) y =
      let y' = if suc n % 2 == 1 then mul y x else y in square_loop k (mul x x) (suc n / 2) y'

  unfoldable pub custom_pow : (k : ℕ) → (x : F) → (n : ℕ) → Option F
  custom_pow k x n = elim (n == 0) [ true ↦ some one | false ↦ square_loop k x n one ]

  -- A round of the loop of oneThread, with 64-bit indices.
  unfoldable pub add_term : (k : ℕ) → (x : F) → (n : ℕ) → (a : F) → Option F
  unfolding custom_pow
  add_term k x n a = do
    let index = (2 * n + 1) % 2 ^ 64
    sign ← custom_pow k minus_one n
    power ← custom_pow k x index
    some (add a (divide (mul sign power) (from_unsigned index)))

  -- Its rounds from `n` on, as many as are `left`.
  unfoldable pub add_terms : (k : ℕ) → (x : F) → (left n : ℕ) → (a : F) → Option F
  unfolding add_term
  add_terms k x zero n a = some a
  add_terms k x (suc left) n a = do a' ← add_term k x n a; add_terms k x left (n + 1) a'

  -- What oneThread prints in the end, for the random number `x`.
  unfoldable pub one_thread : (k : ℕ) → (num_iters : ℕ) → (x : F) → Option F
  unfolding add_terms
  one_thread k num_iters x = add_terms k x num_iters 0 zero_value
