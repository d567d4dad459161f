-- ===== src/Client/Rng.antt =====
-- The generator of the words that client.c sends.
use echo_server.Prelude.{ℕ, ◌^◌, ◌<◌, ◌≡◌, ◌≢◌, arith}
use echo_server.Client.{next_rng}

-- No state of the generator is its own successor.
pub next_rng-no_fixpoint : (x : ℕ) → next_rng x ≢ x
unfolding next_rng
next_rng-no_fixpoint x = omega arith

-- Two 64-bit states of the generator with the same successor are equal.
pub next_rng-injective : (x y : ℕ) → x < 2 ^ 64 → y < 2 ^ 64 → next_rng x ≡ next_rng y → x ≡ y
unfolding next_rng
next_rng-injective x y hx hy e = omega arith
