-- ===== src/Multiclient/Claims.antt =====
-- multiclient.c, `try_claim_spot`: how many of the processes that are started go on.
use echo_server.Prelude.{
  ℕ, zero, suc, ◌+◌, ◌-◌, ◌≡◌, refl, ap, min, ℤ, pos, negsuc, pos_part, arith,
}
use echo_server.Posix.{Run, ok, exit, fault}
use echo_server.Redis.{RedisOs, command}
use echo_server.Redis.Laws.{RedisLaws}
use echo_server.Multiclient.{try_claim_spot}

module _ {W : Type 0} where
  -- one if the process goes on
  abbrev claimed : Run W (Unit {0}) → ℕ
  claimed (ok tt w) = 1
  claimed _ = 0

  -- The world that it leaves to the others, `w` if it is undefined.
  abbrev left_by : W → Run W (Unit {0}) → W
  left_by w (ok tt w') = w'
  left_by w (exit s w') = w'
  left_by w fault = w

-- `n` processes that claim one after the other, in the order in which the server gets their
-- commands, with what else happens in between: the number that go on.
abbrev pub claim_all :
    (redis : RedisOs) (n : ℕ) (between : ℕ → redis.sys.os.World → redis.sys.os.World)
    → redis.sys.os.World
    → ℕ
claim_all redis zero between w = 0
claim_all redis (suc n) between w =
    claimed (try_claim_spot redis w)
    + claim_all redis n between (between n (left_by w (try_claim_spot redis w)))

module _ {redis : RedisOs} (laws : RedisLaws redis) where
  open laws use {numclients_of}
  open redis.sys.os use {World}

  -- One claim, by the value of the key before it.
  pub try_claim_spot-claims :
      (w : World) (v : ℤ)
      → numclients_of w ≡ v
      → (claimed (try_claim_spot redis w) ≡ min 1 (pos_part v))
        × (pos_part (numclients_of (left_by w (try_claim_spot redis w))) ≡ pos_part v - 1)
  unfolding try_claim_spot command
  try_claim_spot-claims w (pos zero) h = (
    rw (try_claim_spot, command, laws.decr_reply w, h),
    rw (try_claim_spot, command, laws.decr_reply w, h, laws.decr_value w, h),
  )
  try_claim_spot-claims w (pos (suc n)) h = (
    rw (try_claim_spot, command, laws.decr_reply w, h) (omega arith),
    rw (try_claim_spot, command, laws.decr_reply w, h, laws.decr_value w, h) (omega arith),
  )
  try_claim_spot-claims w (negsuc n) h = (
    rw (try_claim_spot, command, laws.decr_reply w, h),
    rw (try_claim_spot, command, laws.decr_reply w, h, laws.decr_value w, h),
  )

  -- Of n processes that claim a place one after the other, with steps in between that do not
  -- change the number of places, as many go on as there are places, and all n if there are
  -- enough.
  pub claim_all-min :
      (n : ℕ) (between : ℕ → World → World) (w : World)
      → ((i : ℕ) (v : World) → numclients_of (between i v) ≡ numclients_of v)
      → claim_all redis n between w ≡ min n (pos_part (numclients_of w))
  claim_all-min zero between w h = omega arith
  claim_all-min (suc n) between w h =
      let one = try_claim_spot-claims w (numclients_of w) refl in
      let after = left_by w (try_claim_spot redis w) in
      let rest = claim_all-min n between (between n after) h in
      omega (arith, one.0, one.1, rest, ap pos_part (h n after))
