-- ===== src/Dma/Alloc.antt =====
-- The allocator dma_alloc_aligned of i10e.c and x710.c.
use echo_server.Prelude.{
  ℕ, ◌+◌, ◌-◌, ◌*◌, ◌/◌, ◌%◌, ◌^◌, ◌≤◌, ◌<◌, ◌≡◌, ap, ◌∙◌, refl, false, inl, inr, leb, ltb,
  Bool-cases, arith,
}
use native.Mathlib.Nat.{
  one-le-pow, pow-le-pow_right, div-mul-le_self, mod-eq_of_lt, mul-mod_left, lt-div-mul-add,
}
use echo_server.Posix.Ends.{Ends, ends, EndsOrFails, done, stops}
use echo_server.Dma.{Dma, dma_size, round_up, u64, dma_alloc_aligned}

-- The region lies in the address space, and the next free address in it, or at its end.
pub record IsRegion (d : Dma) : Type 0 where
  pub mapped : d.region + dma_size < 2 ^ 63
  pub above : d.region ≤ d.next_free
  pub inside : d.next_free ≤ d.region + dma_size

-- The block `[ret, ret + size)`: aligned, behind all that was allocated, in the region.
pub record Block (size align_exp : ℕ) (d : Dma) (ret : ℕ) (d' : Dma) : Type 0 where
  pub region : d'.region ≡ d.region
  pub aligned : ret % 2 ^ align_exp ≡ 0
  pub behind : d.next_free ≤ ret
  pub close : ret < d.next_free + 2 ^ align_exp
  pub next : d'.next_free ≡ ret + size
  pub inside : IsRegion d'

pow_small : (e : ℕ) → e < 31 → (0 < 2 ^ e) × (2 ^ e ≤ 2 ^ 30)
pow_small e h = (
  one-le-pow e 2 (omega arith),
  pow-le-pow_right {n = 2} (omega arith) {i = e} {j = 30} (omega arith),
)

module _ (x e : ℕ) (hx : x < 2 ^ 63) (he : e < 31) where
  top : ℕ
  top = x + (2 ^ e - 1)

  top-lt : top < 2 ^ 64
  unfolding top
  top-lt = omega (arith, pow_small e he)

  floor-le : top / 2 ^ e * 2 ^ e ≤ top
  floor-le = div-mul-le_self top (2 ^ e)

  -- Rounding up does not wrap.
  round_up-eq : round_up x e ≡ top / 2 ^ e * 2 ^ e
  unfolding top round_up
  round_up-eq =
      ap (λ y. u64 (y / 2 ^ e * 2 ^ e)) (mod-eq_of_lt top-lt)
      ∙ mod-eq_of_lt (omega (arith, floor-le, top-lt))

  pub round_up_lem : (round_up x e % 2 ^ e ≡ 0) × (x ≤ round_up x e) × (round_up x e < x + 2 ^ e)
  unfolding top
  round_up_lem = rw round_up-eq (
    mul-mod_left (top / 2 ^ e) (2 ^ e),
    omega (arith, lt-div-mul-add {a = top} {b = 2 ^ e} (pow_small e he).0),
    omega (arith, floor-le, pow_small e he),
  )

module _ (size e : ℕ) (d : Dma) (r : IsRegion d) (he : e < 31) (hs : size < 2 ^ 62) where
  small : leb 31 e ≡ false
  small = ground arith

  low : d.next_free < 2 ^ 63
  low = omega (arith, r.inside, r.mapped)

  abbrev ret : ℕ
  ret = round_up d.next_free e

  abbrev lands : (ret % 2 ^ e ≡ 0) × (d.next_free ≤ ret) × (ret < d.next_free + 2 ^ e)
  lands = round_up_lem d.next_free e low he

  taken :
      ltb (u64 (d.region + dma_size)) (u64 (ret + size)) ≡ false
      → Block size e d ret (record d { next_free = u64 (ret + size) })
  taken room = record {
    region = refl;
    aligned = lands.0;
    behind = lands.1;
    close = lands.2;
    next = omega (arith, lands, pow_small e he);
    inside = record {
      mapped = r.mapped;
      above = omega (arith, lands, r.above, pow_small e he);
      inside = ground (arith, r.mapped);
    };
  }

  -- For an alignment exponent below 31 and a size below 2^62, dma_alloc_aligned from a valid
  -- region either gives an aligned block inside the region that overlaps no earlier one, or
  -- exits with status -1.
  pub dma_alloc_aligned-Block : EndsOrFails (Block size e d) (dma_alloc_aligned size e d)
  unfolding dma_alloc_aligned
  dma_alloc_aligned-Block =
      rw small
        (elim (Bool-cases (ltb (u64 (d.region + dma_size)) (u64 (round_up d.next_free e + size)))) [
          | inl out ↦ rw out (stops refl)
          | inr room ↦ rw room (done (taken room))
        ])

  -- Where the rest of the region holds the block and the padding, dma_alloc_aligned ends
  -- normally: the block is aligned, behind all that was allocated, no further than the
  -- alignment asks, inside the region, and the next free address is its end.
  pub dma_alloc_aligned-Ends :
      d.next_free + (2 ^ e - 1) + size ≤ d.region + dma_size
      → Ends (Block size e d) (dma_alloc_aligned size e d)
  unfolding dma_alloc_aligned
  dma_alloc_aligned-Ends fits = rw (small, room) (ends (taken room))
    where
      room : ltb (u64 (d.region + dma_size)) (u64 (ret + size)) ≡ false
      room = ground (arith, lands, pow_small e he, r.mapped)
