-- ===== src/Dma/Address.antt =====
-- The two views of a shared address in i10e.c and x710.c, and the halves that a register takes.
use echo_server.Prelude.{ℕ, ◌+◌, ◌-◌, ◌*◌, ◌^◌, ◌≤◌, ◌<◌, ◌≡◌, arith}
use echo_server.Dma.{Dma, dma_size, vaddr_to_iovaddr, iovaddr_to_vaddr, u64_high, u64_low}

-- For 64-bit addresses, offset and region, the two translations between the addresses of the
-- program and those of the card are inverse to each other.
pub iovaddr_to_vaddr-vaddr_to_iovaddr :
    (offset a : ℕ) (d : Dma)
    → a < 2 ^ 64
    → offset < 2 ^ 64
    → d.region < 2 ^ 64
    → (iovaddr_to_vaddr offset d (vaddr_to_iovaddr offset d a) ≡ a)
      × (vaddr_to_iovaddr offset d (iovaddr_to_vaddr offset d a) ≡ a)
unfolding vaddr_to_iovaddr iovaddr_to_vaddr
iovaddr_to_vaddr-vaddr_to_iovaddr offset a d ha ho hr = omega arith

-- An address in the region is translated to its distance from the start of the region plus the
-- offset, which lies within the region as the card sees it, where neither view reaches the end
-- of the address space.
pub vaddr_to_iovaddr_range :
    (offset a : ℕ) (d : Dma)
    → d.region + dma_size < 2 ^ 64
    → offset + dma_size < 2 ^ 64
    → d.region ≤ a
    → a < d.region + dma_size
    → (vaddr_to_iovaddr offset d a ≡ offset + (a - d.region))
      × (vaddr_to_iovaddr offset d a < offset + dma_size)
unfolding vaddr_to_iovaddr
vaddr_to_iovaddr_range offset a d hr ho lo hi = omega arith

-- The two halves of a 64-bit address that go into two registers are 32-bit numbers and give the
-- address back.
pub u64_low-u64_high :
    (a : ℕ)
    → a < 2 ^ 64
    → (u64_low a + 2 ^ 32 * u64_high a ≡ a) × (u64_low a < 2 ^ 32) × (u64_high a < 2 ^ 32)
unfolding u64_low u64_high
u64_low-u64_high a h = omega arith
