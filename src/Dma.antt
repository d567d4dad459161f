-- ===== src/Dma.antt =====
-- The memory that the drivers i10e.c and x710.c share with their network card: addresses as the
-- program and as the card see them, and the allocator. The two files hold the same functions, with
-- their own `DMA_IOVA_OFFSET`.
pub mod Address
pub mod Alloc
mod Tests
use echo_server.Prelude.{ℕ, ◌+◌, ◌-◌, ◌*◌, ◌/◌, ◌%◌, ◌^◌, leb, ltb, if◌then◌else◌}
use echo_server.Posix.{Run, ok, exit, fault, Cmd, failed}

abbrev pub u64 : ℕ → ℕ
u64 n = n % 2 ^ 64

abbrev pub u32 : ℕ → ℕ
u32 n = n % 2 ^ 32

-- `DMA_SIZE`
abbrev pub dma_size : ℕ
dma_size = 64 * 1024 * 1024

-- `dma_region` and `dma_next_free_addr`
pub record Dma : Type 0 where
  pub region : ℕ
  pub next_free : ℕ

-- `(a - dma_region) + DMA_IOVA_OFFSET`, on 64 bits
unfoldable pub vaddr_to_iovaddr : (offset : ℕ) → Dma → ℕ → ℕ
vaddr_to_iovaddr offset d a = u64 (u64 (a + 2 ^ 64 - d.region) + offset)

unfoldable pub iovaddr_to_vaddr : (offset : ℕ) → Dma → ℕ → ℕ
iovaddr_to_vaddr offset d a = u64 (u64 (a + 2 ^ 64 - offset) + d.region)

unfoldable pub u64_high : ℕ → ℕ
u64_high a = u32 (a / 2 ^ 32)

unfoldable pub u64_low : ℕ → ℕ
u64_low a = u32 a

-- `((next + ((1 << align_exp) - 1)) >> align_exp) << align_exp`, on 64 bits
unfoldable pub round_up : ℕ → ℕ → ℕ
round_up next align_exp = u64 (u64 (next + (2 ^ align_exp - 1)) / 2 ^ align_exp * 2 ^ align_exp)

-- A block of `size` bytes. `1 << align_exp` is an `int`, so that a shift by 31 or more is undefined.
unfoldable pub dma_alloc_aligned : (size align_exp : ℕ) → Cmd Dma ℕ
dma_alloc_aligned size align_exp d =
    if leb 31 align_exp
    then fault
    else let ret = round_up d.next_free align_exp in
      let next = u64 (ret + size) in
      let d' = record d { next_free = next } in
      if ltb (u64 (d.region + dma_size)) next then exit failed d' else ok ret d'
