-- ===== src/Dma/Tests.antt =====
-- The shared memory of the drivers at a concrete region.
use echo_server.Prelude.{ℕ, ◌+◌, ◌^◌, ◌≡◌, refl, arith}
use echo_server.Posix.{ok}
use echo_server.Posix.Ends.{EndsOrFails}
use echo_server.Dma.{Dma, vaddr_to_iovaddr, iovaddr_to_vaddr, round_up, dma_alloc_aligned}
use echo_server.Dma.Address.{iovaddr_to_vaddr-vaddr_to_iovaddr}
use echo_server.Dma.Alloc.{IsRegion, Block, dma_alloc_aligned-Block}

abbrev base : ℕ
base = 2 ^ 40

abbrev some_used : Dma
some_used = record { region = 2 ^ 40; next_free = 2 ^ 40 + 100 }

some_used-IsRegion : IsRegion some_used
some_used-IsRegion = record { mapped = omega arith; above = omega arith; inside = omega arith }

dma_alloc_aligned-Block_example :
    EndsOrFails (Block 2048 7 some_used) (dma_alloc_aligned 2048 7 some_used)
dma_alloc_aligned-Block_example =
    dma_alloc_aligned-Block 2048 7 some_used some_used-IsRegion (omega arith) (omega arith)

iovaddr_to_vaddr-vaddr_to_iovaddr_example :
    (iovaddr_to_vaddr (2 ^ 20) some_used (vaddr_to_iovaddr (2 ^ 20) some_used (base + 5))
      ≡ base + 5)
    × (vaddr_to_iovaddr (2 ^ 20) some_used (iovaddr_to_vaddr (2 ^ 20) some_used (base + 5))
        ≡ base + 5)
iovaddr_to_vaddr-vaddr_to_iovaddr_example =
    iovaddr_to_vaddr-vaddr_to_iovaddr (2 ^ 20) (base + 5) some_used (omega arith) (omega arith)
      (omega arith)

alloc_run :
    dma_alloc_aligned 2048 7 some_used
    ≡ ok (2 ^ 40 + 128) (record some_used { next_free = 2 ^ 40 + 128 + 2048 })
unfolding dma_alloc_aligned round_up
alloc_run = refl
