-- ===== src/Vfio/Mapped.antt =====
-- What a set-up leaves behind that has ended: a region of memory that the card can use.

use echo_server.Prelude.{
  int_eq-eq, ℕ, ◌+◌, ◌^◌, ◌%◌, ◌<◌, ◌≡◌, refl, ap, Bool-cases, inl, inr, pos, not, int_eq, arith,
}
use echo_server.Posix.{Fd}
use echo_server.Posix.Ends.{EndsOrFails, done, stops}
use echo_server.Dma.{Dma, dma_size}
use echo_server.Dma.Alloc.{IsRegion}
use echo_server.Vfio.{VfioOs, DmaMap, fresh_memory, map_memory}

-- The IOMMU takes whole pages of the memory of the process, which lies in the lower half of the
-- addresses.
pub record Iommu (vfio : VfioOs) : Type 0 where
  pub whole_pages :
      (container : Fd) (m : DmaMap) (w : vfio.World)
      → (vfio.map_dma container m w).0 ≡ pos 0
      → m.vaddr % 4096 ≡ 0
  pub of_process :
      (container : Fd) (m : DmaMap) (w : vfio.World)
      → (vfio.map_dma container m w).0 ≡ pos 0
      → m.vaddr + m.size < 2 ^ 47

module _ (vfio : VfioOs) where
  open vfio use {World, map_dma}

  -- The IOMMU of the container has mapped the region `d`, nothing of which is taken, at `iova`.
  pub record MappedAt (iova : ℕ) (container : Fd) (d : Dma) (w : World) : Type 0 where
    pub before : World
    pub accepted :
        map_dma container (record { vaddr = d.region; iova = iova; size = dma_size }) before
        ≡ (pos 0, w)
    pub new : d.next_free ≡ d.region
    pub pages : d.region % 4096 ≡ 0
    pub region : IsRegion d

module _ (vfio : VfioOs) (laws : Iommu vfio) where
  open vfio use {World, mmap, map_dma}

  pub map_memory-MappedAt :
      (iova : ℕ) (container : Fd) (w : World)
      → EndsOrFails (λ d w'. MappedAt vfio iova container d w') (map_memory vfio iova container w)
  unfolding map_memory
  map_memory-MappedAt iova container w =
      let at = mmap (fresh_memory dma_size) w in
      let m : DmaMap = record { vaddr = at.0; iova = iova; size = dma_size } in
      let mapped = map_dma container m at.1 in
      elim (Bool-cases (not (int_eq mapped.0 (pos 0)))) [
        | inl bad ↦ rw bad (stops refl)
        | inr good ↦
            let zero_back : mapped.0 ≡ pos 0 = int_eq-eq mapped.0 (pos 0) (ground arith) in
            rw good (
              done (record {
                before = at.1;
                accepted = ap (λ r. (r, mapped.1)) zero_back;
                new = refl;
                pages = laws.whole_pages container m at.1 zero_back;
                region = record {
                  mapped = omega (arith, laws.of_process container m at.1 zero_back);
                  above = omega arith;
                  inside = omega arith;
                };
              }))
      ]
