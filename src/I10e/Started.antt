-- ===== src/I10e/Started.antt =====
-- The memory that init_vfio of i10e.c leaves behind, and init_i10e in it.
use echo_server.Prelude.{
  ℕ, suc, ◌+◌, ◌≡◌, ◌≢◌, refl, Bool-cases, inl, inr, [], true, false, Option, none, some, ◌==◌,
  if◌then◌else◌, arith,
}
use echo_server.Posix.{Fd, Cmd, pure, ◌>>=◌}
use echo_server.Posix.Ends.{
  Ends, EndsOrFails, weaken_or_fail, IfOk, ended, exited, bind_if, any_if, EndsOrFails-IfOk,
}
use echo_server.Dma.{Dma}
use echo_server.Device.{Card}
use echo_server.Vfio.{
  VfioOs, Region, get, device_memory, bar0_region, config_region, map_failed, open_container,
  open_group, find_device, check_ranges, map_memory,
}
use echo_server.Vfio.Mapped.{Iommu, MappedAt, map_memory-MappedAt}
use echo_server.I10e.{RxRing, dma_iova_offset}
use echo_server.I10e.Ring.{Used}
use echo_server.I10e.Setup.{Attached, init_vfio}
use echo_server.I10e.Init.{init_i10e}
use echo_server.I10e.Registers.{Answers, RxSet, TxSet}
use echo_server.I10e.Enabled.{init_i10e-Enabled}

module _ (vfio : VfioOs) (laws : Iommu vfio) where
  open vfio use {World, mmap, pread16, region_info}

  -- What init_vfio gives when it gives something: registers that are mapped, and memory that the
  -- IOMMU has mapped.
  abbrev Usable : Option Attached → World → Type 0
  Usable none w = Unit
  Usable (some a) w =
      (container : Fd) × (a.bar0_base ≢ map_failed)
      × MappedAt vfio dma_iova_offset container a.dma w

  -- The first mapping, which is tried and not kept.
  abbrev look : Fd → Region → Cmd World (Unit {0})
  look device config w =
      (if (mmap (device_memory false device config) w).0 == map_failed
          then (do v ← get vfio (pread16 device config.offset); pure tt)
          else pure tt)
        (mmap (device_memory false device config) w).1

  -- Whatever the kernel answers, init_vfio does not end normally without registers that are mapped
  -- and memory that the IOMMU has mapped, unless its loop over the capabilities has not ended.
  init_vfio-Usable : (k : ℕ) (w : World) → IfOk Usable (init_vfio vfio k w)
  unfolding init_vfio
  init_vfio-Usable k w = bind_if _ (any_if (open_container vfio w)) λ container w1 _.
      bind_if _ (any_if (open_group vfio "/dev/vfio/50" container w1)) λ group w2 _.
        bind_if _ (any_if (find_device vfio group "0000:06:00.1" w2)) λ device w3 _.
          let config = region_info device config_region w3 in
          bind_if _ (any_if (look device config.0 config.1)) λ _ w4 _.
            let bar0 = region_info device bar0_region w4 in
            let base = mmap (device_memory true device bar0.0) bar0.1 in
            elim (Bool-cases (base.0 == map_failed)) [
              | inl bad ↦ rw bad exited
              | inr good ↦ rw good (
                  bind_if _ (any_if (check_ranges vfio k container base.1)) elim [
                    | false ↦ λ w5 _. ended tt
                    | true ↦ λ w5 _.
                        bind_if _
                          (EndsOrFails-IfOk
                            (map_memory-MappedAt vfio laws dma_iova_offset container w5))
                          λ dma w6 m. ended (container, (λ same. ground arith), m)
                  ])
            ]

  -- The memory is new for the allocator.
  MappedAt-Used :
      (container : Fd) (d : Dma) (w : World)
      → MappedAt vfio dma_iova_offset container d w
      → Used 0 d
  MappedAt-Used container d w m = record {
    region = m.region;
    at = omega (arith, m.new);
    aligned = omega (arith, m.pages);
    even = refl;
  }

  -- Where the IOMMU maps only whole pages in the lower half of the addresses, map_memory exits
  -- with status -1 or gives a region that the IOMMU of the container has mapped at
  -- DMA_IOVA_OFFSET; and on a card that answers the waits of init_i10e as they ask, init_i10e
  -- then ends normally in this region, with the receive ring at its start, the transmit ring
  -- 264192 bytes behind it, and the registers of both rings last written with these bases.
  pub init_i10e-map_memory :
      (card : Card) (j : ℕ) (container : Fd) (w : World)
      → Answers card
      → EndsOrFails
          (λ d w'.
            MappedAt vfio dma_iova_offset container d w'
            × Ends
                (λ r s.
                  (ring : RxRing) × (r ≡ some (ring, d.region + 264192))
                  × (ring.rq_addr ≡ d.region)
                  × RxSet 0 s.log
                  × TxSet 264192 s.log)
                (init_i10e card (suc j) (record { dma = d; log = [] })))
          (map_memory vfio dma_iova_offset container w)
  init_i10e-map_memory card j container w answers =
      weaken_or_fail (map_memory-MappedAt vfio laws dma_iova_offset container w)
        λ d w' m. (m, init_i10e-Enabled card j _ answers (MappedAt-Used container d w' m))
