-- ===== src/X710/Started.antt =====
-- The memory that init of x710.c leaves behind, and adminq_init in it.
use echo_server.Prelude.{ℕ, suc, ◌≡◌, ◌%◌, List, [], true, false, Option, none, some, arith}
use echo_server.Posix.{Fd}
use echo_server.Posix.Ends.{
  Ends, EndsOrFails, weaken_or_fail, IfOk, ended, bind_if, any_if, EndsOrFails-IfOk,
}
use echo_server.Dma.{Dma}
use echo_server.Vfio.{
  VfioOs, device_memory, bar0_region, config_region, open_container, open_group, find_device,
  check_ranges, map_memory,
}
use echo_server.Vfio.Mapped.{Iommu, MappedAt, map_memory-MappedAt}
use echo_server.X710.{dma_iova_offset, Adminq, glgen_rstat, adminq_init}
use echo_server.Device.{Card, Event}
use echo_server.X710.Queue.{Prepared, adminq_init-Prepared}
use echo_server.X710.Fill.{Taken}
use echo_server.X710.Setup.{Attached, init}

module _ (vfio : VfioOs) (laws : Iommu vfio) where
  open vfio use {World, mmap, region_info}

  -- What init gives when it gives something: memory that the IOMMU has mapped.
  abbrev Usable : Option Attached → World → Type 0
  Usable none w = Unit
  Usable (some a) w = (container : Fd) × MappedAt vfio dma_iova_offset container a.dma w

  -- Whatever the kernel answers, init does not end normally without memory that the IOMMU has
  -- mapped, unless its loop over the capabilities has not ended.
  init-Usable : (k : ℕ) (w : World) → IfOk Usable (init vfio k w)
  unfolding init
  init-Usable k w = bind_if _ (any_if (open_container vfio w)) λ container w1 _.
      bind_if _ (any_if (open_group vfio "/dev/vfio/77" container w1)) λ group w2 _.
        bind_if _ (any_if (find_device vfio group "0000:5e:00.0" w2)) λ device w3 _.
          let bar0 = region_info device bar0_region (region_info device config_region w3).1 in
          let base = mmap (device_memory true device bar0.0) bar0.1 in
          bind_if _ (any_if (check_ranges vfio k container base.1)) elim [
            | false ↦ λ w5 _. ended tt
            | true ↦ λ w5 _.
                bind_if _
                  (EndsOrFails-IfOk (map_memory-MappedAt vfio laws dma_iova_offset container w5))
                  λ dma w6 m. ended (container, m)
          ]

  MappedAt-Taken :
      (container : Fd) (d : Dma) (w : World)
      → MappedAt vfio dma_iova_offset container d w
      → Taken 0 d
  MappedAt-Taken container d w m = record {
    region = m.region;
    at = omega (arith, m.new);
    aligned = omega (arith, m.pages);
  }

  -- On a card whose reset status has a clear lowest bit, map_memory exits with status -1 or gives
  -- memory that the IOMMU has mapped, and adminq_init then ends normally and has prepared the two
  -- queues from the start of this memory on.
  pub adminq_init-map_memory :
      (card : Card) (j : ℕ) (container : Fd) (w : World)
      → ((log : List Event) → card.register log glgen_rstat % 2 ≡ 0)
      → EndsOrFails
          (λ d w'.
            MappedAt vfio dma_iova_offset container d w'
            × Ends
                (λ r s. (q : Adminq) × (r ≡ some q) × Prepared d.region q s.log)
                (adminq_init card (suc j) 0 (record { dma = d; log = [] })))
          (map_memory vfio dma_iova_offset container w)
  adminq_init-map_memory card j container w even =
      weaken_or_fail (map_memory-MappedAt vfio laws dma_iova_offset container w)
        λ d w' m. (m, adminq_init-Prepared card j _ even (MappedAt-Taken container d w' m))
