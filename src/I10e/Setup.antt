-- ===== src/I10e/Setup.antt =====
-- i10e.c, init_vfio: what the driver keeps of it.
use echo_server.Prelude.{ℕ, Option, none, some, true, false, not, ◌==◌, if◌then◌else◌}
use echo_server.Posix.{Fd, Cmd, pure, quit, failed, ◌>>=◌, ◌>>◌}
use echo_server.Dma.{Dma}
use echo_server.Vfio.{
  VfioOs, device_memory, map_failed, config_region, bar0_region, get, open_container, open_group,
  find_device, check_ranges, map_memory,
}
use echo_server.I10e.{dma_iova_offset}

-- The global variables that init_vfio sets.
pub record Attached : Type 0 where
  pub dma : Dma
  pub bar0_base : ℕ
  pub pci_config_offset : ℕ
  pub device_for_pci : Fd

module _ (vfio : VfioOs) where
  open vfio use {World, region_info, mmap, pread16}

  -- With at most `k` rounds of the loop over the capabilities; `none` if it has not ended by then.
  unfoldable pub init_vfio : (k : ℕ) → Cmd World (Option Attached)
  init_vfio k = do
    container ← open_container vfio
    group ← open_group vfio "/dev/vfio/50" container
    device ← find_device vfio group "0000:06:00.1"
    config ← get vfio (region_info device config_region)
    m ← get vfio (mmap (device_memory false device config))
    (if m == map_failed then (do v ← get vfio (pread16 device config.offset); pure tt) else pure tt)
    bar0 ← get vfio (region_info device bar0_region)
    base ← get vfio (mmap (device_memory true device bar0))
    if base == map_failed then quit failed else do
      ended ← check_ranges vfio k container
      if not ended then pure none else do
        dma ← map_memory vfio dma_iova_offset container
        pure (
            some (record {
              dma = dma;
              bar0_base = base;
              pci_config_offset = config.offset;
              device_for_pci = device;
            }))
