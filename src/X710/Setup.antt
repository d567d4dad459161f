-- ===== src/X710/Setup.antt =====
-- x710.c: init and main.
use echo_server.Prelude.{ℕ, Option, none, some, true, not, if◌then◌else◌}
use echo_server.Posix.{Cmd, pure, ◌>>=◌}
use echo_server.Dma.{Dma}
use echo_server.Vfio.{
  VfioOs, device_memory, config_region, bar0_region, get, open_container, open_group, find_device,
  check_ranges, map_memory,
}
use echo_server.X710.{dma_iova_offset}

-- The global variables that init sets. The address of the registers can be `MAP_FAILED`.
pub record Attached : Type 0 where
  pub dma : Dma
  pub bar0_base : ℕ

module _ (vfio : VfioOs) where
  open vfio use {World, region_info, mmap}

  -- With at most `k` rounds of the loop over the capabilities; `none` if it has not ended by then.
  unfoldable pub init : (k : ℕ) → Cmd World (Option Attached)
  init k = do
    container ← open_container vfio
    group ← open_group vfio "/dev/vfio/77" container
    device ← find_device vfio group "0000:5e:00.0"
    config ← get vfio (region_info device config_region)
    bar0 ← get vfio (region_info device bar0_region)
    base ← get vfio (mmap (device_memory true device bar0))
    ended ← check_ranges vfio k container
    if not ended then pure none else do
      dma ← map_memory vfio dma_iova_offset container
      pure (some (record { dma = dma; bar0_base = base }))
