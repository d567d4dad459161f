-- ===== src/Vfio.antt =====
-- What i10e.c and x710.c call of Linux to reach their card, a parameter of the model, and the parts
-- that their functions init_vfio and init share.
pub mod Caps
pub mod Mapped
mod Tests
use Prim.Native.String.{String}
use echo_server.Prelude.{
  ℕ, zero, suc, ◌+◌, ◌-◌, ◌*◌, ◌^◌, ◌%◌, ◌/◌, List, [], Bool, true, false, Option, none, some, ℤ,
  pos, negsuc, int_eq, not, leb, ltb, ◌==◌, length, drop, if◌then◌else◌,
}
use echo_server.Posix.{Fd, Run, ok, exit, fault, Cmd, pure, quit, failed, call, ◌>>=◌, ◌>>◌, load32}
use echo_server.Dma.{Dma, dma_size}

-- `struct vfio_region_info`
pub record Region : Type 0 where
  pub offset : ℕ
  pub size : ℕ

-- What is mapped: a region of the device, or fresh memory.
pub data Mapping : Type 0 where
  device_memory : (writable : Bool) → Fd → Region → Mapping
  fresh_memory : (size : ℕ) → Mapping

-- `struct vfio_iommu_type1_dma_map`, readable and writable
pub record DmaMap : Type 0 where
  pub vaddr : ℕ
  pub iova : ℕ
  pub size : ℕ

-- The calls, each with what the program looks at. `group_flags` gives `none` where the call fails,
-- since the flags are not initialised. `region_info` fills a structure of zeros. `iommu_size` and
-- `iommu_info` are VFIO_IOMMU_GET_INFO with a bare structure and with a buffer: the result, and the
-- size that is asked for, or the bytes of the buffer. `mmap` gives the address.
pub record VfioOs : Type 1 where
  pub World : Type 0
  pub open_file : (path : String) → World → Fd × World
  pub api_version : Fd → World → ℤ × World
  pub check_type1 : Fd → World → ℤ × World
  pub group_flags : Fd → World → Option ℕ × World
  pub set_container : (group container : Fd) → World → World
  pub set_iommu : Fd → World → World
  pub device_fd : Fd → (address : String) → World → Fd × World
  pub num_regions : Fd → World → ℕ × World
  pub region_info : Fd → (index : ℕ) → World → Region × World
  pub mmap : Mapping → World → ℕ × World
  pub pread16 : Fd → (offset : ℕ) → World → ℕ × World
  pub iommu_size : Fd → World → (ℤ × ℕ) × World
  pub iommu_info : Fd → (argsz : ℕ) → World → (ℤ × List ℕ) × World
  pub map_dma : Fd → DmaMap → World → ℤ × World

-- `MAP_FAILED`
abbrev pub map_failed : ℕ
map_failed = 2 ^ 64 - 1

-- `sizeof(struct vfio_iommu_type1_info)`
abbrev pub sizeof_info : ℕ
sizeof_info = 24

-- Bits and indices of linux/vfio.h
abbrev pub config_region : ℕ
config_region = 7

abbrev pub bar0_region : ℕ
bar0_region = 0

abbrev pub cap_iova_range : ℕ
cap_iova_range = 1

-- `VFIO_GROUP_FLAGS_VIABLE` is the lowest bit.
abbrev pub is_viable : ℕ → Bool
is_viable flags = flags % 2 == 1

-- Numbers in a buffer. A read behind its end is undefined.
abbrev pub read16 : List ℕ → (at : ℕ) → {W : Type 0} → Cmd W ℕ
read16 bytes at =
    if leb (at + 2) (length bytes) then (λ w. ok (load32 (drop at bytes) % 2 ^ 16) w) else λ w.
    fault

abbrev pub read32 : List ℕ → (at : ℕ) → {W : Type 0} → Cmd W ℕ
read32 bytes at =
    if leb (at + 4) (length bytes) then (λ w. ok (load32 (drop at bytes)) w) else λ w. fault

-- The ranges that are printed, from `i` on.
unfoldable pub read_ranges : (left : ℕ) → List ℕ → (at : ℕ) → {W : Type 0} → Cmd W (Unit {0})
read_ranges zero bytes at = pure tt
read_ranges (suc n) bytes at = do
  low ← read32 bytes at
  low' ← read32 bytes (at + 4)
  high ← read32 bytes (at + 8)
  high' ← read32 bytes (at + 12)
  read_ranges n bytes (at + 16)

-- A capability. The offset is added to a pointer to a structure, so that it counts structures: of 8
-- bytes for a header, of 16 for the list of ranges.
unfoldable pub read_cap : List ℕ → (offset : ℕ) → {W : Type 0} → Cmd W ℕ
unfolding read_ranges
read_cap bytes offset {W} = do
  id ← read16 bytes (8 * offset)
  (if id == cap_iova_range
      then (do
        nr_iovas ← read32 bytes (16 * offset + 8)
        read_ranges nr_iovas bytes (16 * offset + 16))
      else pure tt)
  read32 bytes (8 * offset + 4)

-- `while (offset)`, at most `k` rounds: whether it has ended.
unfoldable pub walk_caps : (k : ℕ) → List ℕ → (offset : ℕ) → {W : Type 0} → Cmd W Bool
unfolding read_cap
walk_caps zero bytes offset = pure (offset == 0)
walk_caps (suc k) bytes offset {W} = elim (offset == 0) [
  | true ↦ pure true
  | false ↦ do next ← read_cap bytes offset; walk_caps k bytes next
]

module _ (vfio : VfioOs) where
  open vfio use {
    World, open_file, api_version, check_type1, group_flags, set_container, set_iommu, device_fd,
    num_regions, region_info, mmap, pread16, iommu_size, iommu_info, map_dma,
  }

  abbrev pub get : {A : Type 0} → (World → A × World) → Cmd World A
  get f w = ok (f w).0 (f w).1

  abbrev pub run : (World → World) → Cmd World (Unit {0})
  run f w = ok tt (f w)

  unfoldable pub open_container : Cmd World Fd
  open_container = do
    container ← get (open_file "/dev/vfio/vfio")
    version ← get (api_version container)
    if not (int_eq version (pos 0)) then quit failed else do
      supported ← get (check_type1 container)
      if int_eq supported (pos 0) then quit failed else pure container

  unfoldable pub open_group : (path : String) → (container : Fd) → Cmd World Fd
  open_group path container = do
    group ← get (open_file path)
    flags ← get (group_flags group)
    elim flags [
      | none ↦ λ w. fault
      | some flags ↦
          if not (is_viable flags)
          then quit failed
          else do run (set_container group container); run (set_iommu container); pure group
    ]

  -- An unexpected number of regions is only printed.
  unfoldable pub find_device : (group : Fd) → (address : String) → Cmd World Fd
  find_device group address = do
    device ← get (device_fd group address)
    regions ← get (num_regions device)
    pure device

  -- "check for valid iova ranges", with at most `k` rounds of the loop over the capabilities
  unfoldable pub check_ranges : (k : ℕ) → (container : Fd) → Cmd World Bool
  unfolding walk_caps
  check_ranges k container = do
    (ret, argsz) ← get (iommu_size container)
    if not (int_eq ret (pos 0))
        then quit failed
        else if argsz == sizeof_info
        then quit failed
        else do
          (ret, bytes) ← get (iommu_info container argsz)
          if not (int_eq ret (pos 0))
              then quit failed
              else do cap_offset ← read32 bytes 16; walk_caps k bytes cap_offset

  -- "allocate DMA memory"
  unfoldable pub map_memory : (iova : ℕ) → (container : Fd) → Cmd World Dma
  map_memory iova container = do
    vaddr ← get (mmap (fresh_memory dma_size))
    ret ← call (map_dma container (record { vaddr = vaddr; iova = iova; size = dma_size }))
    if not (int_eq ret (pos 0))
        then quit failed
        else pure (record { region = vaddr; next_free = vaddr })
