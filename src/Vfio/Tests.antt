-- ===== src/Vfio/Tests.antt =====
-- A kernel whose answer has the list of capabilities at 24, as Linux answers.
use echo_server.Prelude.{ℕ, ◌≡◌, refl, List, ◌∷◌, ◌++◌, pos, arith, replicate, some, ◌*◌, ◌^◌}
use echo_server.Posix.{fault}
use echo_server.Vfio.{VfioOs, check_ranges}
use echo_server.Vfio.Caps.{check_ranges-overrun}

-- 120 bytes
abbrev reply : List ℕ
reply = replicate 16 0 ++ (24 ∷ replicate 103 0)

abbrev linux : VfioOs
linux = record {
  World = Unit {0};
  open_file = λ path w. (pos 3, w);
  api_version = λ c w. (pos 0, w);
  check_type1 = λ c w. (pos 1, w);
  group_flags = λ g w. (some 1, w);
  set_container = λ g c w. w;
  set_iommu = λ c w. w;
  device_fd = λ g address w. (pos 5, w);
  num_regions = λ d w. (9, w);
  region_info = λ d i w. (record { offset = i * 2 ^ 40; size = 4096 }, w);
  mmap = λ m w. (2 ^ 40, w);
  pread16 = λ d offset w. (32902, w);
  iommu_size = λ c w. ((pos 0, 120), w);
  iommu_info = λ c n w. ((pos 0, reply), w);
  map_dma = λ c m w. (pos 0, w);
}

check_ranges-overrun_example : check_ranges linux 5 (pos 3) tt ≡ fault
check_ranges-overrun_example =
    check_ranges-overrun linux 4 120 reply (pos 3) tt tt tt refl refl refl refl (omega arith)
      (omega arith)
