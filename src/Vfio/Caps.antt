-- ===== src/Vfio/Caps.antt =====
-- The loop over the capabilities of the IOMMU.
use echo_server.Prelude.{
  ℕ, suc, ◌+◌, ◌*◌, ◌<◌, ◌≢◌, ◌≡◌, refl, List, length, leb, ◌==◌, true, drop, pos, false, arith,
}
use echo_server.Posix.{Fd, fault, load32}
use echo_server.Vfio.{VfioOs, sizeof_info, walk_caps, read_cap, check_ranges}

walk_caps-overrun :
    (k : ℕ) (bytes : List ℕ) (offset : ℕ) {W : Type 0} (w : W)
    → offset ≢ 0
    → length bytes < 8 * offset + 2
    → walk_caps (suc k) bytes offset w ≡ fault
unfolding walk_caps read_cap
walk_caps-overrun k bytes offset {W} w some_list short =
    let here : (offset == 0) ≡ false = ground arith in
    let out : leb (8 * offset + 2) (length bytes) ≡ false = ground arith in
    rw (walk_caps, here, read_cap, out) refl

module _ (vfio : VfioOs) where
  open vfio use {World, iommu_size, iommu_info}

  -- Where the two questions about the IOMMU succeed, the kernel asks for more than 24 and less
  -- than 194 bytes for its answer, gives as many, and puts the list of capabilities at 24,
  -- behind the structure, the check of init_vfio and init for the ranges of addresses is
  -- undefined, for every number of rounds above zero: its loop reads behind the end of the
  -- answer.
  pub check_ranges-overrun :
      (k argsz : ℕ) (bytes : List ℕ) (container : Fd) (w w1 w2 : World)
      → iommu_size container w ≡ ((pos 0, argsz), w1)
      → iommu_info container argsz w1 ≡ ((pos 0, bytes), w2)
      → length bytes ≡ argsz
      → load32 (drop 16 bytes) ≡ sizeof_info
      → sizeof_info < argsz
      → argsz < 8 * sizeof_info + 2
      → check_ranges vfio (suc k) container w ≡ fault
  unfolding check_ranges
  check_ranges-overrun k argsz bytes container w w1 w2 size info len behind more short =
      let bare : (argsz == sizeof_info) ≡ false = ground arith in
      let inside : leb 20 (length bytes) ≡ true = ground arith in
      rw (size, bare, info, inside, behind)
        (walk_caps-overrun k bytes sizeof_info w2 (λ e. omega arith) (omega (arith, len, short)))
