-- ===== src/I10e/Tests.antt =====
-- The receive ring at concrete registers.
use echo_server.Prelude.{◌+◌, ◌-◌, ◌*◌, ◌^◌, ◌≡◌, refl, [], ◌∷◌, none, some, length, arith}
use echo_server.Prelude.{Option, List, ℕ, Bool, ltb, ◌++◌, ◌%◌, true, false, replicate, pos, negsuc}
use echo_server.Posix.{ok}
use echo_server.Posix.Ends.{Ends, EndsOrFails}
use echo_server.Vfio.{
  VfioOs, DmaMap, Mapping, device_memory, fresh_memory, walk_caps, read_cap, check_ranges,
  open_container, open_group, find_device, map_memory,
}
use echo_server.Vfio.Mapped.{Iommu, MappedAt}
use echo_server.I10e.{dma_iova_offset}
use echo_server.I10e.Setup.{init_vfio}
use echo_server.I10e.Started.{init_i10e-map_memory}
use echo_server.Dma.{Dma}
use echo_server.I10e.{rq_len, init_rx_ring, first_prepared, rq_poll_once, get_link_speed}
use echo_server.I10e.Ring.{Laid, init_rx_ring_layout}
use echo_server.Prelude.{◌==◌, if◌then◌else◌}
use echo_server.Device.{Card, Driver}
use echo_server.I10e.{RxRing}
use echo_server.I10e.Init.{rdh, rdt, status, ctrl_addr, init_i10e}
use echo_server.Device.Trace.{last_write, looks}
use echo_server.I10e.Registers.{Answers, RxSet, TxSet}
use echo_server.I10e.Poll.{indices, rq_poll_once-indices, rq_poll_once_hangs}

abbrev new_region : Dma
new_region = record { region = 2 ^ 40; next_free = 2 ^ 40 }

init_rx_ring_layout_example :
    Ends
      (λ ring d'.
        (ring.rq_addr ≡ 2 ^ 40)
        × (length ring.descs ≡ rq_len)
        × Laid 2048 ring.descs
        × (d'.next_free ≡ 2 ^ 40 + 2048 + 2048 * rq_len))
      (init_rx_ring new_region)
init_rx_ring_layout_example =
    init_rx_ring_layout new_region
      (record { mapped = omega arith; above = omega arith; inside = omega arith }) refl refl

rq_poll_once-indices_example :
    rq_poll_once rq_len 9 5 ≡ some (indices (9 - first_prepared 5) (first_prepared 5))
rq_poll_once-indices_example = rq_poll_once-indices 9 5 (omega arith)

rq_poll_once_hangs_example : rq_poll_once 1000 (2 ^ 32 - 1) 5 ≡ none
rq_poll_once_hangs_example = rq_poll_once_hangs 1000 (2 ^ 32 - 1) 5 (omega arith)

poll_run : rq_poll_once rq_len 9 5 ≡ some (6 ∷ 7 ∷ 8 ∷ [])
unfolding rq_poll_once
poll_run = refl

-- A ring that has wrapped round: nothing is polled.
poll_wrapped : rq_poll_once rq_len 3 120 ≡ some []
unfolding rq_poll_once
poll_wrapped = refl

ten_gigabit : get_link_speed (3 * 2 ^ 28) ≡ "10 GbE"
unfolding get_link_speed
ten_gigabit = refl

-- All bits are set, but those of the two registers that are waited for to be clear.
abbrev working : Card
working = record {
  register =
      λ log offset. if offset == status then 0 else if offset == ctrl_addr then 0 else 2 ^ 32 - 1;
  word = λ log address. 0;
}

working-Answers : Answers working
working-Answers = record {
  no_master = λ log. refl;
  reset_over = λ log. refl;
  eeprom_loaded = λ log. refl;
  dma_ready = λ log. refl;
  rx_queue_on = λ log. refl;
  rx_on = λ log. refl;
  tx_queue_on = λ log. refl;
}

abbrev start : Driver
start = record { dma = new_region; log = [] }

abbrev or_zero : Option ℕ → ℕ
or_zero none = 0
or_zero (some x) = x

-- The same, with five packets that were received, a receive tail that reads as it was written, and
-- every flag in memory set when it was looked at three times.
abbrev polling : Card
polling = record {
  register = λ log offset.
      if offset == rdh
      then 5
      else if offset == rdt
      then or_zero (last_write log rdt)
      else working.register log offset;
  word = λ log address. if ltb (looks address log) 3 then 0 else 1;
}

-- A kernel that agrees to everything. Its answer about the IOMMU is long enough for the loop over
-- the capabilities, which looks for one at 24 * 8.
abbrev info : List ℕ
info = replicate 16 0 ++ (24 ∷ replicate 239 0)

abbrev takes : DmaMap → Bool
takes m = if m.vaddr % 4096 == 0 then ltb (m.vaddr + m.size) (2 ^ 47) else false

abbrev region_for : Mapping → ℕ
region_for (device_memory writable device r) = 2 ^ 41
region_for (fresh_memory size) = 2 ^ 40

abbrev agreeing : VfioOs
agreeing = record {
  World = Unit {0};
  open_file = λ path w. (pos 3, w);
  api_version = λ c w. (pos 0, w);
  check_type1 = λ c w. (pos 1, w);
  group_flags = λ g w. (some 1, w);
  set_container = λ g c w. w;
  set_iommu = λ c w. w;
  device_fd = λ g address w. (pos 5, w);
  num_regions = λ d w. (9, w);
  region_info = λ d i w. (record { offset = i * 2 ^ 40; size = 4096 }, w);
  mmap = λ m w. (region_for m, w);
  pread16 = λ d offset w. (32902, w);
  iommu_size = λ c w. ((pos 0, 256), w);
  iommu_info = λ c n w. ((pos 0, info), w);
  map_dma = λ c m w. (if takes m then pos 0 else negsuc 21, w);
}

takes-true : (m : DmaMap) → (if takes m then pos 0 else negsuc 21) ≡ pos 0 → takes m ≡ true
takes-true m h = ground arith

agreeing-Iommu : Iommu agreeing
agreeing-Iommu = record {
  whole_pages = λ c m w h. ground (arith, takes-true m h);
  of_process = λ c m w h. ground (arith, takes-true m h);
}

init_i10e-map_memory_example :
    EndsOrFails
      (λ d w'.
        MappedAt agreeing dma_iova_offset (pos 3) d w'
        × Ends
            (λ r s.
              (ring : RxRing) × (r ≡ some (ring, d.region + 264192))
              × (ring.rq_addr ≡ d.region)
              × RxSet 0 s.log
              × TxSet 264192 s.log)
            (init_i10e working 1 (record { dma = d; log = [] })))
      (map_memory agreeing dma_iova_offset (pos 3) tt)
init_i10e-map_memory_example =
    init_i10e-map_memory agreeing agreeing-Iommu working 0 (pos 3) tt working-Answers

-- The run does not fail.
agreeing_run :
    init_vfio agreeing 2 tt
    ≡ ok
        (some (record {
          dma = new_region;
          bar0_base = 2 ^ 41;
          pci_config_offset = 7 * 2 ^ 40;
          device_for_pci = pos 5;
        }))
        tt
unfolding init_vfio open_container open_group find_device check_ranges walk_caps read_cap map_memory
agreeing_run = refl
