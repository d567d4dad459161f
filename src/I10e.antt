-- ===== src/I10e.antt =====
-- i10e.c: the receive ring of the 10-gigabit driver, its set-up in shared memory and one poll.
pub mod Ring
pub mod Poll
pub mod Init
pub mod Send
pub mod Sending
pub mod Sent
pub mod Setup
pub mod Started
pub mod Registers
pub mod Enabled
mod Tests
use echo_server.Prelude.{
  ℕ, zero, suc, ◌+◌, ◌*◌, ◌/◌, ◌%◌, List, [], ◌∷◌, Option, none, some, true, false, ltb, ◌^◌, ◌==◌,
  if◌then◌else◌,
}
use mathlib.Core.Option
use Prim.Native.String.{String}
use echo_server.Posix.{Run, ok, Cmd, pure, ◌>>=◌}
use echo_server.Dma.{Dma, u32, vaddr_to_iovaddr, dma_alloc_aligned}

-- `DMA_IOVA_OFFSET` of this driver
abbrev pub dma_iova_offset : ℕ
dma_iova_offset = 0

abbrev pub rq_len : ℕ
rq_len = 128

-- `rq_desc_t`
pub record RqDesc : Type 0 where
  pub buffer_address : ℕ
  pub length : ℕ
  pub checksum : ℕ
  pub status : ℕ
  pub errors : ℕ
  pub vlan_tag : ℕ

-- `sizeof(rq_desc_t)`
abbrev pub sizeof_rq_desc : ℕ
sizeof_rq_desc = 16

-- A descriptor after `memset` and the write of its buffer.
abbrev pub empty_desc : ℕ → RqDesc
empty_desc a = record {
  buffer_address = a;
  length = 0;
  checksum = 0;
  status = 0;
  errors = 0;
  vlan_tag = 0;
}

-- The receive ring in memory: where it starts, and its descriptors.
pub record RxRing : Type 0 where
  pub rq_addr : ℕ
  pub descs : List RqDesc

-- A buffer of 2048 bytes for each of the descriptors that are left.
unfoldable pub fill_descs : (left : ℕ) → Cmd Dma (List RqDesc)
fill_descs zero = pure []
fill_descs (suc n) = do
  buffer ← dma_alloc_aligned 2048 7
  address ← λ d. ok (vaddr_to_iovaddr dma_iova_offset d buffer) d
  rest ← fill_descs n
  pure (empty_desc address ∷ rest)

-- "allocate RX ring" of `init_i10e`, up to the registers
unfoldable pub init_rx_ring : Cmd Dma RxRing
init_rx_ring = do
  rq_addr ← dma_alloc_aligned (sizeof_rq_desc * rq_len) 7
  descs ← fill_descs rq_len
  pure (record { rq_addr = rq_addr; descs = descs })

-- `switch (l >> 28 & 0b11)`
unfoldable pub get_link_speed : ℕ → String
get_link_speed l =
    let speed = l / 2 ^ 28 % 4 in
    if speed == 0
    then "Reserved"
    else if speed == 1
    then "100 Mb/s"
    else if speed == 2
    then "1 GbE"
    else if speed == 3
    then "10 GbE"
    else "Unknown"

-- `(bar0_read(RDT(qnum)) + 1) % RQ_LEN`
unfoldable pub first_prepared : (rdt : ℕ) → ℕ
first_prepared rdt = u32 (rdt + 1) % rq_len

-- The loop of `rq_poll_once`: the descriptors that it prints, from `i` on, or `none` if it has not
-- ended after `fuel` rounds.
unfoldable pub poll_from : (fuel : ℕ) (i first_unreceived : ℕ) → Option (List ℕ)
poll_from zero i stop = none
poll_from (suc fuel) i stop = elim (ltb i stop) [
  | true ↦ Option.map (λ rest. i ∷ rest) (poll_from fuel ((i + 1) % rq_len) stop)
  | false ↦ some []
]

unfoldable pub rq_poll_once : (fuel rdh rdt : ℕ) → Option (List ℕ)
unfolding poll_from first_prepared
rq_poll_once fuel rdh rdt = poll_from fuel (first_prepared rdt) rdh
