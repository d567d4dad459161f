-- ===== src/I10e/Init.antt =====
-- i10e.c, init_i10e: the reset of the card, its filters, and its two rings.
use echo_server.Prelude.{
  ℕ, zero, suc, ◌+◌, ◌-◌, ◌*◌, ◌/◌, ◌%◌, ◌^◌, List, [], ◌∷◌, Bool, true, false, Option, none, some,
  ◌==◌, if◌then◌else◌, not,
}
use echo_server.Posix.{ok, Cmd, pure, quit, failed, ◌>>=◌, ◌>>◌}
use echo_server.Dma.{u64, u64_low, u64_high, vaddr_to_iovaddr, dma_alloc_aligned}
use echo_server.Device.{
  Card, Driver, configured, probed, note, bar0_write, bar0_read, store, nanosleep, on_dma,
  loop_while,
}
use echo_server.I10e.{dma_iova_offset, rq_len, RqDesc, sizeof_rq_desc, RxRing, init_rx_ring}

abbrev pub eimc : ℕ
eimc = 2184

abbrev pub ctrl_addr : ℕ
ctrl_addr = 0

abbrev pub status : ℕ
status = 8

abbrev pub ctrl_ext : ℕ
ctrl_ext = 24

abbrev pub links : ℕ
links = 17060

abbrev pub eec : ℕ
eec = 65552

abbrev pub fctrl : ℕ
fctrl = 20608

abbrev pub mta : ℕ → ℕ
mta n = 20992 + 4 * n

-- The registers of the receive queue 0
abbrev pub rdbal : ℕ
rdbal = 4096

abbrev pub rdbah : ℕ
rdbah = 4100

abbrev pub rdlen : ℕ
rdlen = 4104

abbrev pub rdh : ℕ
rdh = 4112

abbrev pub srrctl : ℕ
srrctl = 4116

abbrev pub rdt : ℕ
rdt = 4120

abbrev pub rxdctl : ℕ
rxdctl = 4136

abbrev pub rdrxctl : ℕ
rdrxctl = 12032

abbrev pub rxctrl : ℕ
rxctrl = 12288

-- The registers of the transmit queue 0
abbrev pub dmatxctl : ℕ
dmatxctl = 19072

abbrev pub tdbal : ℕ
tdbal = 24576

abbrev pub tdbah : ℕ
tdbah = 24580

abbrev pub tdlen : ℕ
tdlen = 24584

abbrev pub tdh : ℕ
tdh = 24592

abbrev pub tdt : ℕ
tdt = 24600

abbrev pub txdctl : ℕ
txdctl = 24616

abbrev pub hlreg0 : ℕ
hlreg0 = 16960

abbrev pub tq_len : ℕ
tq_len = 128

-- `sizeof(tq_desc_t)`
abbrev pub sizeof_tq_desc : ℕ
sizeof_tq_desc = 16

-- `x | (1 << b)`
abbrev pub set_bit : (b x : ℕ) → ℕ
set_bit b x = if x / 2 ^ b % 2 == 1 then x else x + 2 ^ b

-- A descriptor of the receive ring in memory, as four words.
abbrev pub words_of : RqDesc → List ℕ
words_of d =
    u64_low d.buffer_address
    ∷ u64_high d.buffer_address
    ∷ (d.length + 2 ^ 16 * d.checksum)
    ∷ (d.status + 2 ^ 8 * d.errors + 2 ^ 16 * d.vlan_tag)
    ∷ []

-- The stores of the descriptors from `i` on.
abbrev pub store_ring : (i rq_addr : ℕ) → List RqDesc → Cmd Driver (Unit {0})
store_ring i rq_addr [] = pure tt
store_ring i rq_addr (d ∷ descs) = do
  store (u64 (rq_addr + i * sizeof_rq_desc)) (words_of d)
  store_ring (i + 1) rq_addr descs

-- "MTA = 0"
abbrev pub clear_mta : (left i : ℕ) → Cmd Driver (Unit {0})
clear_mta zero i = pure tt
clear_mta (suc n) i = do bar0_write (mta i) 0; clear_mta n (i + 1)

-- The configuration space of the card. What is read of it is only printed.
abbrev pub pci_write16 : (offset val : ℕ) → Cmd Driver (Unit {0})
pci_write16 offset val = note (configured offset val)

abbrev pub pci_read16 : (offset : ℕ) → Cmd Driver (Unit {0})
pci_read16 offset = note (probed offset)

module _ (card : Card) where
  -- A round of a wait: goes on while the bit has this value.
  unfoldable pub bit_is : (offset b value : ℕ) → Cmd Driver Bool
  bit_is offset b value = do x ← bar0_read card offset; pure (x / 2 ^ b % 2 == value)

  -- A wait of at most `k` rounds, and what follows; `none` if it has not ended by then.
  abbrev pub wait_then :
      {A : Type 0} (k : ℕ) → Cmd Driver Bool → Cmd Driver (Option A) → Cmd Driver (Option A)
  wait_then k body after = do
    ended ← loop_while k body
    elim ended [ true ↦ after | false ↦ pure none ]

  -- "Resetting", up to "Done with reset"
  unfoldable pub reset_card : {A : Type 0} (k : ℕ) → Cmd Driver (Option A) → Cmd Driver (Option A)
  unfolding bit_is
  reset_card k after = do
    bar0_write eimc 4294967295
    bar0_write ctrl_addr (2 ^ 2)
    wait_then k (bit_is status 19 1) (do
      bar0_write ctrl_addr (2 ^ 26 + 2 ^ 3)
      nanosleep 1000000
      wait_then k (bit_is ctrl_addr 26 1) (do
        bar0_write eimc 4294967295
        pci_write16 4 7
        pci_write16 6 0
        pci_read16 4
        wait_then k (bit_is eec 9 0) (do
          bar0_write eimc 4294967295
          nanosleep 1000000000
          _ ← bar0_read card links
          wait_then k (bit_is rdrxctl 3 0) after)))

  -- Up to "allocate RX ring"
  unfoldable pub set_filters : Cmd Driver (Unit {0})
  set_filters = do
    control ← bar0_read card hlreg0
    bar0_write hlreg0 (set_bit 10 (set_bit 1 (set_bit 0 control)))
    receive ← bar0_read card rdrxctl
    bar0_write rdrxctl (set_bit 0 receive)
    bar0_write ctrl_ext (2 ^ 16)
    _ ← bar0_read card links
    bar0_write fctrl (2 ^ 8 + 2 ^ 9 + 2 ^ 10)
    clear_mta 128 0

  -- Up to "RX enabled"
  unfoldable pub enable_rx :
      {A : Type 0} (k : ℕ) → (RxRing → Cmd Driver (Option A)) → Cmd Driver (Option A)
  unfolding bit_is
  enable_rx k after = do
    ring ← on_dma init_rx_ring
    store_ring 0 ring.rq_addr ring.descs
    rq_iova ← on_dma (λ d. ok (vaddr_to_iovaddr dma_iova_offset d ring.rq_addr) d)
    bar0_write rdbal (u64_low rq_iova)
    bar0_write rdbah (u64_high rq_iova)
    if not (rq_len * sizeof_rq_desc % 128 == 0) then quit failed else do
      bar0_write rdh 0
      bar0_write rdt 0
      bar0_write rdlen (rq_len * sizeof_rq_desc)
      bar0_write srrctl 2
      _ ← bar0_read card rdrxctl
      bar0_write rxdctl (2 ^ 25)
      wait_then k (bit_is rxdctl 25 0) (do
        bar0_write rdt (rq_len - 1)
        bar0_write rxctrl 1
        wait_then k (bit_is rxctrl 0 0) (after ring))

  -- Up to "TX enabled": where the transmit ring starts.
  unfoldable pub enable_tx : (k : ℕ) → Cmd Driver (Option ℕ)
  unfolding bit_is
  enable_tx k = do
    tq_addr ← on_dma (dma_alloc_aligned (sizeof_tq_desc * tq_len) 7)
    tq_iova ← on_dma (λ d. ok (vaddr_to_iovaddr dma_iova_offset d tq_addr) d)
    bar0_write tdbal (tq_iova % 2 ^ 32)
    _ ← bar0_read card tdbal
    bar0_write tdbah (tq_iova / 2 ^ 32)
    bar0_write tdh 0
    bar0_write tdt 0
    bar0_write tdlen (tq_len * sizeof_tq_desc)
    control ← bar0_read card dmatxctl
    bar0_write dmatxctl (set_bit 0 control)
    bar0_write txdctl (2 ^ 25)
    wait_then k (bit_is txdctl 25 0) (λ s. ok (some tq_addr) s)

  -- With at most `k` rounds of each wait: the two rings.
  unfoldable pub init_i10e : (k : ℕ) → Cmd Driver (Option (RxRing × ℕ))
  unfolding reset_card enable_rx enable_tx
  init_i10e k = reset_card k (do
    set_filters
    enable_rx k λ ring. do
      made ← enable_tx k
      elim made [ none ↦ pure none | some tq_addr ↦ pure (some (ring, tq_addr)) ])
