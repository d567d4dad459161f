-- ===== src/I10e/Enabled.antt =====
-- i10e.c, init_i10e on a card that answers its waits.
use mathlib.Core.Path.{subst}
use echo_server.Prelude.{
  ℕ, suc, ◌+◌, ◌*◌, ◌/◌, ◌%◌, ◌^◌, ◌<◌, ◌≡◌, refl, sym, ap, ◌∙◌, List, [], ◌∷◌, false, Option, some,
  ◌==◌, arith,
}
use echo_server.Posix.{Cmd, ◌>>◌}
use echo_server.Posix.Ends
use echo_server.Posix.Ends.{Ends, ends}
use echo_server.Dma.{
  Dma, dma_size, u32, u64, u64_low, u64_high, vaddr_to_iovaddr, dma_alloc_aligned,
}
use echo_server.Dma.Address.{vaddr_to_iovaddr_range}
use echo_server.Device.{Event, Card, Driver, stored, asked, loop_while}
use echo_server.Device.Trace.{on_dma-Ends}
use echo_server.I10e.{sizeof_rq_desc, dma_iova_offset, RqDesc, RxRing, init_rx_ring}
use echo_server.I10e.Ring.{Used, alloc_exact, init_rx_ring-Used}
use echo_server.I10e.Registers.{Answers, RxSet, TxSet}
use echo_server.I10e.Init.{
  status, ctrl_addr, eec, rdrxctl, rxdctl, rxctrl, txdctl, words_of, store_ring, bit_is, wait_then,
  reset_card, set_filters, enable_rx, enable_tx, init_i10e,
}

RxSet-along : {iova : ℕ} {log log' : List Event} → log' ≡ log → RxSet iova log → RxSet iova log'
RxSet-along {iova} e r = subst (RxSet iova) (sym e) r

pub ring_iova :
    (region at : ℕ) (d : Dma)
    → d.region ≡ region
    → region + dma_size < 2 ^ 63
    → at < dma_size
    → vaddr_to_iovaddr dma_iova_offset d (region + at) ≡ at
ring_iova region at d e mapped low = omega (
  arith,
  vaddr_to_iovaddr_range dma_iova_offset (region + at) d (omega arith) (omega arith) (omega arith)
      (omega arith),
)

-- The driver after one more read of a register.
abbrev read_at : ℕ → Driver → Driver
read_at offset s = record s { log = asked offset ∷ s.log }

module _ (card : Card) {A : Type 0} {P : Option A → Driver → Type 0} where
  -- A wait for a bit that is as it should be is over after one look.
  pass :
      (k offset b value bit : ℕ) (after : Cmd Driver (Option A)) (s : Driver)
      → u32 (card.register s.log offset) / 2 ^ b % 2 ≡ bit
      → (bit == value) ≡ false
      → Ends P (after (read_at offset s))
      → Ends P (wait_then card (suc k) (bit_is card offset b value) after s)
  unfolding bit_is loop_while
  pass k offset b value bit after s h differs rest = rw (h, differs) rest

  reset_card-Ends :
      (k : ℕ) (after : Cmd Driver (Option A)) (s : Driver)
      → Answers card
      → ((s' : Driver) → s'.dma ≡ s.dma → Ends P (after s'))
      → Ends P (reset_card card (suc k) after s)
  unfolding reset_card
  reset_card-Ends k after s answers rest = pass k status 19 1 0 _ _ (answers.no_master _) refl (
      pass k ctrl_addr 26 1 0 _ _ (answers.reset_over _) refl (
        pass k eec 9 0 1 _ _ (answers.eeprom_loaded _) refl
          (pass k rdrxctl 3 0 1 _ _ (answers.dma_ready _) refl (rest _ refl))))

  store_ring-Ends :
      (descs : List RqDesc) (i rq_addr : ℕ) (after : Cmd Driver (Option A)) (s : Driver)
      → ((s' : Driver) → s'.dma ≡ s.dma → Ends P (after s'))
      → Ends P ((store_ring i rq_addr descs >> after) s)
  store_ring-Ends [] i rq_addr after s rest = rest s refl
  store_ring-Ends (d ∷ descs) i rq_addr after s rest =
      store_ring-Ends descs (i + 1) rq_addr after
        (record s { log = stored (u64 (rq_addr + i * sizeof_rq_desc)) (words_of d) ∷ s.log }) rest

  enable_rx-Ends :
      (k : ℕ) (after : RxRing → Cmd Driver (Option A)) (s : Driver)
      → Answers card
      → Used 0 s.dma
      → ((ring : RxRing) (s' : Driver)
          → ring.rq_addr ≡ s.dma.region
          → s'.dma.region ≡ s.dma.region
          → Used 264192 s'.dma
          → RxSet 0 s'.log
          → Ends P (after ring s'))
      → Ends P (enable_rx card (suc k) after s)
  unfolding enable_rx u64_low u64_high
  enable_rx-Ends k after s answers u rest =
      Ends.bind _ (on_dma-Ends init_rx_ring s (init_rx_ring-Used s.dma u)) λ ring s1 h1.
        store_ring-Ends ring.descs 0 ring.rq_addr _ s1 λ s2 e2.
          let iova : vaddr_to_iovaddr dma_iova_offset s2.dma ring.rq_addr ≡ 0 =
            ap (vaddr_to_iovaddr dma_iova_offset s2.dma) (h1.0.0 ∙ omega arith)
            ∙ ring_iova s.dma.region 0 s2.dma (ap (λ d. d.region) e2 ∙ h1.0.1) u.region.mapped
                (omega arith) in
          pass k rxdctl 25 0 1 _ _ (answers.rx_queue_on _) refl (
            pass k rxctrl 0 0 1 _ _ (answers.rx_on _) refl (
              rest ring _ h1.0.0 (ap (λ d. d.region) e2 ∙ h1.0.1)
                (subst (Used 264192) (sym e2) h1.0.2)
                (record {
                  base_low = ap (λ a. some (u32 (u64_low a))) iova;
                  base_high = ap (λ a. some (u32 (u64_high a))) iova;
                  size = refl;
                  head = refl;
                  tail = refl;
                  enabled = refl;
                })))

module _ (card : Card) where
  set_filters-Ends : (s : Driver) → Ends (λ _ s'. s'.dma ≡ s.dma) (set_filters card s)
  unfolding set_filters
  set_filters-Ends s = ends refl

  enable_tx-Ends :
      (k : ℕ) (s : Driver)
      → Answers card
      → Used 264192 s.dma
      → RxSet 0 s.log
      → Ends
          (λ r s'.
            (r ≡ some (s.dma.region + 264192))
            × RxSet 0 s'.log
            × TxSet 264192 s'.log
            × (s'.dma.region ≡ s.dma.region)
            × Used 266240 s'.dma)
          (enable_tx card (suc k) s)
  unfolding enable_tx u64_low u64_high
  enable_tx-Ends k s answers u rx =
      Ends.bind _
        (on_dma-Ends (dma_alloc_aligned 2048 7) s
          (alloc_exact 2048 264192 s.dma u refl (omega arith)))
        λ tq_addr s1 h1.
          let iova : vaddr_to_iovaddr dma_iova_offset s1.dma tq_addr ≡ 264192 =
            ap (vaddr_to_iovaddr dma_iova_offset s1.dma) h1.0.0
            ∙ ring_iova s.dma.region 264192 s1.dma h1.0.1 u.region.mapped (omega arith) in
          let now = RxSet-along h1.1 rx in
          pass card k txdctl 25 0 1 _ _ (answers.tx_queue_on _) refl (
            ends (
              ap some h1.0.0,
              record {
                base_low = now.base_low;
                base_high = now.base_high;
                size = now.size;
                head = now.head;
                tail = now.tail;
                enabled = now.enabled;
              },
              record {
                base_low = ap (λ a. some (u32 (a % 2 ^ 32))) iova;
                base_high = ap (λ a. some (u32 (a / 2 ^ 32))) iova;
                size = refl;
                head = refl;
                tail = refl;
                enabled = refl;
              },
              h1.0.1,
              h1.0.2,
            ))

  -- The same as `init_i10e-Enabled`, with what is left of the region.
  pub init_i10e-Used :
      (k : ℕ) (s : Driver)
      → Answers card
      → Used 0 s.dma
      → Ends
          (λ r s'.
            (ring : RxRing) × (r ≡ some (ring, s.dma.region + 264192))
            × (ring.rq_addr ≡ s.dma.region)
            × RxSet 0 s'.log
            × TxSet 264192 s'.log
            × (s'.dma.region ≡ s.dma.region)
            × Used 266240 s'.dma)
          (init_i10e card (suc k) s)
  unfolding init_i10e
  init_i10e-Used k s answers u = reset_card-Ends card k _ s answers λ s1 e1.
      Ends.bind _ (set_filters-Ends s1) λ _ s2 e2.
        let same : s2.dma ≡ s.dma = e2 ∙ e1 in
        enable_rx-Ends card k _ s2 answers (subst (Used 0) (sym same) u)
          λ ring s3 at region used set. Ends.bind _ (enable_tx-Ends k s3 answers used set) λ r s4 t.
            let here : s3.dma.region ≡ s.dma.region = region ∙ ap (λ d. d.region) same in
            rw t.0 (
              ends (
                ring,
                ap (λ n. some (ring, n + 264192)) here,
                at ∙ ap (λ d. d.region) same,
                t.1,
                t.2,
                t.3 ∙ here,
                t.4,
              ))

  -- On a card that answers the seven waits as they ask, and from an empty region that starts at
  -- a multiple of 128, init_i10e ends normally after one look in each wait, with the receive
  -- ring at the start of the region and the transmit ring 264192 bytes behind it; the registers
  -- of the two rings were last written with these bases as the card sees them (the receive ring
  -- at 0), with lengths of 2048, heads 0, a receive tail of 127 and a transmit tail of 0, and
  -- receiving and the transmit queue were switched on.
  pub init_i10e-Enabled :
      (k : ℕ) (s : Driver)
      → Answers card
      → Used 0 s.dma
      → Ends
          (λ r s'.
            (ring : RxRing) × (r ≡ some (ring, s.dma.region + 264192))
            × (ring.rq_addr ≡ s.dma.region)
            × RxSet 0 s'.log
            × TxSet 264192 s'.log)
          (init_i10e card (suc k) s)
  init_i10e-Enabled k s answers u =
      Ends.weaken (init_i10e-Used k s answers u) λ r s' h. (h.0, h.1, h.2, h.3, h.4)
