-- ===== src/I10e/Send.antt =====
-- i10e.c: send_one and main.
use echo_server.Prelude.{
  ℕ, zero, suc, ◌+◌, ◌*◌, ◌%◌, ◌^◌, List, [], ◌∷◌, Bool, true, false, Option, none, some, ◌==◌,
  if◌then◌else◌,
}
use echo_server.Posix.{ok, Cmd, pure, ◌>>=◌, ◌>>◌}
use echo_server.Dma.{u64, u64_low, u64_high, vaddr_to_iovaddr, dma_alloc_aligned}
use echo_server.Device.{Card, Driver, bar0_write, bar0_read, load, store, nanosleep, on_dma}
use echo_server.I10e.{dma_iova_offset, rq_poll_once}
use echo_server.I10e.Init.{rdh, rdt, tdh, tdt, wait_then, init_i10e}

-- `tq_desc_t`
pub record TqDesc : Type 0 where
  pub buffer_address : ℕ
  pub length : ℕ
  pub cso : ℕ
  pub cmd : ℕ
  pub sta_and_rsvd : ℕ
  pub css : ℕ
  pub vlan : ℕ

abbrev pub tq_words : TqDesc → List ℕ
tq_words d =
    u64_low d.buffer_address
    ∷ u64_high d.buffer_address
    ∷ (d.length + 2 ^ 16 * d.cso + 2 ^ 24 * d.cmd)
    ∷ (d.sta_and_rsvd + 2 ^ 8 * d.css + 2 ^ 16 * d.vlan)
    ∷ []

-- The descriptor that send_one writes.
abbrev pub one_packet : ℕ → TqDesc
one_packet a = record {
  buffer_address = a;
  length = 64;
  cso = 0;
  cmd = 1 + 2 ^ 3;
  sta_and_rsvd = 0;
  css = 0;
  vlan = 0;
}

-- The words of memory in which each byte is its index, from `i` on.
unfoldable pub fill_with_bytes : (words i : ℕ) → List ℕ
fill_with_bytes zero i = []
fill_with_bytes (suc n) i =
    (i % 256 + 2 ^ 8 * ((i + 1) % 256) + 2 ^ 16 * ((i + 2) % 256) + 2 ^ 24 * ((i + 3) % 256))
    ∷ fill_with_bytes n (i + 4)

module _ (card : Card) where
  -- "TDH, TDT" and "RDH, RDT", as they are printed.
  abbrev read_rings : Cmd Driver (Unit {0})
  read_rings = do
    _ ← bar0_read card tdh
    _ ← bar0_read card tdt
    _ ← bar0_read card rdh
    _ ← bar0_read card rdt
    pure tt

  -- A round of the wait for the status of the descriptor. The two words of 64 bits are printed.
  unfoldable pub sending : (tqe : ℕ) → Cmd Driver Bool
  sending tqe = do
    state ← load card (u64 (tqe + 12))
    if state % 2 == 1 then pure false else do
      read_rings
      _ ← load card tqe
      _ ← load card (u64 (tqe + 4))
      _ ← load card (u64 (tqe + 8))
      _ ← load card (u64 (tqe + 12))
      nanosleep 1000000000
      pure true

  -- At most `k` rounds of the wait; `none` if the packet has not been sent by then.
  unfoldable pub send_one : (k tq_addr : ℕ) → Cmd Driver (Option (Unit {0}))
  unfolding fill_with_bytes sending
  send_one k tq_addr = do
    buffer_address ← on_dma (dma_alloc_aligned 128 7)
    a ← on_dma (λ d. ok (vaddr_to_iovaddr dma_iova_offset d buffer_address) d)
    store tq_addr (tq_words (one_packet a))
    store buffer_address (fill_with_bytes 32 0)
    _ ← load card tq_addr
    _ ← load card (u64 (tq_addr + 4))
    _ ← load card (u64 (tq_addr + 8))
    _ ← load card (u64 (tq_addr + 12))
    bar0_write tdt 1
    wait_then card k (sending tq_addr) (do
      read_rings
      nanosleep 2000000000
      _ ← bar0_read card rdh
      _ ← bar0_read card rdt
      pure (some tt))

  -- `main`, from `init_i10e` on: the descriptors that the poll prints, with `fuel` rounds for it.
  unfoldable pub main : (k j fuel : ℕ) → Cmd Driver (Option (List ℕ))
  unfolding send_one
  main k j fuel = do
    made ← init_i10e card k
    elim made [
      | none ↦ pure none
      | some (ring, tq_addr) ↦ do
        sent ← send_one j tq_addr
        elim sent [
          | none ↦ pure none
          | some _ ↦ do
            head ← bar0_read card rdh
            tail ← bar0_read card rdt
            pure (rq_poll_once fuel head tail)
        ]
    ]
