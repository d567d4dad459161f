-- ===== src/X710.antt =====
-- x710.c: the admin queue of the 40-gigabit card, its set-up and one command on it.
pub mod Fill
pub mod Queue
pub mod Command
pub mod Sent
pub mod Setup
pub mod Started
mod Tests
use echo_server.Prelude.{
  ℕ, zero, suc, ◌+◌, ◌*◌, ◌/◌, ◌%◌, ◌^◌, List, [], ◌∷◌, Bool, true, false, Option, none, some, ◌==◌,
  if◌then◌else◌, not,
}
use echo_server.Posix.{Run, ok, Cmd, pure, quit, failed, ◌>>=◌, ◌>>◌}
use echo_server.Dma.{Dma, u32, u64, u64_low, u64_high, vaddr_to_iovaddr, dma_alloc_aligned}
use echo_server.Device.{
  Card, Driver, bar0_write, bar0_read, load, store, nanosleep, on_dma, loop_while,
}

-- `DMA_IOVA_OFFSET` of this driver
abbrev pub dma_iova_offset : ℕ
dma_iova_offset = 2 ^ 20

-- `adminq_desc_t`, with its flags as the 16 bits of their places
pub record AdminqDesc : Type 0 where
  pub flags : ℕ
  pub opcode : ℕ
  pub datalen : ℕ
  pub return_value : ℕ
  pub cookie_high : ℕ
  pub cookie_low : ℕ
  pub param0 : ℕ
  pub param1 : ℕ
  pub data_address_high : ℕ
  pub data_address_low : ℕ

-- After `memset`
abbrev pub zero_desc : AdminqDesc
zero_desc = record {
  flags = 0;
  opcode = 0;
  datalen = 0;
  return_value = 0;
  cookie_high = 0;
  cookie_low = 0;
  param0 = 0;
  param1 = 0;
  data_address_high = 0;
  data_address_low = 0;
}

-- The descriptor in memory, as eight words.
abbrev pub words_of : AdminqDesc → List ℕ
words_of d =
    (d.flags + 2 ^ 16 * d.opcode)
    ∷ (d.datalen + 2 ^ 16 * d.return_value)
    ∷ d.cookie_high
    ∷ d.cookie_low
    ∷ d.param0
    ∷ d.param1
    ∷ d.data_address_high
    ∷ d.data_address_low
    ∷ []

-- The places of `dd`, `buf` and `si`
abbrev pub flag_dd : ℕ
flag_dd = 1

abbrev pub flag_buf : ℕ
flag_buf = 2 ^ 12

abbrev pub flag_si : ℕ
flag_si = 2 ^ 13

-- `ADMINQ_SIZE` and `ADMINQ_RQE_BUF_SIZE`
abbrev pub adminq_size : ℕ
adminq_size = 128

abbrev pub adminq_rqe_buf_size : ℕ
adminq_rqe_buf_size = 128

-- The registers of function `pf`
abbrev pub pf_atqbal : ℕ → ℕ
pf_atqbal pf = 524288 + 4 * pf

abbrev pub pf_atqbah : ℕ → ℕ
pf_atqbah pf = 524544 + 4 * pf

abbrev pub pf_atqlen : ℕ → ℕ
pf_atqlen pf = 524800 + 4 * pf

abbrev pub pf_atqh : ℕ → ℕ
pf_atqh pf = 525056 + 4 * pf

abbrev pub pf_atqt : ℕ → ℕ
pf_atqt pf = 525312 + 4 * pf

abbrev pub pf_arqbal : ℕ → ℕ
pf_arqbal pf = 524416 + 4 * pf

abbrev pub pf_arqbah : ℕ → ℕ
pf_arqbah pf = 524672 + 4 * pf

abbrev pub pf_arqlen : ℕ → ℕ
pf_arqlen pf = 524928 + 4 * pf

abbrev pub pf_arqh : ℕ → ℕ
pf_arqh pf = 525184 + 4 * pf

abbrev pub pf_arqt : ℕ → ℕ
pf_arqt pf = 525440 + 4 * pf

abbrev pub glgen_rtrig : ℕ
glgen_rtrig = 754064

abbrev pub glgen_rstat : ℕ
glgen_rstat = 754056

-- `adminq`
pub record Adminq : Type 0 where
  pub tq : ℕ
  pub rq : ℕ

-- A descriptor of the receive queue, with the address of its buffer.
abbrev pub rqe_for : ℕ → AdminqDesc
rqe_for buf_addr = record zero_desc {
  flags = flag_buf;
  datalen = adminq_rqe_buf_size;
  data_address_high = u64_high buf_addr;
  data_address_low = u64_low buf_addr;
}

-- "Initialize RQ descriptors", from `i` on, where `left` of them are left.
unfoldable pub fill_rq : (left i rq : ℕ) → Cmd Driver (Unit {0})
fill_rq zero i rq = pure tt
fill_rq (suc n) i rq = do
  buf ← on_dma (dma_alloc_aligned adminq_rqe_buf_size 0)
  buf_addr ← on_dma (λ d. ok (vaddr_to_iovaddr dma_iova_offset d buf) d)
  store (u64 (rq + 32 * i)) (words_of (rqe_for buf_addr))
  fill_rq n (i + 1) rq

-- "Clear head and tail registers", and what follows it.
abbrev pub set_registers : (pf tq_addr rq_addr : ℕ) → Cmd Driver (Unit {0})
set_registers pf tq_addr rq_addr = do
  bar0_write (pf_atqh pf) 0
  bar0_write (pf_arqh pf) 0
  bar0_write (pf_atqt pf) 0
  bar0_write (pf_arqt pf) 0
  bar0_write (pf_arqbal pf) (u64_low rq_addr)
  bar0_write (pf_arqbah pf) (u64_high rq_addr)
  bar0_write (pf_arqlen pf) (adminq_size + 2 ^ 31)
  bar0_write (pf_atqbal pf) (u64_low tq_addr)
  bar0_write (pf_atqbah pf) (u64_high tq_addr)
  bar0_write (pf_atqlen pf) (adminq_size + 2 ^ 31)
  bar0_write (pf_arqt pf) 16

module _ (card : Card) where
  -- A round of the wait for the reset: `x & 0b11 != 0` is `x & (0b11 != 0)`.
  unfoldable pub resetting : Cmd Driver Bool
  resetting = do
    status ← bar0_read card glgen_rstat
    if status % 2 == 0 then pure false else do nanosleep 100000000; pure true

  -- At most `k` rounds of the wait for the reset; `none` if it has not ended by then.
  unfoldable pub adminq_init : (k pf : ℕ) → Cmd Driver (Option Adminq)
  unfolding fill_rq resetting
  adminq_init k pf = do
    tq ← on_dma (dma_alloc_aligned (32 * adminq_size) 6)
    rq ← on_dma (dma_alloc_aligned (32 * adminq_size) 6)
    fill_rq adminq_size 0 rq
    bar0_write glgen_rtrig 1
    ready ← loop_while k resetting
    if not ready then pure none else do
      tq_addr ← on_dma (λ d. ok (vaddr_to_iovaddr dma_iova_offset d tq) d)
      rq_addr ← on_dma (λ d. ok (vaddr_to_iovaddr dma_iova_offset d rq) d)
      set_registers pf tq_addr rq_addr
      pure (some (record { tq = tq; rq = rq }))

  -- The two errors that it prints.
  unfoldable pub adminq_check_rq : (pf : ℕ) → Adminq → Cmd Driver (ℕ × ℕ)
  adminq_check_rq pf adminq = do
    _ ← bar0_read card (pf_atqh pf)
    _ ← bar0_read card (pf_atqt pf)
    tx ← load card (u64 (adminq.tq + 4))
    _ ← bar0_read card (pf_arqh pf)
    _ ← bar0_read card (pf_arqt pf)
    rx ← load card (u64 (adminq.rq + 4))
    pure (tx / 2 ^ 16, rx / 2 ^ 16)

  -- "wait for queue to have space at the tail"
  unfoldable pub queue_full : (pf : ℕ) → Cmd Driver Bool
  queue_full pf = do
    tail ← bar0_read card (pf_atqt pf)
    head ← bar0_read card (pf_atqh pf)
    pure (u32 (tail + 1) % adminq_size == head)

  -- A round of the wait for the answer. The lengths and bases are read to be printed.
  unfoldable pub unanswered : (pf : ℕ) → Adminq → (tqe : ℕ) → Cmd Driver Bool
  unfolding adminq_check_rq
  unanswered pf adminq tqe = do
    flags ← load card tqe
    if flags % 2 == 1 then pure false else do
      len ← bar0_read card (pf_arqlen pf)
      _ ← bar0_read card (pf_atqlen pf)
      _ ← bar0_read card (pf_arqbal pf)
      _ ← bar0_read card (pf_arqbah pf)
      _ ← bar0_read card (pf_atqbal pf)
      _ ← bar0_read card (pf_atqbah pf)
      if len / 2 ^ 30 == 1 then (do _ ← adminq_check_rq pf adminq; quit failed) else pure true
