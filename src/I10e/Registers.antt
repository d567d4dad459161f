-- ===== src/I10e/Registers.antt =====
-- The card of i10e.c: what init_i10e waits for, and what the registers of its rings are set to.

use echo_server.Prelude.{ℕ, ◌/◌, ◌%◌, ◌^◌, ◌≡◌, List, some}
use echo_server.Dma.{u32, u64_low, u64_high}
use echo_server.Device.{Event, Card}
use echo_server.Device.Trace.{last_write}
use echo_server.I10e.Init.{
  status, ctrl_addr, eec, rdrxctl, rxdctl, rxctrl, txdctl, rdbal, rdbah, rdlen, rdh, rdt, tdbal,
  tdbah, tdlen, tdh, tdt,
}

-- What the waits look for, as the card's manual has it of a card that works.
pub record Answers (card : Card) : Type 0 where
  pub no_master : (log : List Event) → u32 (card.register log status) / 2 ^ 19 % 2 ≡ 0
  pub reset_over : (log : List Event) → u32 (card.register log ctrl_addr) / 2 ^ 26 % 2 ≡ 0
  pub eeprom_loaded : (log : List Event) → u32 (card.register log eec) / 2 ^ 9 % 2 ≡ 1
  pub dma_ready : (log : List Event) → u32 (card.register log rdrxctl) / 2 ^ 3 % 2 ≡ 1
  pub rx_queue_on : (log : List Event) → u32 (card.register log rxdctl) / 2 ^ 25 % 2 ≡ 1
  pub rx_on : (log : List Event) → u32 (card.register log rxctrl) / 2 ^ 0 % 2 ≡ 1
  pub tx_queue_on : (log : List Event) → u32 (card.register log txdctl) / 2 ^ 25 % 2 ≡ 1

-- The registers of a ring that starts at `iova` for the card, as they were last written.
pub record RxSet (iova : ℕ) (log : List Event) : Type 0 where
  pub base_low : last_write log rdbal ≡ some (u64_low iova)
  pub base_high : last_write log rdbah ≡ some (u64_high iova)
  pub size : last_write log rdlen ≡ some 2048
  pub head : last_write log rdh ≡ some 0
  pub tail : last_write log rdt ≡ some 127
  pub enabled : last_write log rxctrl ≡ some 1

pub record TxSet (iova : ℕ) (log : List Event) : Type 0 where
  pub base_low : last_write log tdbal ≡ some (u64_low iova)
  pub base_high : last_write log tdbah ≡ some (u64_high iova)
  pub size : last_write log tdlen ≡ some 2048
  pub head : last_write log tdh ≡ some 0
  pub tail : last_write log tdt ≡ some 0
  pub enabled : last_write log txdctl ≡ some (2 ^ 25)
