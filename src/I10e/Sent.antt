-- ===== src/I10e/Sent.antt =====
-- i10e.c, main from init_i10e on: the packet that the card finds.

use echo_server.Prelude.{ℕ, ◌+◌, ◌≡◌, List, ◌∷◌, Option, some}
use echo_server.Posix.Ends
use echo_server.Posix.Ends.{Ends}
use echo_server.Dma.{u32, u64}
use echo_server.Device.{Event, looked, stored, wrote, asked, Card, Driver}
use echo_server.Device.Trace.{last_write, last_store}
use echo_server.I10e.Poll.{indices}
use echo_server.I10e.Init.{rdh, rdt, tdt}
use echo_server.I10e.Send.{tq_words, one_packet, fill_with_bytes}

-- One packet is there for the card: the first transmit descriptor, which says that 64 bytes are to
-- be sent from 266240 on, as the card sees it, the bytes there, and the tail behind the descriptor.
pub record Handed (region : ℕ) (log : List Event) : Type 0 where
  pub descriptor : last_store log (region + 264192) ≡ some (tq_words (one_packet 266240))
  pub packet : last_store log (region + 266240) ≡ some (fill_with_bytes 32 0)
  pub tail : last_write log tdt ≡ some 1
  pub rx_tail : last_write log rdt ≡ some 127

-- What send_one does before it waits.
abbrev command_log : (tq_addr a iova : ℕ) → List Event → List Event
command_log tq_addr a iova log =
    wrote tdt 1
    ∷ looked (u64 (tq_addr + 12))
    ∷ looked (u64 (tq_addr + 8))
    ∷ looked (u64 (tq_addr + 4))
    ∷ looked tq_addr
    ∷ stored a (fill_with_bytes 32 0)
    ∷ stored tq_addr (tq_words (one_packet iova))
    ∷ log

module _ (card : Card) where
  -- The poll visits the descriptors up to the head that was read, and the packet is there.
  pub record Polled (region : ℕ) (r : Option (List ℕ)) (s' : Driver) : Type 0 where
    pub before : List Event
    pub reads : s'.log ≡ asked rdt ∷ asked rdh ∷ before
    pub visits : r ≡ some (indices (u32 (card.register before rdh)) 0)
    pub handed : Handed region s'.log
