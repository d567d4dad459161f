-- ===== src/X710/Queue.antt =====
-- x710.c, adminq_init: the queues and the registers as the card has them afterwards.
use echo_server.Prelude.{
  ℕ, zero, suc, ◌+◌, ◌*◌, ◌%◌, ◌^◌, ◌≤◌, ◌<◌, ◌≡◌, refl, ap, ◌∙◌, List, ◌∷◌, Bool, true, false,
  Option, none, some, ◌==◌, arith,
}
use echo_server.Posix.Ends
use echo_server.Posix.Ends.{Ends, ends}
use echo_server.Dma.{Dma, dma_size, u32, u64_low, u64_high, vaddr_to_iovaddr, dma_alloc_aligned}
use echo_server.Dma.Alloc.{dma_alloc_aligned-Ends}
use echo_server.Dma.Address.{vaddr_to_iovaddr_range}
use echo_server.Device.{Event, wrote, Card, Driver, loop_while}
use echo_server.Device.Trace.{
  on_dma-Ends, last_write, last_store, last_store-Quiet, same, then_asked, Waited,
}
use echo_server.X710.{
  rqe_for, words_of, dma_iova_offset, pf_atqbal, pf_atqbah, pf_atqlen, pf_atqh, pf_atqt, pf_arqbal,
  pf_arqbah, pf_arqlen, pf_arqh, pf_arqt, glgen_rstat, glgen_rtrig, Adminq, resetting, adminq_init,
}
use echo_server.X710.Fill.{last_store-filled, Taken, fill_rq-Ends}

alloc_queue :
    (used : ℕ) (d : Dma)
    → Taken used d
    → used % 64 ≡ 0
    → used + 4159 ≤ dma_size
    → Ends
        (λ a d'. (a ≡ d.region + used) × (d'.region ≡ d.region) × Taken (used + 4096) d')
        (dma_alloc_aligned 4096 6 d)
alloc_queue used d t even fits =
    Ends.weaken
      (dma_alloc_aligned-Ends 4096 6 d t.region (omega arith) (omega arith) (omega (arith, t.at)))
      λ a d' b.
        let here : a ≡ d.region + used =
          omega (arith, b.aligned, b.behind, b.close, t.at, t.aligned) in
        (
          here,
          b.region,
          record {
            region = b.inside;
            at = omega (arith, b.next, b.region, here);
            aligned = omega (arith, b.region, t.aligned);
          },
        )

-- Descriptors from `i` on with their buffers from `a` on, as they were last stored.
unfoldable pub Posted : (left i rq a : ℕ) → List Event → Type 0
Posted zero i rq a log = Unit
Posted (suc n) i rq a log =
    (last_store log (rq + 32 * i) ≡ some (words_of (rqe_for a))) × Posted n (i + 1) rq (a + 128) log

-- The registers of the queues of function 0, as they were last written.
pub record Registers (tq rq : ℕ) (log : List Event) : Type 0 where
  pub atqbal : last_write log (pf_atqbal 0) ≡ some (u64_low tq)
  pub atqbah : last_write log (pf_atqbah 0) ≡ some (u64_high tq)
  pub atqlen : last_write log (pf_atqlen 0) ≡ some (2 ^ 31 + 128)
  pub atqh : last_write log (pf_atqh 0) ≡ some 0
  pub atqt : last_write log (pf_atqt 0) ≡ some 0
  pub arqbal : last_write log (pf_arqbal 0) ≡ some (u64_low rq)
  pub arqbah : last_write log (pf_arqbah 0) ≡ some (u64_high rq)
  pub arqlen : last_write log (pf_arqlen 0) ≡ some (2 ^ 31 + 128)
  pub arqh : last_write log (pf_arqh 0) ≡ some 0
  pub arqt : last_write log (pf_arqt 0) ≡ some 16

-- What adminq_init leaves, where it starts on an empty region.
pub record Prepared (region : ℕ) (q : Adminq) (log : List Event) : Type 0 where
  pub tq_at : q.tq ≡ region
  pub rq_at : q.rq ≡ region + 4096
  pub posted : Posted 128 0 q.rq (dma_iova_offset + 8192) log
  pub registers : Registers dma_iova_offset (dma_iova_offset + 4096) log

-- `Waiting` is what holds where the wait has not ended.
abbrev PreparedOr : (Waiting : Type 0) (region : ℕ) → Option Adminq → List Event → Type 0
PreparedOr Waiting region none log = Waiting
PreparedOr Waiting region (some q) log = Prepared region q log

-- A wait ends at once where the lowest bit of the status is clear.
wait-ready :
    (card : Card) (k : ℕ) (s : Driver)
    → card.register s.log glgen_rstat % 2 ≡ 0
    → Ends (λ b s'. Waited s s' × (b ≡ true)) (loop_while (suc k) (resetting card) s)
unfolding resetting loop_while
wait-ready card k s h =
    let even : (u32 (card.register s.log glgen_rstat) % 2 == 0) ≡ true = ground arith in
    rw even (ends (record { same_dma = refl; quiet = then_asked same }, refl))

Posted-all :
    (n i rq a : ℕ) (log : List Event)
    → ((j : ℕ)
        → j < n
        → last_store log (rq + 32 * (i + j)) ≡ some (words_of (rqe_for (a + 128 * j))))
    → Posted n i rq a log
unfolding Posted
Posted-all zero i rq a log at = tt
Posted-all (suc n) i rq a log at = (
  ap (last_store log) (omega arith)
      ∙ at 0 (omega arith)
      ∙ ap (λ b. some (words_of (rqe_for b))) (omega arith),
  Posted-all n (i + 1) rq (a + 128) log λ j h.
      ap (last_store log) (omega arith)
      ∙ at (suc j) (omega arith)
      ∙ ap (λ b. some (words_of (rqe_for b))) (omega arith),
)

queue_iova :
    (region at : ℕ) (d : Dma)
    → d.region ≡ region
    → region + dma_size < 2 ^ 63
    → at < dma_size
    → vaddr_to_iovaddr dma_iova_offset d (region + at) ≡ dma_iova_offset + at
queue_iova region at d e mapped low = omega (
  arith,
  vaddr_to_iovaddr_range dma_iova_offset (region + at) d (omega arith) (omega arith) (omega arith)
      (omega arith),
)

-- The log at the end, before the registers of the queues are written.
abbrev final : (tq_addr rq_addr : ℕ) → List Event → List Event
final tq_addr rq_addr log =
    wrote (pf_arqt 0) 16
    ∷ wrote (pf_atqlen 0) (2 ^ 31 + 128)
    ∷ wrote (pf_atqbah 0) (u32 (u64_high tq_addr))
    ∷ wrote (pf_atqbal 0) (u32 (u64_low tq_addr))
    ∷ wrote (pf_arqlen 0) (2 ^ 31 + 128)
    ∷ wrote (pf_arqbah 0) (u32 (u64_high rq_addr))
    ∷ wrote (pf_arqbal 0) (u32 (u64_low rq_addr))
    ∷ wrote (pf_arqt 0) 0
    ∷ wrote (pf_atqt 0) 0
    ∷ wrote (pf_arqh 0) 0
    ∷ wrote (pf_atqh 0) 0
    ∷ log

prepared :
    (region tq rq : ℕ) (d : Dma) (log : List Event)
    → tq ≡ region
    → rq ≡ region + 4096
    → d.region ≡ region
    → region + dma_size < 2 ^ 63
    → ((j : ℕ)
        → j < 128
        → last_store log (rq + 32 * (0 + j))
          ≡ some (words_of (rqe_for (dma_iova_offset + 8192 + 128 * j))))
    → Prepared region
        (record { tq = tq; rq = rq })
        (final (vaddr_to_iovaddr dma_iova_offset d tq) (vaddr_to_iovaddr dma_iova_offset d rq) log)
unfolding u64_low u64_high
prepared region tq rq d log at_tq at_rq e mapped stores =
    let tq_addr : vaddr_to_iovaddr dma_iova_offset d tq ≡ dma_iova_offset =
      ap (vaddr_to_iovaddr dma_iova_offset d) (at_tq ∙ omega arith)
      ∙ queue_iova region 0 d e mapped (omega arith) in
    let rq_addr : vaddr_to_iovaddr dma_iova_offset d rq ≡ dma_iova_offset + 4096 =
      ap (vaddr_to_iovaddr dma_iova_offset d) at_rq
      ∙ queue_iova region 4096 d e mapped (omega arith) in
    record {
      tq_at = at_tq;
      rq_at = at_rq;
      posted =
          Posted-all 128 0 rq (dma_iova_offset + 8192)
            (final (vaddr_to_iovaddr dma_iova_offset d tq) (vaddr_to_iovaddr dma_iova_offset d rq)
              log)
            stores;
      registers = record {
        atqbal = ap (λ a. some (u32 (u64_low a))) tq_addr;
        atqbah = ap (λ a. some (u32 (u64_high a))) tq_addr;
        atqlen = refl;
        atqh = refl;
        atqt = refl;
        arqbal = ap (λ a. some (u32 (u64_low a))) rq_addr;
        arqbah = ap (λ a. some (u32 (u64_high a))) rq_addr;
        arqlen = refl;
        arqh = refl;
        arqt = refl;
      };
    }

-- The set-up, by what is known of the wait.
adminq_init-PreparedOr :
    (card : Card) (k : ℕ) (Q : Bool → Type 0) (s : Driver)
    → Taken 0 s.dma
    → ((u : Driver) → Ends (λ b v. Waited u v × Q b) (loop_while k (resetting card) u))
    → Ends (λ r s'. PreparedOr (Q false) s.dma.region r s'.log) (adminq_init card k 0 s)
unfolding adminq_init
adminq_init-PreparedOr card k Q s t waits =
    Ends.bind _
      (on_dma-Ends (dma_alloc_aligned 4096 6) s (alloc_queue 0 s.dma t (omega arith) (omega arith)))
      λ tq s1 h1.
        Ends.bind _
          (on_dma-Ends (dma_alloc_aligned 4096 6) s1
            (alloc_queue 4096 s1.dma h1.0.2 (omega arith) (omega arith)))
          λ rq s2 h2.
            Ends.bind _
              (fill_rq-Ends 128 0 rq 8192 s2 h2.0.2 (omega arith)
                (omega (arith, h1, h2, t.region.mapped)))
              λ _ s3 h3.
                Ends.bind _ (waits (record s3 { log = wrote glgen_rtrig 1 ∷ s3.log })) elim [
                  | false ↦ λ s4 w. ends w.1
                  | true ↦ λ s4 (w, _). ends (
                      prepared s.dma.region tq rq s4.dma s4.log (h1.0.0 ∙ omega arith)
                        (omega (arith, h1.0.1, h2.0.0))
                        (omega (arith, ap (λ d. d.region) w.same_dma, h3.1, h2.0.1, h1.0.1))
                        t.region.mapped
                        (λ j lt.
                          last_store-Quiet (rq + 32 * (0 + j)) w.quiet
                          ∙ ap (λ l. last_store l (rq + 32 * (0 + j))) h3.0
                          ∙ last_store-filled 128 0 rq (dma_iova_offset + 8192) j s2.log lt))
                ]

ready_queue :
    (region : ℕ) (r : Option Adminq) (log : List Event)
    → PreparedOr (false ≡ true) region r log
    → (q : Adminq) × (r ≡ some q) × Prepared region q log
ready_queue region none log p = cc
ready_queue region (some q) log p = (q, refl, p)

pub adminq_init-Prepared :
    (card : Card) (k : ℕ) (s : Driver)
    → ((log : List Event) → card.register log glgen_rstat % 2 ≡ 0)
    → Taken 0 s.dma
    → Ends
        (λ r s'. (q : Adminq) × (r ≡ some q) × Prepared s.dma.region q s'.log)
        (adminq_init card (suc k) 0 s)
adminq_init-Prepared card k s even t =
    Ends.weaken
      (adminq_init-PreparedOr card (suc k) (λ b. b ≡ true) s t
        λ u. wait-ready card k u (even u.log))
      (λ r s' p. ready_queue s.dma.region r s'.log p)
