-- ===== src/I10e/Ring.antt =====
-- The layout of the receive ring of i10e.c.
use mathlib.Core.Path.{subst}
use echo_server.Prelude.{
  ℕ, zero, suc, ◌+◌, ◌*◌, ◌%◌, ◌≤◌, ◌<◌, ◌≡◌, refl, ◌∙◌, List, [], ◌∷◌, length, arith,
}
use echo_server.Posix.Ends
use echo_server.Posix.Ends.{Ends, ends}
use echo_server.Dma.{Dma, dma_size, vaddr_to_iovaddr, dma_alloc_aligned}
use echo_server.Dma.Alloc.{IsRegion, dma_alloc_aligned-Ends}
use echo_server.Dma.Address.{vaddr_to_iovaddr_range}
use echo_server.I10e.{RqDesc, rq_len, dma_iova_offset, fill_descs, init_rx_ring}

-- Descriptors whose buffers lie one behind the other from `a` on.
abbrev pub Laid : ℕ → List RqDesc → Type 0
Laid a [] = Unit
Laid a (x ∷ xs) = (x.buffer_address ≡ a) × Laid (a + 2048) xs

-- `used` bytes of the region are taken, a multiple of 128.
pub record Used (used : ℕ) (d : Dma) : Type 0 where
  pub region : IsRegion d
  pub at : d.next_free ≡ d.region + used
  pub aligned : d.region % 128 ≡ 0
  pub even : used % 128 ≡ 0

-- Where the next address is a multiple of 128, the block starts there.
pub alloc_exact :
    (size used : ℕ) (d : Dma)
    → Used used d
    → size % 128 ≡ 0
    → used + 127 + size ≤ dma_size
    → Ends
        (λ a d'. (a ≡ d.region + used) × (d'.region ≡ d.region) × Used (used + size) d')
        (dma_alloc_aligned size 7 d)
alloc_exact size used d u even fits =
    Ends.weaken
      (dma_alloc_aligned-Ends size 7 d u.region (omega arith) (omega arith) (omega (arith, u.at)))
      λ a d' b.
        let here : a ≡ d.region + used =
          omega (arith, b.aligned, b.behind, b.close, u.at, u.aligned, u.even) in
        (
          here,
          b.region,
          record {
            region = b.inside;
            at = omega (arith, b.next, b.region, here);
            aligned = omega (arith, b.region, u.aligned);
            even = omega (arith, u.even);
          },
        )

buffer_at :
    (used : ℕ) (d d' : Dma) (a : ℕ)
    → a ≡ d.region + used
    → d'.region ≡ d.region
    → Used (used + 2048) d'
    → used < dma_size
    → vaddr_to_iovaddr dma_iova_offset d' a ≡ dma_iova_offset + used
buffer_at used d d' a e same u h = omega (
  arith,
  vaddr_to_iovaddr_range dma_iova_offset a d' (omega (arith, u.region.mapped)) (omega arith)
      (omega arith) (omega arith),
)

fill_descs-Laid :
    (n used : ℕ) (d : Dma)
    → Used used d
    → used + 127 + 2048 * n ≤ dma_size
    → Ends
        (λ descs d'.
          (length descs ≡ n)
          × Laid (dma_iova_offset + used) descs
          × (d'.next_free ≡ d.region + used + 2048 * n)
          × (d'.region ≡ d.region)
          × Used (used + 2048 * n) d')
        (fill_descs n d)
unfolding fill_descs
fill_descs-Laid zero used d u fits =
    ends (refl, tt, omega (arith, u.at), refl, subst (λ k. Used k d) (omega arith) u)
fill_descs-Laid (suc n) used d u fits =
    Ends.bind _ (alloc_exact 2048 used d u refl (omega arith)) λ a d' b.
      Ends.bind _ (fill_descs-Laid n (used + 2048) d' b.2 (omega arith)) λ descs d'' c. ends (
        omega (arith, c.0),
        (
          buffer_at used d d' a b.0 b.1 b.2 (omega arith),
          subst (λ k. Laid k descs) (omega arith) c.1,
        ),
        omega (arith, c.2, b.1),
        c.3 ∙ b.1,
        subst (λ k. Used k d'') (omega arith) c.4,
      )

-- From an empty region at an address divisible by 128, the set-up of the receive ring ends
-- normally with the ring at the start of the region and 128 descriptors whose buffers of 2048
-- bytes lie one behind the other from 2048 on, as the card sees them.
pub init_rx_ring_layout :
    (d : Dma)
    → IsRegion d
    → d.next_free ≡ d.region
    → d.region % 128 ≡ 0
    → Ends
        (λ ring d'.
          (ring.rq_addr ≡ d.region)
          × (length ring.descs ≡ rq_len)
          × Laid 2048 ring.descs
          × (d'.next_free ≡ d.region + 2048 + 2048 * rq_len))
        (init_rx_ring d)
unfolding init_rx_ring
init_rx_ring_layout d r new aligned =
    Ends.bind _
      (alloc_exact 2048 0 d
        (record { region = r; at = omega arith; aligned = aligned; even = refl }) refl
        (omega arith))
      λ a d' b.
        Ends.bind _ (fill_descs-Laid 128 2048 d' b.2 (omega arith))
          λ descs d'' c. ends (omega arith, c.0, c.1, omega (arith, c.2, b.1))

-- The same, with what is taken afterwards.
pub init_rx_ring-Used :
    (d : Dma)
    → Used 0 d
    → Ends
        (λ ring d'. (ring.rq_addr ≡ d.region) × (d'.region ≡ d.region) × Used 264192 d')
        (init_rx_ring d)
unfolding init_rx_ring
init_rx_ring-Used d u = Ends.bind _ (alloc_exact 2048 0 d u refl (omega arith)) λ a d' b.
    Ends.bind _ (fill_descs-Laid 128 2048 d' b.2 (omega arith))
      λ descs d'' c. ends (omega arith, c.3 ∙ b.1, c.4)
