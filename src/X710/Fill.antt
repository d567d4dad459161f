-- ===== src/X710/Fill.antt =====
-- x710.c: the receive descriptors of the admin queue, as adminq_init leaves them.
use mathlib.Core.Path.{subst}
use echo_server.Prelude.{
  ℕ, zero, suc, ◌+◌, ◌*◌, ◌%◌, ◌^◌, ◌≤◌, ◌<◌, ◌≡◌, refl, ap, ◌∙◌, List, ◌∷◌, some, arith,
}
use native.Mathlib.Nat.{mod-eq_of_lt}
use echo_server.Posix.Ends
use echo_server.Posix.Ends.{Ends, ends}
use echo_server.Dma.{Dma, dma_size, u64, vaddr_to_iovaddr, dma_alloc_aligned}
use echo_server.Dma.Alloc.{IsRegion, dma_alloc_aligned-Ends}
use echo_server.Dma.Address.{vaddr_to_iovaddr_range}
use echo_server.Device.{Event, stored, Driver}
use echo_server.Device.Trace.{last_store, on_dma-Ends}
use echo_server.X710.{rqe_for, words_of, dma_iova_offset, fill_rq}

-- The stores of `left` descriptors from `i` on, with buffers from `a` on.
abbrev pub filled : (left i rq a : ℕ) → List Event → List Event
filled zero i rq a log = log
filled (suc n) i rq a log =
    filled n (i + 1) rq (a + 128) (stored (rq + 32 * i) (words_of (rqe_for a)) ∷ log)

pub last_store_here :
    (x y : ℕ) (words : List ℕ) (log : List Event)
    → x ≡ y
    → last_store (stored x words ∷ log) y ≡ some words
last_store_here x y words log e = ground arith

last_store_below :
    (x y : ℕ) (words : List ℕ) (log : List Event)
    → y < x
    → last_store (stored x words ∷ log) y ≡ last_store log y
last_store_below x y words log lt = ground arith

last_store-behind :
    (n i rq a j : ℕ) (log : List Event)
    → j < i
    → last_store (filled n i rq a log) (rq + 32 * j) ≡ last_store log (rq + 32 * j)
last_store-behind zero i rq a j log h = refl
last_store-behind (suc n) i rq a j log h =
    last_store-behind n (i + 1) rq (a + 128) j _ (omega arith)
    ∙ last_store_below (rq + 32 * i) (rq + 32 * j) _ log (omega arith)

-- Each descriptor is the last that was stored at its place.
pub last_store-filled :
    (n i rq a j : ℕ) (log : List Event)
    → j < n
    → last_store (filled n i rq a log) (rq + 32 * (i + j)) ≡ some (words_of (rqe_for (a + 128 * j)))
last_store-filled zero i rq a j log h = absurd (omega arith)
last_store-filled (suc n) i rq a zero log h =
    ap (last_store (filled (suc n) i rq a log)) (omega arith)
    ∙ last_store-behind n (i + 1) rq (a + 128) i _ (omega arith)
    ∙ last_store_here (rq + 32 * i) (rq + 32 * i) _ log refl
    ∙ ap (λ b. some (words_of (rqe_for b))) (omega arith)
last_store-filled (suc n) i rq a (suc j) log h =
    ap (last_store (filled (suc n) i rq a log)) (omega arith)
    ∙ last_store-filled n (i + 1) rq (a + 128) j _ (omega arith)
    ∙ ap (λ b. some (words_of (rqe_for b))) (omega arith)

-- Of the region, `used` bytes are taken, and it starts at a multiple of 64.
pub record Taken (used : ℕ) (d : Dma) : Type 0 where
  pub region : IsRegion d
  pub at : d.next_free ≡ d.region + used
  pub aligned : d.region % 64 ≡ 0

alloc_unaligned :
    (used : ℕ) (d : Dma)
    → Taken used d
    → used + 128 ≤ dma_size
    → Ends
        (λ a d'. (a ≡ d.region + used) × (d'.region ≡ d.region) × Taken (used + 128) d')
        (dma_alloc_aligned 128 0 d)
alloc_unaligned used d t fits =
    Ends.weaken
      (dma_alloc_aligned-Ends 128 0 d t.region (omega arith) (omega arith) (omega (arith, t.at)))
      λ a d' b.
        let here : a ≡ d.region + used = omega (arith, b.behind, b.close, t.at) in
        (
          here,
          b.region,
          record {
            region = b.inside;
            at = omega (arith, b.next, b.region, here);
            aligned = omega (arith, b.region, t.aligned);
          },
        )

iova_at :
    (used buf : ℕ) (d d' : Dma)
    → (buf ≡ d.region + used) × (d'.region ≡ d.region) × Taken (used + 128) d'
    → used < dma_size
    → vaddr_to_iovaddr dma_iova_offset d' buf ≡ dma_iova_offset + used
iova_at used buf d d' (at, same, t) h = omega (
  arith,
  vaddr_to_iovaddr_range dma_iova_offset buf d' (omega (arith, t.region.mapped)) (omega arith)
      (omega arith) (omega arith),
)

-- What the descriptors from `i` on leave, with `used` bytes taken before.
pub fill_rq-Ends :
    (n i rq used : ℕ) (s : Driver)
    → Taken used s.dma
    → used + 128 * n ≤ dma_size
    → rq + 32 * (i + n) < 2 ^ 64
    → Ends
        (λ _ s'.
          (s'.log ≡ filled n i rq (dma_iova_offset + used) s.log)
          × (s'.dma.region ≡ s.dma.region)
          × Taken (used + 128 * n) s'.dma)
        (fill_rq n i rq s)
unfolding fill_rq
fill_rq-Ends zero i rq used s t fits low =
    ends (refl, refl, subst (λ m. Taken m s.dma) (omega arith) t)
fill_rq-Ends (suc n) i rq used s t fits low =
    Ends.bind _
      (on_dma-Ends (dma_alloc_aligned 128 0) s (alloc_unaligned used s.dma t (omega arith)))
      λ buf v h.
        let iova : vaddr_to_iovaddr dma_iova_offset v.dma buf ≡ dma_iova_offset + used =
          iova_at used buf s.dma v.dma h.0 (omega arith) in
        let slot : u64 (rq + 32 * i) ≡ rq + 32 * i = mod-eq_of_lt (omega arith) in
        rw (slot, iova)
          (Ends.weaken (fill_rq-Ends n (i + 1) rq (used + 128) _ h.0.2 (omega arith) (omega arith))
            λ _ u e. (
              e.0
                  ∙ ap
                      (λ b. filled n (i + 1) rq b (
                        stored (rq + 32 * i) (words_of (rqe_for (dma_iova_offset + used))) ∷ v.log))
                      (omega arith)
                  ∙ ap (λ l. filled (suc n) i rq (dma_iova_offset + used) l) h.1,
              e.1 ∙ h.0.1,
              subst (λ m. Taken m u.dma) (omega arith) e.2,
            ))
