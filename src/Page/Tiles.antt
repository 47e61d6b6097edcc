-- ===== src/Page/Tiles.antt =====
-- The invariant of the buddy allocator: the free blocks in the queues, the blocks that are out, and
-- the reserved pages tile the page array.
use native.Mathlib.Decide.{ℕ_discrete}
use risc_v_workshop.Prelude.{
  ℕ, ◌+◌, ◌*◌, ◌%◌, ◌^◌, ◌≤◌, ◌<◌, ◌≡◌, ◌≢◌, Bool, true, List, [], ◌∷◌, arith, length,
  length-append, All, update, update_at, update_other, add64, sub64, ◌++◌, if◌then◌else◌,
}
use risc_v_workshop.Prelude.Bits.{pow2_pos}
use risc_v_workshop.Page.Frame.{PageFrame}
use risc_v_workshop.Page.Pool.{PageBuddy, page_pool_max_order}
use risc_v_workshop.Page.Weights.{
  total, weigh_blocks, covers, covers_self, starts, weigh-le-total, weigh_none,
}

-- A block of 2 ^ k frames: inside the array, aligned, with its order stored in its first frame.
pub record IsBlock (array : ℕ → PageFrame) (nr k i : ℕ) : Type 0 where
  pub below : k < page_pool_max_order
  pub fits : i + 2 ^ k ≤ nr
  pub slot : ℕ
  pub aligned : i ≡ slot * 2 ^ k
  pub ordered : (array i).order ≡ k

abbrev pub bit : Bool → ℕ
bit b = if b then 1 else 0

-- `out` lists the blocks that are in no queue, as orders and indices.
pub record Tiles (pool : PageBuddy) (out : List (ℕ × ℕ)) : Type 0 where
  pub counted : (k : ℕ) → pool.free_nr k ≡ length (pool.page_list k) % 2 ^ 64
  pub queued :
      (k : ℕ)
      → k < page_pool_max_order
      → All (λ i. IsBlock pool.array pool.nr_pages k i) (pool.page_list k)
  pub held : All (λ b. IsBlock pool.array pool.nr_pages b.0 b.1) out
  pub tiled :
      (p : ℕ)
      → p < pool.nr_pages
      → total (covers p) page_pool_max_order pool.page_list
          + weigh_blocks (covers p) out
          + bit (pool.array p).reserved
        ≡ 1
  pub marked : (p : ℕ) → p < pool.nr_pages → bit (pool.array p).used ≤ weigh_blocks (starts p) out
  pub numbered : (p : ℕ) → p < pool.nr_pages → (pool.array p).pfn ≡ pool.min_pfn + p
  pub sized : pool.min_pfn + pool.nr_pages < 2 ^ 64

-- Between two operations the blocks that are out are handed out, and marked as used.
pub record WellFormed (pool : PageBuddy) (taken : List (ℕ × ℕ)) : Type 0 where
  pub tiles : Tiles pool taken
  pub used : All (λ b. (pool.array b.1).used ≡ true) taken

pub IsBlock_same :
    (a b : ℕ → PageFrame) (nr k i : ℕ)
    → (b i).order ≡ (a i).order
    → IsBlock a nr k i
    → IsBlock b nr k i
IsBlock_same a b nr k i e h = record {
  below = h.below;
  fits = h.fits;
  slot = h.slot;
  aligned = h.aligned;
  ordered = omega (arith, e, h.ordered);
}

-- No queued block starts at a page of a block that is out.
module _ (pool : PageBuddy) (out : List (ℕ × ℕ)) (t : Tiles pool out) (p : ℕ) where
  pub queue_none :
      p < pool.nr_pages
      → 1 ≤ weigh_blocks (covers p) out
      → (k : ℕ) → k < page_pool_max_order
      → All (λ i. i ≢ p) (pool.page_list k)
  queue_none inside out_one k h = weigh_none p k (pool.page_list k) (
      omega
        (arith, t.tiled p inside, weigh-le-total (covers p) page_pool_max_order k pool.page_list h))

-- The counter of a queue follows an append and a removal.
module _ (free : ℕ → ℕ) (lists : ℕ → List ℕ)
    (h : (k : ℕ) → free k ≡ length (lists k) % 2 ^ 64) where
  pub counted_add :
      (c x k : ℕ)
      → update free c (add64 (free c) 1) k ≡ length (update lists c (lists c ++ x ∷ []) k) % 2 ^ 64
  counted_add c x k = elim (ℕ_discrete c k) [
    | yes e ↦
        rw (update_at free c k _ e, update_at lists c k _ e, length-append (lists c))
          (omega (arith, h c))
    | no d ↦ rw (update_other free c k _ d, update_other lists c k _ d) (h k)
  ]

  pub counted_sub :
      (c k : ℕ) (rest : List ℕ)
      → length rest + 1 ≡ length (lists c)
      → update free c (sub64 (free c) 1) k ≡ length (update lists c rest k) % 2 ^ 64
  counted_sub c k rest e = elim (ℕ_discrete c k) [
    | yes same ↦ rw (update_at free c k _ same, update_at lists c k _ same) (omega (arith, h c, e))
    | no d ↦ rw (update_other free c k _ d, update_other lists c k _ d) (h k)
  ]

-- The first page of a block that is out is in no other block.
pub head_alone :
    (pool : PageBuddy) (out : List (ℕ × ℕ)) (k j : ℕ)
    → Tiles pool ((k, j) ∷ out)
    → weigh_blocks (covers j) out ≡ 0
unfolding weigh_blocks
head_alone pool out k j t =
    omega (arith, t.tiled j (omega (arith, t.held.0.fits, pow2_pos k)), covers_self j k)
