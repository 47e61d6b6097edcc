-- ===== src/Page/Halves.antt =====
-- Splitting a block: the tiling after one round of the loop of `adjust_page_order`, kern/page-pfdb.c.
use risc_v_workshop.Prelude.{
  ℕ, suc, ◌+◌, ◌*◌, ◌%◌, ◌^◌, ◌≤◌, ◌<◌, ◌≡◌, ◌≢◌, ap, List, [], ◌∷◌, ◌++◌, arith, length, All,
  All-map, All-and, All-append, update_all,
}
use risc_v_workshop.Prelude.Bits.{pow2-suc, pow2_pos, bit_xor_even}
use risc_v_workshop.Page.Frame.{PageFrame}
use risc_v_workshop.Page.Pool.{PageBuddy, page_pool_max_order, store_half, buddy_index}
use risc_v_workshop.Page.Weights.{
  Weight, IsAdditive, total, weigh_blocks, covers, starts, weigh-append, total-update, covers_in,
  covers-IsAdditive, weigh_blocks_none,
}
use risc_v_workshop.Page.Tiles.{Tiles, IsBlock, IsBlock_same, bit, queue_none, counted_add}

-- The buddy of the lower half of a block is its upper half.
pub buddy_of_half :
    {array : ℕ → PageFrame} {nr c i : ℕ} → IsBlock array nr (suc c) i → buddy_index i c ≡ i + 2 ^ c
buddy_of_half {c} {i} h =
    let e : i ≡ h.slot * 2 * 2 ^ c = omega (arith, h.aligned, ap (λ t. h.slot * t) (pow2-suc c)) in
    rw e (bit_xor_even c h.slot)

module _ (pool : PageBuddy) (out : List (ℕ × ℕ)) (c i : ℕ) (t : Tiles pool ((suc c, i) ∷ out)) where
  pub block : IsBlock pool.array pool.nr_pages (suc c) i
  block = t.held.0

  abbrev half : ℕ
  half = i + 2 ^ c

  abbrev pub after : PageBuddy
  after = store_half i half c pool

  pub half_fits : half + 2 ^ c ≤ pool.nr_pages
  half_fits = omega (arith, block.fits, pow2-suc c)

  keep : (j : ℕ) → j ≢ i → j ≢ half → (after.array j).order ≡ (pool.array j).order
  keep j p q = ground arith

  order_lower : (after.array i).order ≡ c
  order_lower = ground arith

  order_upper : (after.array half).order ≡ c
  order_upper = ground (arith, pow2_pos c)

  pub used_same : (p : ℕ) → (after.array p).used ≡ (pool.array p).used
  used_same p = ground arith

  pub reserved_same : (p : ℕ) → (after.array p).reserved ≡ (pool.array p).reserved
  reserved_same p = ground arith

  pfn_same : (p : ℕ) → (after.array p).pfn ≡ (pool.array p).pfn
  pfn_same p = ground arith

  -- the pages of the block in hand are in no other block
  alone : (p : ℕ) → i ≤ p → p < i + 2 ^ suc c → weigh_blocks (covers p) out ≡ 0
  unfolding weigh_blocks
  alone p h g = omega (arith, t.tiled p (omega (arith, block.fits)), covers_in p (suc c) i h g)

  one_out : (p : ℕ) → i ≤ p → p < i + 2 ^ suc c → 1 ≤ weigh_blocks (covers p) ((suc c, i) ∷ out)
  unfolding weigh_blocks
  one_out p h g = omega (arith, covers_in p (suc c) i h g)

  kept_blocks :
      (k : ℕ) (is : List ℕ)
      → All (λ j. j ≢ i) is
      → All (λ j. j ≢ half) is
      → All (IsBlock pool.array pool.nr_pages k) is
      → All (IsBlock after.array after.nr_pages k) is
  kept_blocks k is p q h =
      All-map _ _ is
        (λ j r. IsBlock_same pool.array after.array pool.nr_pages k j (keep j r.0.0 r.0.1) r.1)
        (All-and _ _ is (All-and _ _ is p q) h)

  upper : IsBlock after.array after.nr_pages c half
  upper = record {
    below = omega (arith, block.below);
    fits = half_fits;
    slot = block.slot * 2 + 1;
    aligned = omega (arith, block.aligned, ap (λ t. block.slot * t) (pow2-suc c));
    ordered = order_upper;
  }

  lower : IsBlock after.array after.nr_pages c i
  lower = record {
    below = omega (arith, block.below);
    fits = omega (arith, half_fits);
    slot = block.slot * 2;
    aligned = omega (arith, block.aligned, ap (λ t. block.slot * t) (pow2-suc c));
    ordered = order_lower;
  }

  queue_kept :
      (k : ℕ)
      → k < page_pool_max_order
      → All (IsBlock after.array after.nr_pages k) (pool.page_list k)
  queue_kept k h =
      kept_blocks k (pool.page_list k)
        (queue_none pool ((suc c, i) ∷ out) t i (omega (arith, block.fits, pow2_pos (suc c)))
          (one_out i (omega arith) (omega (arith, pow2_pos (suc c)))) k h)
        (queue_none pool ((suc c, i) ∷ out) t half (omega (arith, half_fits, pow2_pos c))
          (one_out half (omega arith) (omega (arith, pow2_pos c, pow2-suc c))) k h)
        (t.queued k h)

  out_kept : All (λ b. IsBlock after.array after.nr_pages b.0 b.1) out
  out_kept =
      All-map _ _ out
        (λ b r.
          IsBlock_same pool.array after.array pool.nr_pages b.0 b.1 (keep b.1 r.0.0 r.0.1) r.1)
        (All-and _ _ out
          (All-and _ _ out
            (weigh_blocks_none i out (alone i (omega arith) (omega (arith, pow2_pos (suc c)))))
            (weigh_blocks_none half out
              (alone half (omega arith) (omega (arith, pow2_pos c, pow2-suc c)))))
          t.held.1)

  counted_after : (k : ℕ) → after.free_nr k ≡ length (after.page_list k) % 2 ^ 64
  counted_after k = counted_add pool.free_nr pool.page_list t.counted c half k

  queued_after :
      (k : ℕ)
      → k < page_pool_max_order
      → All (IsBlock after.array after.nr_pages k) (after.page_list k)
  queued_after k h =
      update_all (λ k is. All (IsBlock after.array after.nr_pages k) is) pool.page_list c _ k
        (All-append _ (pool.page_list c) (half ∷ []) (queue_kept c (omega (arith, block.below)))
          (upper, tt))
        (queue_kept k h)

  pub store_half-conserved :
      (w : Weight)
      → IsAdditive w
      → total w page_pool_max_order after.page_list + w c i
        ≡ total w page_pool_max_order pool.page_list + w (suc c) i
  store_half-conserved w additive = omega (
    arith,
    total-update w page_pool_max_order c pool.page_list (pool.page_list c ++ half ∷ [])
        (omega (arith, block.below)),
    weigh-append w c half (pool.page_list c),
    additive c i,
  )

  tiled_after :
      (p : ℕ)
      → p < pool.nr_pages
      → total (covers p) page_pool_max_order after.page_list
          + weigh_blocks (covers p) ((c, i) ∷ out)
          + bit (after.array p).reserved
        ≡ 1
  unfolding weigh_blocks
  tiled_after p h = omega (
    arith,
    t.tiled p h,
    store_half-conserved (covers p) (covers-IsAdditive p),
    ap bit (reserved_same p),
  )

  marked_after :
      (p : ℕ)
      → p < pool.nr_pages
      → bit (after.array p).used ≤ weigh_blocks (starts p) ((c, i) ∷ out)
  unfolding weigh_blocks
  marked_after p h = omega (arith, t.marked p h, ap bit (used_same p))

  pub Tiles-store_half : Tiles after ((c, i) ∷ out)
  Tiles-store_half = record {
    counted = counted_after;
    queued = queued_after;
    held = (lower, out_kept);
    tiled = tiled_after;
    marked = marked_after;
    numbered = λ p h. rw (pfn_same p) (t.numbered p h);
    sized = t.sized;
  }
