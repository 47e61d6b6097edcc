-- ===== src/Page/Join.antt =====
-- One round of the loop of `enqueue_page_to_buddy_pool`: joining a free buddy of the same order to the
-- block in hand keeps the tiling.
use native.Mathlib.Decide.{ℕ_discrete}
use risc_v_workshop.Prelude.{
  ℕ, suc, ◌+◌, ◌^◌, ◌≤◌, ◌<◌, ◌≡◌, ◌≢◌, ◌⊎◌, inl, inr, ap, ◌∙◌, sym, arith, true, false, List, ◌∷◌,
  All, All-map, All-and, All_lookup, All-remove, has, remove, length-remove, update_all,
}
use risc_v_workshop.Prelude.Bits.{pow2-suc, pow2_pos}
use risc_v_workshop.Page.Pool.{PageBuddy, page_pool_max_order, modify, unqueue_page}
use risc_v_workshop.Page.Weights.{
  Weight, IsAdditive, total, weigh_blocks, covers, starts, total-update, weigh-remove,
  weigh-le-total, covers_self, covers-IsAdditive, weigh_none, weigh_blocks_none, starts_ne,
}
use risc_v_workshop.Page.Tiles.{Tiles, IsBlock, IsBlock_same, bit, counted_sub}
use risc_v_workshop.Page.Buddies.{Buddies, Buddies-weight}

-- The block in hand and its queued buddy become one block of the next order.
module _ (pool : PageBuddy) (taken : List (ℕ × ℕ)) (c i b lower : ℕ)
    (t : Tiles pool ((c, i) ∷ taken)) (pair : Buddies c i b lower)
    (up : suc c < page_pool_max_order) (queued : has b (pool.page_list c) ≡ true)
    (clear_i : (pool.array i).used ≡ false) (clear_b : (pool.array b).used ≡ false) where
  abbrev pub joined : PageBuddy
  joined = modify lower (λ f. record f { order = suc c }) (unqueue_page c b pool)

  below : c < page_pool_max_order
  below = omega (arith, up)

  buddy_block : IsBlock pool.array pool.nr_pages c b
  buddy_block = All_lookup _ b (pool.page_list c) (t.queued c below) queued

  pub joined-conserved :
      (w : Weight)
      → IsAdditive w
      → total w page_pool_max_order joined.page_list + w (suc c) lower
        ≡ total w page_pool_max_order pool.page_list + w c i
  joined-conserved w additive = omega (
    arith,
    total-update w page_pool_max_order c pool.page_list (remove b (pool.page_list c)) below,
    weigh-remove w c b (pool.page_list c) queued,
    additive c lower,
    Buddies-weight w c i b lower pair,
  )

  fits : lower + 2 ^ suc c ≤ pool.nr_pages
  fits = omega (arith, pair.halves, t.held.0.fits, buddy_block.fits, pow2-suc c)

  keep : (j : ℕ) → j ≢ lower → (joined.array j).order ≡ (pool.array j).order
  keep j d = ground arith

  order_lower : (joined.array lower).order ≡ suc c
  order_lower = ground arith

  pub joined_used : (p : ℕ) → (joined.array p).used ≡ (pool.array p).used
  joined_used p = ground arith

  pub joined_reserved : (p : ℕ) → (joined.array p).reserved ≡ (pool.array p).reserved
  joined_reserved p = ground arith

  pfn_same : (p : ℕ) → (joined.array p).pfn ≡ (pool.array p).pfn
  pfn_same p = ground arith

  pub joined_clear : (joined.array lower).used ≡ false
  joined_clear = joined_used lower ∙ go pair.halves
    where
      go :
          ((i ≡ lower) × (b ≡ lower + 2 ^ c)) ⊎ ((i ≡ lower + 2 ^ c) × (b ≡ lower))
          → (pool.array lower).used ≡ false
      go (inl h) = ap (λ j. (pool.array j).used) (sym h.0) ∙ clear_i
      go (inr h) = ap (λ j. (pool.array j).used) (sym h.1) ∙ clear_b

  tiled_after :
      (p : ℕ)
      → p < pool.nr_pages
      → total (covers p) page_pool_max_order joined.page_list
          + weigh_blocks (covers p) ((suc c, lower) ∷ taken)
          + bit (joined.array p).reserved
        ≡ 1
  unfolding weigh_blocks
  tiled_after p h = omega (
    arith,
    t.tiled p h,
    joined-conserved (covers p) (covers-IsAdditive p),
    ap bit (joined_reserved p),
  )

  alone_after :
      (total (covers lower) page_pool_max_order joined.page_list ≡ 0)
      × (weigh_blocks (covers lower) taken ≡ 0)
  unfolding weigh_blocks
  alone_after = (omega (arith, at), omega (arith, at))
    where
      at :
          total (covers lower) page_pool_max_order joined.page_list
            + 1
            + weigh_blocks (covers lower) taken
          ≤ 1
      at = omega (
        arith,
        tiled_after lower (omega (arith, fits, pow2_pos (suc c))),
        covers_self lower (suc c),
      )

  queued_after :
      (k : ℕ)
      → k < page_pool_max_order
      → All (IsBlock joined.array joined.nr_pages k) (joined.page_list k)
  queued_after k h =
      All-map _ _ (joined.page_list k)
        (λ j r. IsBlock_same pool.array joined.array pool.nr_pages k j (keep j r.1) r.0)
        (All-and _ _ (joined.page_list k) old (
          weigh_none lower k (joined.page_list k) (
            omega (
              arith,
              alone_after.0,
              weigh-le-total (covers lower) page_pool_max_order k joined.page_list h,
            ))))
    where
      old : All (IsBlock pool.array pool.nr_pages k) (joined.page_list k)
      old =
          update_all (λ k is. All (IsBlock pool.array pool.nr_pages k) is) pool.page_list c _ k
            (All-remove _ b (pool.page_list c) (t.queued c below)) (t.queued k h)

  marked_after :
      (p : ℕ)
      → p < pool.nr_pages
      → bit (joined.array p).used ≤ weigh_blocks (starts p) ((suc c, lower) ∷ taken)
  unfolding weigh_blocks
  marked_after p h = elim (ℕ_discrete i p) [
    | yes e ↦
        omega (arith, ap bit (joined_used p), ap (λ j. bit (pool.array j).used) e, ap bit clear_i)
    | no d ↦ omega (arith, t.marked p h, ap bit (joined_used p), starts_ne p c i d)
  ]

  pub Tiles-joined : Tiles joined ((suc c, lower) ∷ taken)
  Tiles-joined = record {
    counted = λ k.
        counted_sub pool.free_nr pool.page_list t.counted c k _
          (length-remove b (pool.page_list c) queued);
    queued = queued_after;
    held = (
      record {
        below = up;
        fits = fits;
        slot = pair.slot;
        aligned = pair.at;
        ordered = order_lower;
      },
      All-map _ _ taken
          (λ k r. IsBlock_same pool.array joined.array pool.nr_pages k.0 k.1 (keep k.1 r.1) r.0)
          (All-and _ _ taken t.held.1 (weigh_blocks_none lower taken alone_after.1)),
    );
    tiled = tiled_after;
    marked = marked_after;
    numbered = λ p h. rw (pfn_same p) (t.numbered p h);
    sized = t.sized;
  }
