-- ===== src/Page/GiveBack.antt =====
-- The steps of `enqueue_page_to_buddy_pool`, kern/page-pfdb.c, around its loop.
use native.Mathlib.Decide.{ℕ_discrete}
use risc_v_workshop.Prelude.{
  ℕ, ◌+◌, ◌≤◌, ◌<◌, ◌≡◌, ◌≢◌, ap, ◌∙◌, arith, true, false, List, [], ◌∷◌, ◌++◌, All, All-map,
  All-and, All-append, has_append_ne, update_same, update_all, ◌==◌,
}
use risc_v_workshop.Prelude.Bits.{pow2_pos}
use risc_v_workshop.Page.Frame.{page_unmark_used}
use risc_v_workshop.Page.Pool.{PageBuddy, page_pool_max_order, buddy_index, modify, queue_page}
use risc_v_workshop.Page.Weights.{
  Weight, total, weigh_blocks, covers, starts, weigh-append, total-update, weigh_blocks_none,
  starts_ne,
}
use risc_v_workshop.Page.Tiles.{Tiles, IsBlock, IsBlock_same, bit, counted_add, head_alone}
use risc_v_workshop.Page.Buddies.{Buddies-of}
use risc_v_workshop.Page.Merge.{Stuck, at_top, no_buddy, not_free, stored}

-- The block in hand goes into the queue of its order.
module _ (pool : PageBuddy) (taken : List (ℕ × ℕ)) (k j : ℕ) (t : Tiles pool ((k, j) ∷ taken))
    (clear : (pool.array j).used ≡ false) where
  pub queue_page-conserved :
      (w : Weight)
      → total w page_pool_max_order (queue_page k j pool).page_list
        ≡ total w page_pool_max_order pool.page_list + w k j
  queue_page-conserved w = omega (
    arith,
    total-update w page_pool_max_order k pool.page_list (pool.page_list k ++ j ∷ []) t.held.0.below,
    weigh-append w k j (pool.page_list k),
  )

  marked_after :
      (p : ℕ) → p < pool.nr_pages → bit (pool.array p).used ≤ weigh_blocks (starts p) taken
  unfolding weigh_blocks
  marked_after p h = elim (ℕ_discrete j p) [
    | yes e ↦ omega (arith, ap (λ q. bit (pool.array q).used) e, ap bit clear)
    | no d ↦ omega (arith, t.marked p h, starts_ne p k j d)
  ]

  tiled_after :
      (p : ℕ)
      → p < pool.nr_pages
      → total (covers p) page_pool_max_order (queue_page k j pool).page_list
          + weigh_blocks (covers p) taken
          + bit (pool.array p).reserved
        ≡ 1
  unfolding weigh_blocks
  tiled_after p h = omega (arith, t.tiled p h, queue_page-conserved (covers p))

  pub Tiles-queue_page : Tiles (queue_page k j pool) taken
  Tiles-queue_page = record {
    counted = counted_add pool.free_nr pool.page_list t.counted k j;
    queued = λ m h.
        update_all (λ m is. All (IsBlock pool.array pool.nr_pages m) is) pool.page_list k _ m
          (All-append _ (pool.page_list k) (j ∷ []) (t.queued k t.held.0.below) (t.held.0, tt))
          (t.queued m h);
    held = t.held.1;
    tiled = tiled_after;
    marked = marked_after;
    numbered = t.numbered;
    sized = t.sized;
  }

  -- Queueing it leaves it as stuck as it was.
  pub Stuck-queue_page : Stuck pool k j → Stuck (queue_page k j pool) k j
  Stuck-queue_page s = go s
    where
      ne : (buddy_index j k == j) ≡ false
      ne = ground (arith, (Buddies-of t.held.0).halves, pow2_pos k)

      go : Stuck pool k j → Stuck (queue_page k j pool) k j
      go (at_top e) = at_top e
      go (no_buddy h) = no_buddy h
      go (not_free h) =
          not_free (rw (update_same pool.page_list k) (has_append_ne _ j (pool.page_list k) h ne))

-- The head of a block loses its `used` mark and comes in hand.
module _ (pool : PageBuddy) (taken : List (ℕ × ℕ)) (k j : ℕ) (t : Tiles pool ((k, j) ∷ taken)) where
  abbrev pub released : PageBuddy
  released = stored k j (modify j page_unmark_used pool)

  order_same : (p : ℕ) → (released.array p).order ≡ (pool.array p).order
  order_same p = ground (arith, t.held.0.ordered)

  pub released_reserved : (p : ℕ) → (released.array p).reserved ≡ (pool.array p).reserved
  released_reserved p = ground arith

  pfn_same : (p : ℕ) → (released.array p).pfn ≡ (pool.array p).pfn
  pfn_same p = ground arith

  used_less : (p : ℕ) → bit (released.array p).used ≤ bit (pool.array p).used
  used_less p = ground arith

  pub released_clear : (released.array j).used ≡ false
  released_clear = ground arith

  pub released_other : (p : ℕ) → p ≢ j → (released.array p).used ≡ (pool.array p).used
  released_other p d = ground arith

  pub Tiles-released : Tiles released ((k, j) ∷ taken)
  Tiles-released = record {
    counted = t.counted;
    queued = λ m h.
        All-map _ _ (pool.page_list m)
          (λ i. IsBlock_same pool.array released.array pool.nr_pages m i (order_same i))
          (t.queued m h);
    held =
        All-map _ _ ((k, j) ∷ taken)
          (λ b. IsBlock_same pool.array released.array pool.nr_pages b.0 b.1 (order_same b.1))
          t.held;
    tiled = λ p h. rw (released_reserved p) (t.tiled p h);
    marked = λ p h. omega (arith, t.marked p h, used_less p);
    numbered = λ p h. rw (pfn_same p) (t.numbered p h);
    sized = t.sized;
  }

  pub released_handed :
      All (λ b. (pool.array b.1).used ≡ true) taken
      → All (λ b. (released.array b.1).used ≡ true) taken
  released_handed h =
      All-map _ _ taken (λ b r. released_other b.1 r.1 ∙ r.0)
        (All-and _ _ taken h (weigh_blocks_none j taken (head_alone pool taken k j t)))
