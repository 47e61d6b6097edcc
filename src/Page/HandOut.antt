-- ===== src/Page/HandOut.antt =====
-- Taking a block from a queue in hand, and marking it as handed out: kern/page-pfdb.c.
use risc_v_workshop.Prelude.{
  ℕ, ◌+◌, ◌≤◌, ◌<◌, ◌≡◌, ap, true, List, ◌∷◌, arith, length, All, All-map, update, update_all,
  sub64,
}
use risc_v_workshop.Page.Frame.{page_mark_used}
use risc_v_workshop.Page.Pool.{PageBuddy, page_pool_max_order, modify}
use risc_v_workshop.Page.Weights.{
  Weight, total, weigh, weigh_blocks, covers, starts, weigh_cons, total-update,
}
use risc_v_workshop.Page.Tiles.{Tiles, IsBlock, IsBlock_same, bit, counted_sub}

-- The first block of a queue is taken in hand.
module _ (pool : PageBuddy) (taken : List (ℕ × ℕ)) (t : Tiles pool taken) (c x : ℕ) (rest : List ℕ)
    (below : c < page_pool_max_order) (head : pool.page_list c ≡ x ∷ rest) where
  abbrev pub popped : PageBuddy
  popped = record pool {
    page_list = update pool.page_list c rest;
    free_nr = update pool.free_nr c (sub64 (pool.free_nr c) 1);
  }

  pub blocks : All (IsBlock pool.array pool.nr_pages c) (x ∷ rest)
  blocks = rw head at (t.queued c below)

  pub popped-conserved :
      (w : Weight)
      → total w page_pool_max_order popped.page_list + w c x
        ≡ total w page_pool_max_order pool.page_list
  popped-conserved w = omega (
    arith,
    total-update w page_pool_max_order c pool.page_list rest below,
    ap (λ is. weigh w c is) head,
    weigh_cons w c x rest,
  )

  pub Tiles-popped : Tiles popped ((c, x) ∷ taken)
  unfolding weigh_blocks
  Tiles-popped = record {
    counted = λ k.
        counted_sub pool.free_nr pool.page_list t.counted c k rest (omega (arith, ap length head));
    queued = λ k h.
        update_all (λ k is. All (IsBlock pool.array pool.nr_pages k) is) pool.page_list c rest k
          blocks.1 (t.queued k h);
    held = (blocks.0, t.held);
    tiled = λ p h. omega (arith, t.tiled p h, popped-conserved (covers p));
    marked = λ p h. omega (arith, t.marked p h);
    numbered = t.numbered;
    sized = t.sized;
  }

-- The head of a block in hand gets its `used` mark.
module _ (pool : PageBuddy) (taken : List (ℕ × ℕ)) (k x : ℕ) (t : Tiles pool ((k, x) ∷ taken)) where
  abbrev pub claimed : PageBuddy
  claimed = modify x (λ f. record (page_mark_used f) { usecnt = 1 }) pool

  order_same : (p : ℕ) → (claimed.array p).order ≡ (pool.array p).order
  order_same p = ground arith

  pub reserved_same : (p : ℕ) → (claimed.array p).reserved ≡ (pool.array p).reserved
  reserved_same p = ground arith

  pub claimed_pfn : (p : ℕ) → (claimed.array p).pfn ≡ (pool.array p).pfn
  claimed_pfn p = ground arith

  used_bit :
      (p : ℕ)
      → p < pool.nr_pages
      → bit (claimed.array p).used ≤ weigh_blocks (starts p) ((k, x) ∷ taken)
  unfolding weigh_blocks
  used_bit p h = ground (arith, t.marked p h)

  pub claimed_used : (p : ℕ) → (pool.array p).used ≡ true → (claimed.array p).used ≡ true
  claimed_used p h = ground arith

  pub claimed_head : (claimed.array x).used ≡ true
  claimed_head = ground arith

  pub Tiles-claimed : Tiles claimed ((k, x) ∷ taken)
  Tiles-claimed = record {
    counted = t.counted;
    queued = λ j h.
        All-map _ _ (pool.page_list j)
          (λ i. IsBlock_same pool.array claimed.array pool.nr_pages j i (order_same i))
          (t.queued j h);
    held =
        All-map _ _ ((k, x) ∷ taken)
          (λ b. IsBlock_same pool.array claimed.array pool.nr_pages b.0 b.1 (order_same b.1))
          t.held;
    tiled = λ p h. rw (reserved_same p) (t.tiled p h);
    marked = used_bit;
    numbered = λ p h. rw (claimed_pfn p) (t.numbered p h);
    sized = t.sized;
  }
