-- ===== src/Page/Dequeue.antt =====
-- `dequeue_page_from_memory_area` of kern/page-pfdb.c: every branch of its result.
use native.Mathlib.Decide.{dec_lt}
use risc_v_workshop.Prelude.{
  ℕ, zero, suc, ◌+◌, ◌-◌, ◌^◌, ◌≤◌, ◌<◌, ◌≡◌, refl, ap, ◌∙◌, true, List, [], ◌∷◌, arith, All,
  All-map, Rc, done, fail, einval, enomem, some, List-cases, Ensures, Ensures-bind, leb, inl, inr,
  Bool-cases,
}
use risc_v_workshop.Prelude.Bits.{pow2_pos}
use risc_v_workshop.Page.Frame.{PageUsage, page_mark_used}
use risc_v_workshop.Page.Pool.{
  PageBuddy, page_pool_max_order, modify, adjust_page_order, hand_out, dequeue_loop,
  dequeue_page_from_memory_area, setup_clustered_pages, mark_page_usage,
}
use risc_v_workshop.Page.Weights.{Weight, IsAdditive, total}
use risc_v_workshop.Page.Tiles.{Tiles, WellFormed}
use risc_v_workshop.Page.Shape.{
  SameShape, SameShape-trans, Tiles-same, setup_clustered-same, mark_page_usage-same,
}
use risc_v_workshop.Page.Split.{Adjusted, adjust_page_order-Adjusted}
use risc_v_workshop.Page.HandOut.{
  popped, popped-conserved, Tiles-popped, claimed, reserved_same, claimed_pfn, claimed_used,
  claimed_head, Tiles-claimed,
}

-- What a successful call does: it hands out a block of the order asked for, whose first page frame
-- number it returns, cut from the first block of the first queue that has one.
pub record Dequeued (pool : PageBuddy) (taken : List (ℕ × ℕ)) (order got : ℕ) (after : PageBuddy)
    : Type 0 where
  pub head : ℕ
  pub well : WellFormed after ((order, head) ∷ taken)
  pub number : got ≡ pool.min_pfn + head
  pub conserved :
      (w : Weight)
      → IsAdditive w
      → total w page_pool_max_order after.page_list + w order head
        ≡ total w page_pool_max_order pool.page_list
  pub same_reserved : (p : ℕ) → (after.array p).reserved ≡ (pool.array p).reserved

-- no free block of an order from `low` up to `high`, `high` not included
abbrev pub NoneFree : PageBuddy → ℕ → ℕ → Type 0
NoneFree pool low high = (k : ℕ) → low ≤ k → k < high → pool.page_list k ≡ []

pub record FirstFit (pool : PageBuddy) (order : ℕ) : Type 0 where
  pub fit : ℕ
  pub first : ℕ
  pub rest : List ℕ
  pub fits : order ≤ fit
  pub below : fit < page_pool_max_order
  pub source : pool.page_list fit ≡ first ∷ rest
  pub none_free : NoneFree pool order fit

-- The three results, each with what it means.
abbrev pub Outcome : PageBuddy → List (ℕ × ℕ) → ℕ → Rc ℕ × PageBuddy → Type 0
Outcome pool taken order (done got, after) =
    (f : FirstFit pool order) × (d : Dequeued pool taken order got after) × (d.head ≡ f.first)
Outcome pool taken order (fail enomem, after) =
    (after ≡ pool) × NoneFree pool order page_pool_max_order
Outcome pool taken order (fail einval, after) = (after ≡ pool) × (page_pool_max_order ≤ order)
Outcome pool taken order (fail _, after) = ⊥

module _ (pool : PageBuddy) (taken : List (ℕ × ℕ)) (wf : WellFormed pool taken)
    (small : pool.nr_pages ≤ 2 ^ 31) (order : ℕ) (usage : PageUsage) where
  module _ (c x : ℕ) (rest : List ℕ) (fits : order ≤ c) (below : c < page_pool_max_order)
      (head : pool.page_list c ≡ x ∷ rest) (none_free : NoneFree pool order c) where
    abbrev start : PageBuddy
    start = popped pool taken wf.tiles c x rest below head

    handed_out :
        (adjusted : PageBuddy)
        → Adjusted x order c taken start adjusted
        → Ensures (Outcome pool taken order) (
            let marked = mark_page_usage x usage (setup_clustered_pages x adjusted) in
            let after = modify x (λ f. record (page_mark_used f) { usecnt = 1 }) marked in
            some (done (after.array x).pfn, after))
    handed_out adjusted a = (
      record {
        fit = c;
        first = x;
        rest = rest;
        fits = fits;
        below = below;
        source = head;
        none_free = none_free;
      },
      record {
        head = x;
        well = record {
          tiles = Tiles-claimed marked taken order x tiles;
          used = (claimed_head marked taken order x tiles, still_used);
        };
        number =
            claimed_pfn marked taken order x tiles x
            ∙ tiles.numbered x (omega (arith, tiles.held.0.fits, pow2_pos order))
            ∙ ap (λ n. n + x) (shape.min_pfn ∙ a.same_min);
        conserved = λ w additive. omega (
          arith,
          a.conserved w additive,
          popped-conserved pool taken wf.tiles c x rest below head w,
          ap (total w page_pool_max_order) shape.page_list,
        );
        same_reserved = λ p.
            reserved_same marked taken order x tiles p
            ∙ (shape.frames p).reserved
            ∙ a.same_reserved p;
      },
      refl,
    )
      where
        marked : PageBuddy
        marked = mark_page_usage x usage (setup_clustered_pages x adjusted)

        shape : SameShape adjusted marked
        shape =
            SameShape-trans adjusted _ marked (setup_clustered-same x adjusted)
              (mark_page_usage-same x usage _)

        tiles : Tiles marked ((order, x) ∷ taken)
        tiles = Tiles-same adjusted marked ((order, x) ∷ taken) shape a.tiles

        still_used : All (λ b. ((claimed marked taken order x tiles).array b.1).used ≡ true) taken
        still_used =
            All-map _ _ taken
              (λ b h.
                claimed_used marked taken order x tiles b.1
                  ((shape.frames b.1).used ∙ a.same_used b.1 ∙ h))
              wf.used

    hand_out-Outcome : Ensures (Outcome pool taken order) (hand_out x order usage start)
    unfolding hand_out
    hand_out-Outcome =
        Ensures-bind _ _ (adjust_page_order x order start) _
          (adjust_page_order-Adjusted x order c taken start fits
            (Tiles-popped pool taken wf.tiles c x rest below head) small)
          handed_out

  none_below :
      (cur : ℕ)
      → NoneFree pool order cur
      → pool.page_list cur ≡ []
      → (k : ℕ) → order ≤ k
      → k ≤ cur
      → pool.page_list k ≡ []
  none_below cur none_free empty k p q = elim (dec_lt k cur) [
    | yes less ↦ none_free k p less
    | no same ↦ let e : k ≡ cur = omega arith in rw e empty
  ]

  dequeue_loop-Outcome :
      (rounds cur : ℕ)
      → cur + rounds ≡ page_pool_max_order
      → order ≤ cur
      → NoneFree pool order cur
      → Ensures (Outcome pool taken order) (dequeue_loop rounds cur order usage pool)
  unfolding dequeue_loop
  dequeue_loop-Outcome zero cur e h none_free = (refl, λ k p q. none_free k p (omega arith))
  dequeue_loop-Outcome (suc rounds) cur e h none_free = elim (List-cases (pool.page_list cur)) [
    | inl empty ↦
        rw (empty, Ensures)
          (dequeue_loop-Outcome rounds (cur + 1) (omega arith) (omega arith)
            (λ k p q. none_below cur none_free empty k p (omega arith)))
    | inr (x, rest, head) ↦
        rw (head, Ensures) (hand_out-Outcome cur x rest h (omega arith) head none_free)
  ]

  -- On a well-formed pool of at most 2 ^ 31 pages, whose indices an int holds,
  -- `dequeue_page_from_memory_area` ends with no failed assertion. If it succeeds, the page returned
  -- heads a block of the order asked for, cut from the first block of the lowest order from that one on
  -- that has a free block; the pool is well formed with that block handed out, exactly its pages have
  -- left the free blocks, and reservations are as before. It fails with ENOMEM only if no block of that
  -- order or a higher one is free, with EINVAL only if the order is too high, in no other way, and a
  -- call that fails leaves the pool as it was.
  pub dequeue-Outcome :
      Ensures (Outcome pool taken order) (dequeue_page_from_memory_area pool order usage)
  unfolding dequeue_page_from_memory_area
  dequeue-Outcome = elim (Bool-cases (leb page_pool_max_order order)) [
    | inl e ↦ rw e (refl, ground arith)
    | inr e ↦ rw e (
        dequeue_loop-Outcome (page_pool_max_order - order) order (ground arith) (omega arith)
          (λ k p q. absurd (omega arith)))
  ]
