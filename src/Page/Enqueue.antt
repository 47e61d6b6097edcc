-- ===== src/Page/Enqueue.antt =====
-- `enqueue_page_to_buddy_pool` of kern/page-pfdb.c: giving a block back.
use native.Mathlib.Nat.{mul-mod_left}
use risc_v_workshop.Prelude.{
  ℕ, suc, ◌+◌, ◌-◌, ◌%◌, ◌^◌, ◌≡◌, ap, ◌∙◌, arith, true, false, List, ◌∷◌, All, All-map, has,
  has_append_last, update_same, Ensures, Ensures-bind, lt→ltb, ==_iff, ◌==◌,
}
use risc_v_workshop.Prelude.Bits.{pow2_pos}
use risc_v_workshop.Page.Frame.{page_unmark_used}
use risc_v_workshop.Page.Pool.{
  PageBuddy, page_pool_max_order, modify, queue_page, queue_merged, unmark_page_usage, merge_loop,
  clear_clustered_pages, enqueue_page_to_buddy_pool,
}
use risc_v_workshop.Page.Weights.{Weight, IsAdditive, total}
use risc_v_workshop.Page.Tiles.{Tiles, WellFormed}
use risc_v_workshop.Page.Shape.{SameShape, Tiles-same, unmark_page_usage-same, clear_clustered-same}
use risc_v_workshop.Page.Merge.{Stuck, at_top, no_buddy, not_free, Merged, merge_loop-Merged}
use risc_v_workshop.Page.GiveBack.{
  queue_page-conserved, Tiles-queue_page, Stuck-queue_page, released, released_reserved,
  released_clear, Tiles-released, released_handed,
}

-- What giving back the block of order `k` at `i` does. It ends up in a free block of order `order` at
-- `head`, which cannot be joined with its buddy.
pub record Enqueued (pool : PageBuddy) (taken : List (ℕ × ℕ)) (k i : ℕ) (after : PageBuddy)
    : Type 0 where
  pub well : WellFormed after taken
  pub conserved :
      (w : Weight)
      → IsAdditive w
      → total w page_pool_max_order after.page_list
        ≡ total w page_pool_max_order pool.page_list + w k i
  pub order : ℕ
  pub head : ℕ
  pub queued : has head (after.page_list order) ≡ true
  pub stuck : Stuck after order head
  pub same_reserved : (p : ℕ) → (after.array p).reserved ≡ (pool.array p).reserved

module _ (pool : PageBuddy) (taken : List (ℕ × ℕ)) (k i : ℕ)
    (wf : WellFormed pool ((k, i) ∷ taken)) where
  unmarked : SameShape pool (unmark_page_usage i pool)
  unmarked = unmark_page_usage-same i pool

  unmarked-Tiles : Tiles (unmark_page_usage i pool) ((k, i) ∷ taken)
  unmarked-Tiles = Tiles-same pool _ ((k, i) ∷ taken) unmarked wf.tiles

  abbrev begun : PageBuddy
  begun = released (unmark_page_usage i pool) taken k i unmarked-Tiles

  begun_handed : All (λ b. (begun.array b.1).used ≡ true) taken
  begun_handed =
      released_handed (unmark_page_usage i pool) taken k i unmarked-Tiles
        (All-map _ _ taken (λ b h. (unmarked.frames b.1).used ∙ h) wf.used.1)

  module _ (j : ℕ) (last : PageBuddy) (m : Merged taken k i begun (j, last)) where
    abbrev cleaned : PageBuddy
    cleaned = clear_clustered_pages j last

    shape : SameShape last cleaned
    shape = clear_clustered-same j last

    tiles : Tiles cleaned ((m.order, j) ∷ taken)
    tiles = Tiles-same last cleaned ((m.order, j) ∷ taken) shape m.tiles

    clear : (cleaned.array j).used ≡ false
    clear = (shape.frames j).used ∙ m.clear

    still-Stuck : Stuck last m.order j → Stuck cleaned m.order j
    still-Stuck (at_top e) = at_top e
    still-Stuck (no_buddy h) = no_buddy (rw shape.nr_pages h)
    still-Stuck (not_free h) = not_free (rw shape.page_list h)

    enqueued : Enqueued pool taken k i (queue_page m.order j cleaned)
    enqueued = record {
      well = record {
        tiles = Tiles-queue_page cleaned taken m.order j tiles clear;
        used = All-map _ _ taken (λ b h. (shape.frames b.1).used ∙ h) m.handed;
      };
      conserved = λ w additive. omega (
        arith,
        queue_page-conserved cleaned taken m.order j tiles clear w,
        m.conserved w additive,
        ap (total w page_pool_max_order) shape.page_list,
        ap (total w page_pool_max_order) unmarked.page_list,
      );
      order = m.order;
      head = j;
      queued =
          rw (update_same cleaned.page_list m.order)
            (has_append_last j (cleaned.page_list m.order));
      stuck = Stuck-queue_page cleaned taken m.order j tiles clear (still-Stuck m.stuck);
      same_reserved = λ p.
          (shape.frames p).reserved
          ∙ m.same_reserved p
          ∙ released_reserved (unmark_page_usage i pool) taken k i unmarked-Tiles p
          ∙ (unmarked.frames p).reserved;
    }

    queue_merged-Enqueued : Ensures (Enqueued pool taken k i) (queue_merged (j, last))
    unfolding queue_merged
    queue_merged-Enqueued =
        rw
          (
            m.tiles.held.0.ordered,
            lt→ltb j last.nr_pages (omega (arith, m.tiles.held.0.fits, pow2_pos m.order)),
            lt→ltb m.order page_pool_max_order m.tiles.held.0.below,
          )
          enqueued

  aligned : (i % 2 ^ k == 0) ≡ true
  aligned = (==_iff _ _).1 (ap (λ n. n % 2 ^ k) wf.tiles.held.0.aligned ∙ mul-mod_left _ (2 ^ k))

  -- Giving back a handed-out block, on a well-formed pool, ends with no failed assertion. The pool is
  -- well formed with that block no longer handed out, exactly its pages have become free, reservations
  -- are as before, and the freed block ends up in a queued block that cannot be joined with its buddy.
  pub enqueue-Enqueued : Ensures (Enqueued pool taken k i) (enqueue_page_to_buddy_pool pool i)
  unfolding enqueue_page_to_buddy_pool
  enqueue-Enqueued =
      let rounds : page_pool_max_order - k ≡ suc (10 - k) = omega (arith, wf.tiles.held.0.below) in
      rw
        (
          wf.tiles.held.0.ordered,
          lt→ltb k page_pool_max_order wf.tiles.held.0.below,
          aligned,
          rounds,
        )
        (Ensures-bind _ _
          (merge_loop (suc (10 - k)) i k (modify i page_unmark_used (unmark_page_usage i pool)))
          queue_merged
          (merge_loop-Merged (10 - k) k i taken
            (modify i page_unmark_used (unmark_page_usage i pool))
            (omega (arith, wf.tiles.held.0.below))
            (Tiles-released (unmark_page_usage i pool) taken k i unmarked-Tiles) begun_handed
            (released_clear (unmark_page_usage i pool) taken k i unmarked-Tiles))
          (λ last m. queue_merged-Enqueued last.0 last.1 m))
