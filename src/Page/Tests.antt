-- ===== src/Page/Tests.antt =====
-- A pool of four pages with one free block, and runs of the allocator on it.
use risc_v_workshop.Prelude.{
  ℕ, zero, suc, ◌+◌, ◌≤◌, ◌<◌, ◌≡◌, refl, arith, true, false, [], ◌∷◌, Rc, fail, none, Ensures,
  einval, ◌==◌, value_or, remove, All, update, update_all, if◌then◌else◌,
}
use risc_v_workshop.Page.Frame.{PageFrame, kern, slab}
use risc_v_workshop.Page.Pool.{
  PageBuddy, page_pool_max_order, dequeue_page_from_memory_area, enqueue_page_to_buddy_pool,
  merge_loop, queue_merged, unmark_page_usage, clear_clustered_pages,
}
use risc_v_workshop.Page.Weights.{covers, starts, total, weigh, weigh_blocks}
use risc_v_workshop.Page.Tiles.{Tiles, WellFormed, IsBlock, bit}
use risc_v_workshop.Page.Dequeue.{Outcome, dequeue-Outcome}
use risc_v_workshop.Page.Enqueue.{Enqueued, enqueue-Enqueued}
use risc_v_workshop.Page.Cycle.{
  Restored, take_and_give, take_and_give-Restored, dequeue-fresh, free_at,
}

abbrev pub blank : ℕ → PageFrame
blank p = record {
  used = false;
  reserved = false;
  clustered = false;
  ucase = λ u. false;
  pfn = 100 + p;
  usecnt = 0;
  mapcnt = 0;
  order = if◌then◌else◌ (elim p [ zero ↦ true | suc n ↦ false ]) 2 0;
  headp = none;
}

-- pages 0 to 3 form the one free block
abbrev pub four_pages : PageBuddy
four_pages = record {
  free_nr = update (λ k. 0) 2 1;
  page_list = update (λ k. []) 2 (0 ∷ []);
  nr_pages = 4;
  available_pages = 4;
  usage_pages = λ u. 0;
  min_pfn = 100;
  array = blank;
}

four_pages-tiled :
    (p : ℕ)
    → p < 4
    → total (covers p) page_pool_max_order four_pages.page_list
        + weigh_blocks (covers p) []
        + bit (four_pages.array p).reserved
      ≡ 1
unfolding total weigh weigh_blocks
four_pages-tiled p h = ground arith

four_pages-Tiles : Tiles four_pages []
four_pages-Tiles = record {
  counted = λ k. ground arith;
  queued = λ k h.
      update_all (λ k is. All (IsBlock blank 4 k) is) (λ k. []) 2 (0 ∷ []) k
        (
          record {
            below = omega arith;
            fits = omega arith;
            slot = 0;
            aligned = refl;
            ordered = refl;
          },
          tt,
        )
        tt;
  held = tt;
  tiled = four_pages-tiled;
  marked = λ p h. omega arith;
  numbered = λ p h. omega arith;
  sized = omega arith;
}

pub four_pages-WellFormed : WellFormed four_pages []
four_pages-WellFormed = record { tiles = four_pages-Tiles; used = tt }

dequeue-Outcome_example :
    Ensures (Outcome four_pages [] 1) (dequeue_page_from_memory_area four_pages 1 kern)
dequeue-Outcome_example = dequeue-Outcome four_pages [] four_pages-WellFormed (omega arith) 1 kern

take_and_give-Restored_example : Ensures (Restored four_pages []) (take_and_give four_pages 0 slab)
take_and_give-Restored_example =
    take_and_give-Restored four_pages [] four_pages-WellFormed (omega arith) 0 slab

-- page 0 handed out, page 1 free
abbrev pub half_out : PageBuddy
half_out = record {
  free_nr = update (λ k. 0) 0 1;
  page_list = update (λ k. []) 0 (1 ∷ []);
  nr_pages = 2;
  available_pages = 2;
  usage_pages = λ u. 0;
  min_pfn = 100;
  array = λ p. record (blank p) { order = 0; used = if p == 0 then true else false };
}

half_out-tiled :
    (p : ℕ)
    → p < 2
    → total (covers p) page_pool_max_order half_out.page_list
        + weigh_blocks (covers p) ((0, 0) ∷ [])
        + bit (half_out.array p).reserved
      ≡ 1
unfolding total weigh weigh_blocks
half_out-tiled p h = ground arith

half_out-marked :
    (p : ℕ) → p < 2 → bit (half_out.array p).used ≤ weigh_blocks (starts p) ((0, 0) ∷ [])
unfolding weigh_blocks
half_out-marked p h = ground arith

pub half_out-WellFormed : WellFormed half_out ((0, 0) ∷ [])
half_out-WellFormed = record {
  tiles = record {
    counted = λ k. ground arith;
    queued = λ k h.
        update_all (λ k is. All (IsBlock half_out.array 2 k) is) (λ k. []) 0 (1 ∷ []) k
          (
            record {
              below = omega arith;
              fits = omega arith;
              slot = 1;
              aligned = refl;
              ordered = refl;
            },
            tt,
          )
          tt;
    held = (
      record { below = omega arith; fits = omega arith; slot = 0; aligned = refl; ordered = refl },
      tt,
    );
    tiled = half_out-tiled;
    marked = half_out-marked;
    numbered = λ p h. omega arith;
    sized = omega arith;
  };
  used = (refl, tt);
}

enqueue-Enqueued_example :
    Ensures (Enqueued half_out [] 0 0) (enqueue_page_to_buddy_pool half_out 0)
enqueue-Enqueued_example = enqueue-Enqueued half_out [] 0 0 half_out-WellFormed

-- The two pages end up in one block of order 1.
joined_again :
    Ensures
      (λ after. (after.page_list 1 ≡ 0 ∷ []) × (after.page_list 0 ≡ []) × (after.free_nr 1 ≡ 1))
      (enqueue_page_to_buddy_pool half_out 0)
unfolding enqueue_page_to_buddy_pool merge_loop queue_merged unmark_page_usage clear_clustered_pages
    remove
joined_again = (refl, refl, refl)

abbrev after_take : Rc ℕ × PageBuddy
after_take = value_or (fail einval, four_pages) (dequeue_page_from_memory_area four_pages 1 kern)

dequeue-fresh_example :
    (free_at 1 four_pages ≡ 1) × (free_at 1 after_take.1 ≡ 0) × (weigh_blocks (covers 1) [] ≡ 0)
unfolding dequeue_page_from_memory_area
dequeue-fresh_example =
    dequeue-fresh four_pages after_take.1 [] 1 100 1 kern four_pages-WellFormed (omega arith) refl
      (omega arith) (omega arith) (omega arith)
