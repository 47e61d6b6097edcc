-- ===== src/Page/Cycle.antt =====
-- Handing a block out and giving it back, over `dequeue_page_from_memory_area` and
-- `enqueue_page_to_buddy_pool`.
use risc_v_workshop.Prelude.{
  ℕ, ◌+◌, ◌-◌, ◌^◌, ◌≤◌, ◌<◌, ◌≡◌, refl, arith, List, Rc, done, fail, Option, some, ◌>>=◌, Ensures,
  Ensures-map, Ensures-some, Ensures-bind, enomem, einval,
}
use risc_v_workshop.Page.Frame.{PageUsage}
use risc_v_workshop.Page.Pool.{
  PageBuddy, page_pool_max_order, dequeue_page_from_memory_area, enqueue_page_to_buddy_pool,
}
use risc_v_workshop.Page.Weights.{
  Weight, IsAdditive, total, weigh_blocks, covers, covers_in, covers-IsAdditive, pages,
  pages-IsAdditive,
}
use risc_v_workshop.Page.Tiles.{WellFormed}
use risc_v_workshop.Page.Dequeue.{Outcome, dequeue-Outcome}
use risc_v_workshop.Page.Enqueue.{Enqueued, enqueue-Enqueued}

-- free pages in all queues, and the free blocks that hold a page
abbrev pub free_pages : PageBuddy → ℕ
free_pages pool = total pages page_pool_max_order pool.page_list

abbrev pub free_at : ℕ → PageBuddy → ℕ
free_at p pool = total (covers p) page_pool_max_order pool.page_list

abbrev pub give_back : ℕ → Rc ℕ × PageBuddy → Option PageBuddy
give_back base (done pfn, after) = enqueue_page_to_buddy_pool after (pfn - base)
give_back base (fail e, after) = some after

-- take a block and give it straight back, if there was one
abbrev pub take_and_give : PageBuddy → ℕ → PageUsage → Option PageBuddy
take_and_give pool order usage =
    dequeue_page_from_memory_area pool order usage >>= give_back pool.min_pfn

pub record Restored (pool : PageBuddy) (taken : List (ℕ × ℕ)) (after : PageBuddy) : Type 0 where
  pub well : WellFormed after taken
  pub same_count : free_pages after ≡ free_pages pool
  pub same_pages : (p : ℕ) → free_at p after ≡ free_at p pool

module _ (pool : PageBuddy) (taken : List (ℕ × ℕ)) (wf : WellFormed pool taken)
    (small : pool.nr_pages ≤ 2 ^ 31) (order : ℕ) where
  restored :
      (i : ℕ) (middle after : PageBuddy)
      → ((w : Weight)
          → IsAdditive w
          → total w page_pool_max_order middle.page_list + w order i
            ≡ total w page_pool_max_order pool.page_list)
      → Enqueued middle taken order i after
      → Restored pool taken after
  restored i middle after out back = record {
    well = back.well;
    same_count = omega (arith, out pages pages-IsAdditive, back.conserved pages pages-IsAdditive);
    same_pages = λ p. omega (
      arith,
      out (covers p) (covers-IsAdditive p),
      back.conserved (covers p) (covers-IsAdditive p),
    );
  }

  give_back-Restored :
      (r : Rc ℕ × PageBuddy)
      → Outcome pool taken order r
      → Ensures (Restored pool taken) (give_back pool.min_pfn r)
  give_back-Restored (done got, middle) (f, d, e) =
      let index : got - pool.min_pfn ≡ d.head = omega (arith, d.number) in
      rw index (
        Ensures-map _ _ (enqueue_page_to_buddy_pool middle d.head)
          (λ after. restored d.head middle after d.conserved)
          (enqueue-Enqueued middle taken order d.head d.well))
  give_back-Restored (fail enomem, after) (e, n) =
      rw e (record { well = wf; same_count = refl; same_pages = λ p. refl })
  give_back-Restored (fail einval, after) (e, n) =
      rw e (record { well = wf; same_count = refl; same_pages = λ p. refl })
  give_back-Restored (fail _, after) h = absurd h

  -- A block that is taken from a well-formed pool of at most 2 ^ 31 pages, for any order and usage, and
  -- given straight back leaves the pool well formed, with the same number of free pages and the same
  -- pages free. No assertion fails on the way.
  pub take_and_give-Restored :
      (usage : PageUsage) → Ensures (Restored pool taken) (take_and_give pool order usage)
  take_and_give-Restored usage =
      Ensures-bind _ _ (dequeue_page_from_memory_area pool order usage) (give_back pool.min_pfn)
        (dequeue-Outcome pool taken wf small order usage) give_back-Restored

fresh :
    (pool after : PageBuddy) (taken : List (ℕ × ℕ)) (order got p : ℕ)
    → WellFormed pool taken
    → Outcome pool taken order (done got, after)
    → p < pool.nr_pages
    → got ≤ pool.min_pfn + p
    → pool.min_pfn + p < got + 2 ^ order
    → (free_at p pool ≡ 1) × (free_at p after ≡ 0) × (weigh_blocks (covers p) taken ≡ 0)
fresh pool after taken order got p wf (f, d, e) inside low high =
    (omega (arith, here, out), omega (arith, here, out), omega (arith, here, out))
  where
    here : free_at p pool + weigh_blocks (covers p) taken ≤ 1
    here = omega (arith, wf.tiles.tiled p inside)

    out : free_at p after + 1 ≡ free_at p pool
    out = omega (
      arith,
      d.conserved (covers p) (covers-IsAdditive p),
      covers_in p order d.head (omega (arith, d.number)) (omega (arith, d.number)),
    )

-- On a well-formed pool of at most 2 ^ 31 pages, a page whose frame number is among the 2 ^ order ones
-- from the number that a successful call of `dequeue_page_from_memory_area` returns was free before the
-- call, in exactly one free block, is free no more after it, and lies in no block that was handed out
-- before.
pub dequeue-fresh :
    (pool after : PageBuddy) (taken : List (ℕ × ℕ)) (order got p : ℕ) (usage : PageUsage)
    → WellFormed pool taken
    → pool.nr_pages ≤ 2 ^ 31
    → dequeue_page_from_memory_area pool order usage ≡ some (done got, after)
    → p < pool.nr_pages
    → got ≤ pool.min_pfn + p
    → pool.min_pfn + p < got + 2 ^ order
    → (free_at p pool ≡ 1) × (free_at p after ≡ 0) × (weigh_blocks (covers p) taken ≡ 0)
dequeue-fresh pool after taken order got p usage wf small run =
    fresh pool after taken order got p wf (
      Ensures-some (Outcome pool taken order) (dequeue-Outcome pool taken wf small order usage) run)
