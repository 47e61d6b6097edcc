-- ===== src/Page/Areas.antt =====
-- `pfdb_buddy_dequeue` of kern/page-pfdb.c: one area after the other until one has memory.
use risc_v_workshop.Prelude.{
  ℕ, ◌^◌, ◌≤◌, ◌≡◌, refl, ap, Option, some, List, [], ◌∷◌, ◌++◌, Rc, done, fail, einval, enomem,
  Ensures, Ensures-bind, All, ◌>>=◌,
}
use risc_v_workshop.Page.Frame.{PageUsage}
use risc_v_workshop.Page.Pool.{PageBuddy, page_pool_max_order, dequeue_page_from_memory_area}
use risc_v_workshop.Page.Database.{pfdb_buddy_dequeue, unless_enomem}
use risc_v_workshop.Page.Tiles.{WellFormed}
use risc_v_workshop.Page.Dequeue.{Outcome, NoneFree, dequeue-Outcome}

-- each area with the blocks that are handed out of it
abbrev pub AreasWell : List PageBuddy → List (List (ℕ × ℕ)) → Type 0
AreasWell [] [] = Unit
AreasWell (pool ∷ pools) (taken ∷ takens) = WellFormed pool taken × AreasWell pools takens
AreasWell _ _ = ⊥

-- The areas before `pool` have no block that is large enough, and the call took one from `pool`.
pub record Served (areas : List PageBuddy) (order got : ℕ) (after : List PageBuddy) : Type 0 where
  pub front : List PageBuddy
  pub pool : PageBuddy
  pub changed : PageBuddy
  pub back : List PageBuddy
  pub taken : List (ℕ × ℕ)
  pub was : areas ≡ front ++ pool ∷ back
  pub is : after ≡ front ++ changed ∷ back
  pub empty : All (λ p. NoneFree p order page_pool_max_order) front
  pub outcome : Outcome pool taken order (done got, changed)

abbrev pub AreasOutcome : List PageBuddy → ℕ → Rc ℕ × List PageBuddy → Type 0
AreasOutcome areas order (done got, after) = Served areas order got after
AreasOutcome areas order (fail enomem, after) =
    (after ≡ areas) × All (λ p. NoneFree p order page_pool_max_order) areas
AreasOutcome areas order (fail einval, after) = (after ≡ areas) × (page_pool_max_order ≤ order)
AreasOutcome areas order (fail _, after) = ⊥

module _ (order : ℕ) (usage : PageUsage) where
  later :
      (pool after : PageBuddy) (rest : List PageBuddy) (o : Rc ℕ × List PageBuddy)
      → after ≡ pool
      → NoneFree pool order page_pool_max_order
      → AreasOutcome rest order o
      → AreasOutcome (pool ∷ rest) order (o.0, after ∷ o.1)
  later pool after rest (done got, areas) e n s = record {
    front = pool ∷ s.front;
    pool = s.pool;
    changed = s.changed;
    back = s.back;
    taken = s.taken;
    was = ap (λ l. pool ∷ l) s.was;
    is = let i = s.is in cc;
    empty = (n, s.empty);
    outcome = s.outcome;
  }
  later pool after rest (fail enomem, areas) e n (f, a) = (cc, (n, a))
  later pool after rest (fail einval, areas) e n (f, a) = (cc, a)
  later pool after rest (fail _, areas) e n h = absurd h

  first_area :
      (pool : PageBuddy) (taken : List (ℕ × ℕ)) (rest : List PageBuddy)
      (others : Option (Rc ℕ × List PageBuddy))
      → Ensures (AreasOutcome rest order) others
      → (o : Rc ℕ × PageBuddy) → Outcome pool taken order o
      → Ensures (AreasOutcome (pool ∷ rest) order) (
          unless_enomem o.0
            (others >>= λ (rc, areas). some (rc, o.1 ∷ areas))
            (some (o.0, o.1 ∷ rest)))
  first_area pool taken rest others h (done got, after) d = record {
    front = [];
    pool = pool;
    changed = after;
    back = rest;
    taken = taken;
    was = refl;
    is = refl;
    empty = tt;
    outcome = d;
  }
  first_area pool taken rest others h (fail enomem, after) (e, n) =
      Ensures-bind (AreasOutcome rest order) (AreasOutcome (pool ∷ rest) order) others _ h
        (λ o. later pool after rest o e n)
  first_area pool taken rest others h (fail einval, after) (e, n) = (cc, n)
  first_area pool taken rest others h (fail _, after) d = absurd d

  -- Asking all areas for a block, where each has a well-formed pool of at most 2 ^ 31 pages, fails no
  -- assertion. If the call succeeds the block comes from one area as by
  -- `dequeue_page_from_memory_area`, no area before it has a free block of that order or a higher one,
  -- and no other area changes. It fails with ENOMEM only if no area has such a block, with EINVAL only
  -- if the order is too high, in no other way, and a call that fails changes no area.
  pub pfdb_buddy_dequeue-Outcome :
      (areas : List PageBuddy) (takens : List (List (ℕ × ℕ)))
      → AreasWell areas takens
      → All (λ p. p.nr_pages ≤ 2 ^ 31) areas
      → Ensures (AreasOutcome areas order) (pfdb_buddy_dequeue areas order usage)
  unfolding pfdb_buddy_dequeue
  pfdb_buddy_dequeue-Outcome [] [] w small = (refl, tt)
  pfdb_buddy_dequeue-Outcome [] (taken ∷ takens) w small = absurd w
  pfdb_buddy_dequeue-Outcome (pool ∷ rest) [] w small = absurd w
  pfdb_buddy_dequeue-Outcome (pool ∷ rest) (taken ∷ takens) w small =
      Ensures-bind (Outcome pool taken order) (AreasOutcome (pool ∷ rest) order)
        (dequeue_page_from_memory_area pool order usage) _
        (dequeue-Outcome pool taken w.0 small.0 order usage)
        (first_area pool taken rest (pfdb_buddy_dequeue rest order usage)
          (pfdb_buddy_dequeue-Outcome rest takens w.1 small.1))
