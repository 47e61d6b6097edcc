-- ===== src/Page/Split.antt =====
-- The loop of `adjust_page_order` keeps the tiling: each round splits the block in hand.
use native.Mathlib.Decide.{dec_lt}
use risc_v_workshop.Prelude.{
  ℕ, zero, suc, ◌+◌, ◌^◌, ◌≤◌, ◌≡◌, refl, List, ◌∷◌, ◌∙◌, Ensures, Ensures-map, Ensures-bind, sub64,
  true, ltb, ◌%◌, lt→ltb, le→ltb, ==_iff, arith,
}
use risc_v_workshop.Prelude.Bits.{pow2_pos}
use risc_v_workshop.Page.Pool.{
  PageBuddy, page_pool_max_order, adjust_loop, adjust_page_order, store_half,
}
use risc_v_workshop.Page.Weights.{Weight, IsAdditive, total}
use risc_v_workshop.Page.Tiles.{Tiles}
use risc_v_workshop.Page.Halves.{
  buddy_of_half, half_fits, used_same, reserved_same, store_half-conserved, Tiles-store_half,
}

-- What the rounds of the loop do, from a block of order `cur` in hand to one of order `request`.
pub record Adjusted (i request cur : ℕ) (out : List (ℕ × ℕ)) (before after : PageBuddy)
    : Type 0 where
  pub tiles : Tiles after ((request, i) ∷ out)
  pub conserved :
      (w : Weight)
      → IsAdditive w
      → total w page_pool_max_order after.page_list + w request i
        ≡ total w page_pool_max_order before.page_list + w cur i
  pub same_nr : after.nr_pages ≡ before.nr_pages
  pub same_min : after.min_pfn ≡ before.min_pfn
  pub same_used : (p : ℕ) → (after.array p).used ≡ (before.array p).used
  pub same_reserved : (p : ℕ) → (after.array p).reserved ≡ (before.array p).reserved

Adjusted-now :
    (i request cur : ℕ) (out : List (ℕ × ℕ)) (pool : PageBuddy)
    → request ≡ cur
    → Tiles pool ((cur, i) ∷ out)
    → Adjusted i request cur out pool pool
Adjusted-now i request cur out pool e t = record {
  tiles = rw e t;
  conserved = λ w additive. rw e;
  same_nr = refl;
  same_min = refl;
  same_used = λ p. refl;
  same_reserved = λ p. refl;
}

module _ (i request c : ℕ) (out : List (ℕ × ℕ)) (pool : PageBuddy)
    (t : Tiles pool ((suc c, i) ∷ out)) where
  Adjusted-step :
      (last : PageBuddy)
      → Adjusted i request c out (store_half i (i + 2 ^ c) c pool) last
      → Adjusted i request (suc c) out pool last
  Adjusted-step last a = record {
    tiles = a.tiles;
    conserved = λ w additive.
        omega (arith, a.conserved w additive, store_half-conserved pool out c i t w additive);
    same_nr = a.same_nr;
    same_min = a.same_min;
    same_used = λ p. a.same_used p ∙ used_same pool out c i t p;
    same_reserved = λ p. a.same_reserved p ∙ reserved_same pool out c i t p;
  }

pub adjust_loop-Adjusted :
    (i request cur : ℕ) (out : List (ℕ × ℕ)) (pool : PageBuddy)
    → request ≤ cur
    → Tiles pool ((cur, i) ∷ out)
    → Ensures (Adjusted i request cur out pool) (adjust_loop i i request cur pool)
unfolding adjust_loop
adjust_loop-Adjusted i request zero out pool h t = Adjusted-now i request 0 out pool (omega arith) t
adjust_loop-Adjusted i request (suc cur) out pool h t = elim (dec_lt request (suc cur)) [
  | yes more ↦
      rw
        (
          lt→ltb request (suc cur) more,
          buddy_of_half t.held.0,
          lt→ltb (i + 2 ^ cur) pool.nr_pages
              (omega (arith, half_fits pool out cur i t, pow2_pos cur)),
        )
        (Ensures-map _ _ _ (Adjusted-step i request cur out pool t) (
          adjust_loop-Adjusted i request cur out (store_half i (i + 2 ^ cur) cur pool) (omega arith)
            (Tiles-store_half pool out cur i t)))
  | no over ↦
      rw (le→ltb request (suc cur) (omega arith))
        (Adjusted-now i request (suc cur) out pool (omega arith) t)
]

-- `adjust_page_order` on the head of a block in hand never stops at a `kassert`, where an `int` holds
-- every index.
pub adjust_page_order-Adjusted :
    (i request cur : ℕ) (out : List (ℕ × ℕ)) (pool : PageBuddy)
    → request ≤ cur
    → Tiles pool ((cur, i) ∷ out)
    → pool.nr_pages ≤ 2 ^ 31
    → Ensures (Adjusted i request cur out pool) (adjust_page_order i request pool)
unfolding adjust_page_order
adjust_page_order-Adjusted i request cur out pool h t small =
    rw (index, within, below, t.held.0.ordered)
      (Ensures-bind _ _ (adjust_loop i i request cur pool) _
        (adjust_loop-Adjusted i request cur out pool h t)
        (λ last a. rw ((==_iff _ _).1 a.tiles.held.0.ordered) a))
  where
    within : ltb (i % 2 ^ 32) (2 ^ 31) ≡ true
    within = lt→ltb _ _ (omega (arith, t.held.0.fits, pow2_pos cur, small))

    below : i % 2 ^ 32 ≡ i
    below = omega (arith, t.held.0.fits, pow2_pos cur, small)

    index : sub64 (pool.array i).pfn pool.min_pfn ≡ i
    index = omega (
      arith,
      t.numbered i (omega (arith, t.held.0.fits, pow2_pos cur)),
      t.sized,
      t.held.0.fits,
      pow2_pos cur,
    )
