-- ===== src/Page/FreeBuddy.antt =====
-- The test of `enqueue_page_to_buddy_pool`, kern/page-pfdb.c, for a free buddy of the same order: the
-- buddy is in its queue.
use native.Mathlib.Decide.{dec_lt, ℕ_discrete}
use mathlib.Core.Path.{subst₂}
use risc_v_workshop.Prelude.{
  ℕ, ◌+◌, ◌*◌, ◌^◌, ◌≤◌, ◌<◌, ◌≡◌, ◌≢◌, ap, arith, true, false, List, ◌∷◌, All, All-and, All_lookup,
  has,
}
use risc_v_workshop.Prelude.Bits.{pow2_pos}
use risc_v_workshop.Page.Pool.{PageBuddy, page_pool_max_order, buddy_index}
use risc_v_workshop.Page.Weights.{
  total, weigh_blocks, covers, weigh-le-total, weight-le-weigh, total_pos, blocks_find, covers_in,
  covers_out, covers_self, covers_apart,
}
use risc_v_workshop.Page.Tiles.{Tiles, IsBlock, bit}
use risc_v_workshop.Page.Buddies.{Buddies, Buddies-of, Buddies-nested, parent}

module _ (pool : PageBuddy) (taken : List (ℕ × ℕ)) (c i : ℕ) (t : Tiles pool ((c, i) ∷ taken)) where
  abbrev pub buddy : ℕ
  buddy = buddy_index i c

  abbrev pub lower : ℕ
  lower = parent c i

  pub block : IsBlock pool.array pool.nr_pages c i
  block = t.held.0

  pub pair : Buddies c i buddy lower
  pair = Buddies-of block

  ne_buddy : buddy ≢ i
  ne_buddy e = omega (arith, pair.halves, pow2_pos c)

  -- another block that holds the buddy would hold `i` as well
  nested :
      (k j : ℕ)
      → IsBlock pool.array pool.nr_pages k j
      → covers buddy k j ≢ 0
      → j ≢ buddy
      → covers i k j ≡ 1
  nested k j h holds other =
      covers_in i k j (omega (arith, inside.0, h.aligned)) (omega (arith, inside.1, h.aligned))
    where
      inside : (h.slot * 2 ^ k ≤ i) × (i < h.slot * 2 ^ k + 2 ^ k)
      inside =
          Buddies-nested c i buddy lower k h.slot pair
            (omega (arith, covers_out buddy k j holds, h.aligned))
            (omega (arith, covers_out buddy k j holds, h.aligned))

  -- page `i` is held by the block in hand alone
  alone :
      (total (covers i) page_pool_max_order pool.page_list ≡ 0)
      × (weigh_blocks (covers i) taken ≡ 0)
  unfolding weigh_blocks
  alone = (
    omega (arith, t.tiled i inside, covers_self i c),
    omega (arith, t.tiled i inside, covers_self i c),
  )
    where
      inside : i < pool.nr_pages
      inside = omega (arith, block.fits, pow2_pos c)

  apart : covers buddy c i ≡ 0
  apart = covers_apart buddy c i (omega (arith, pair.halves, pow2_pos c))

  -- no other queued block holds the buddy
  only_queued :
      (k j : ℕ)
      → k < page_pool_max_order
      → has j (pool.page_list k) ≡ true
      → covers buddy k j ≢ 0
      → j ≡ buddy
  only_queued k j below found weight = elim (ℕ_discrete j buddy) [
    | yes e ↦ e
    | no d ↦ absurd (
        omega (
          arith,
          weight-le-weigh (covers i) k j (pool.page_list k) found,
          weigh-le-total (covers i) page_pool_max_order k pool.page_list below,
          nested k j (All_lookup _ j (pool.page_list k) (t.queued k below) found) weight d,
          alone.0,
        ))
  ]

  module _ (handed : All (λ b. (pool.array b.1).used ≡ true) taken) (inside : buddy < pool.nr_pages)
      (order : (pool.array buddy).order ≡ c) (clear : (pool.array buddy).used ≡ false)
      (open_page : (pool.array buddy).reserved ≡ false) where
    none_out : weigh_blocks (covers buddy) taken ≡ 0
    none_out = elim (dec_lt 0 (weigh_blocks (covers buddy) taken)) [
      | no empty ↦ omega arith
      | yes some_out ↦
          let (b, holds, weight, bound) =
            blocks_find
              (λ b. IsBlock pool.array pool.nr_pages b.0 b.1 × ((pool.array b.1).used ≡ true))
              (covers buddy) (covers i) taken (All-and _ _ taken t.held.1 handed) some_out in
          absurd (elim (ℕ_discrete b.1 buddy) [
            | yes e ↦ cc (holds.1, ap (λ j. (pool.array j).used) e)
            | no d ↦ omega (arith, bound, nested b.0 b.1 holds.0 weight d, alone.1)
          ])
    ]

    pub buddy_queued : has buddy (pool.page_list c) ≡ true
    unfolding weigh_blocks
    buddy_queued =
        let (k, j, below, found, weight) =
          total_pos (covers buddy) page_pool_max_order pool.page_list
            (omega (arith, t.tiled buddy inside, apart, none_out, ap bit open_page)) in
        let same : j ≡ buddy = only_queued k j below found weight in
        let here : k ≡ c = omega (
          arith,
          (All_lookup _ j (pool.page_list k) (t.queued k below) found).ordered,
          ap (λ j. (pool.array j).order) same,
          order,
        ) in
        subst₂ (λ k j. has j (pool.page_list k) ≡ true) here same found
