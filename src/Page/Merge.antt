-- ===== src/Page/Merge.antt =====
-- The loop of `enqueue_page_to_buddy_pool`: it joins the block in hand with free buddies for as long
-- as it can, and never stops at a `kassert`.
use native.Mathlib.Decide.{dec_le}
use risc_v_workshop.Prelude.{
  ℕ, zero, suc, ◌+◌, ◌≤◌, ◌<◌, ◌≡◌, inl, inr, refl, ◌∙◌, arith, true, false, List, ◌∷◌, All,
  All-map, All_lookup, has, Ensures, Ensures-map, lt→ltb, ltb, Bool-cases,
}
use risc_v_workshop.Prelude.Bits.{pow2_pos}
use risc_v_workshop.Page.Frame.{page_state_not_freed}
use risc_v_workshop.Page.Pool.{
  PageBuddy, page_pool_max_order, buddy_index, modify, unqueue_page, merge_stops, merge_loop,
}
use risc_v_workshop.Page.Weights.{
  Weight, IsAdditive, total, covers, weigh-le-total, weight-le-weigh, covers_self, starts-le-covers,
}
use risc_v_workshop.Page.Tiles.{Tiles}
use risc_v_workshop.Page.Buddies.{parent, Buddies-of}
use risc_v_workshop.Page.FreeBuddy.{buddy_queued}
use risc_v_workshop.Page.Join.{
  joined-conserved, joined_used, joined_reserved, joined_clear, Tiles-joined,
}

-- A queued block is neither used nor reserved.
pub queued_free :
    (pool : PageBuddy) (out : List (ℕ × ℕ))
    → Tiles pool out
    → (k b : ℕ) → k < page_pool_max_order
    → has b (pool.page_list k) ≡ true
    → page_state_not_freed (pool.array b) ≡ false
queued_free pool out t k b below found =
    ground (arith, t.marked b inside, t.tiled b inside, one, starts-le-covers b out)
  where
    inside : b < pool.nr_pages
    inside =
        omega (arith, (All_lookup _ b (pool.page_list k) (t.queued k below) found).fits, pow2_pos k)

    one : 1 ≤ total (covers b) page_pool_max_order pool.page_list
    one = omega (
      arith,
      weight-le-weigh (covers b) k b (pool.page_list k) found,
      covers_self b k,
      weigh-le-total (covers b) page_pool_max_order k pool.page_list below,
    )

-- The block in hand cannot be joined any more.
pub data Stuck (pool : PageBuddy) (k j : ℕ) : Type 0 where
  at_top : page_pool_max_order ≡ suc k → Stuck pool k j
  no_buddy : pool.nr_pages ≤ buddy_index j k → Stuck pool k j
  not_free : has (buddy_index j k) (pool.page_list k) ≡ false → Stuck pool k j

-- What the loop does with a block of order `c` at `i` in hand.
pub record Merged (taken : List (ℕ × ℕ)) (c i : ℕ) (before : PageBuddy) (last : ℕ × PageBuddy)
    : Type 0 where
  pub order : ℕ
  pub tiles : Tiles last.1 ((order, last.0) ∷ taken)
  pub handed : All (λ b. (last.1.array b.1).used ≡ true) taken
  pub clear : (last.1.array last.0).used ≡ false
  pub conserved :
      (w : Weight)
      → IsAdditive w
      → total w page_pool_max_order last.1.page_list + w order last.0
        ≡ total w page_pool_max_order before.page_list + w c i
  pub stuck : Stuck last.1 order last.0
  pub same_reserved : (p : ℕ) → (last.1.array p).reserved ≡ (before.array p).reserved
  pub same_min : last.1.min_pfn ≡ before.min_pfn

-- the write at the head of each round
abbrev pub stored : ℕ → ℕ → PageBuddy → PageBuddy
stored c i pool = modify i (λ f. record f { order = c }) pool

own_order : (c i : ℕ) (pool : PageBuddy) → ((stored c i pool).array i).order ≡ c
own_order c i pool = ground arith

-- The loop stops only at a block that is stuck.
stops-Stuck :
    (pool : PageBuddy) (out : List (ℕ × ℕ)) (c i : ℕ)
    → Tiles pool out
    → c < page_pool_max_order
    → (pool.array i).order ≡ c
    → merge_stops pool i c ≡ true
    → Stuck pool c i
unfolding merge_stops
stops-Stuck pool out c i t below own stop =
    elim (Bool-cases (has (buddy_index i c) (pool.page_list c))) [
      | inr absent ↦ not_free absent
      | inl found ↦ elim (dec_le 10 c) [
        | yes top ↦ at_top (omega arith)
        | no small ↦
            no_buddy
              (ground (arith, queued_free pool out t c (buddy_index i c) below found, order found))
      ]
    ]
  where
    order :
        has (buddy_index i c) (pool.page_list c) ≡ true → (pool.array (buddy_index i c)).order ≡ c
    order found = (All_lookup _ _ (pool.page_list c) (t.queued c below) found).ordered

-- What is known of the buddy when it goes on.
record Joinable (pool : PageBuddy) (c i : ℕ) : Type 0 where
  small : c < 10
  near : buddy_index i c < pool.nr_pages
  same : (pool.array (buddy_index i c)).order ≡ c
  clear : (pool.array (buddy_index i c)).used ≡ false
  open_page : (pool.array (buddy_index i c)).reserved ≡ false

goes_on-Joinable :
    (pool : PageBuddy) (c i : ℕ)
    → (pool.array i).order ≡ c
    → merge_stops pool i c ≡ false
    → Joinable pool c i
unfolding merge_stops
goes_on-Joinable pool c i own go = ground arith

-- One round that goes on, in terms of `joined`.
module _ (taken : List (ℕ × ℕ)) (c i : ℕ) (pool : PageBuddy)
    (t : Tiles (stored c i pool) ((c, i) ∷ taken))
    (handed : All (λ b. ((stored c i pool).array b.1).used ≡ true) taken)
    (clear : ((stored c i pool).array i).used ≡ false) (up : suc c < page_pool_max_order)
    (able : Joinable (stored c i pool) c i) where
  abbrev here : PageBuddy
  here = stored c i pool

  queued : has (buddy_index i c) (here.page_list c) ≡ true
  queued = buddy_queued here taken c i t handed able.near able.same able.clear able.open_page

  abbrev rest : PageBuddy
  rest = unqueue_page c (buddy_index i c) here

  next-Tiles : Tiles (stored (suc c) (parent c i) rest) ((suc c, parent c i) ∷ taken)
  next-Tiles =
      Tiles-joined here taken c i (buddy_index i c) (parent c i) t (Buddies-of t.held.0) up queued
        clear able.clear

  next_handed : All (λ b. ((stored (suc c) (parent c i) rest).array b.1).used ≡ true) taken
  next_handed =
      All-map _ _ taken
        (λ b h.
          joined_used here taken c i (buddy_index i c) (parent c i) t (Buddies-of t.held.0) up
            queued clear able.clear b.1
          ∙ h)
        handed

  next_clear : ((stored (suc c) (parent c i) rest).array (parent c i)).used ≡ false
  next_clear =
      joined_clear here taken c i (buddy_index i c) (parent c i) t (Buddies-of t.held.0) up queued
        clear able.clear

  Merged-step :
      (last : ℕ × PageBuddy)
      → Merged taken (suc c) (parent c i) (stored (suc c) (parent c i) rest) last
      → Merged taken c i here last
  Merged-step last m = record {
    order = m.order;
    tiles = m.tiles;
    handed = m.handed;
    clear = m.clear;
    conserved = λ w additive. omega (
      arith,
      m.conserved w additive,
      joined-conserved here taken c i (buddy_index i c) (parent c i) t (Buddies-of t.held.0) up
          queued clear able.clear w additive,
    );
    stuck = m.stuck;
    same_reserved = λ p.
        m.same_reserved p
        ∙ joined_reserved here taken c i (buddy_index i c) (parent c i) t (Buddies-of t.held.0) up
            queued clear able.clear p;
    same_min = m.same_min;
  }

-- The round that stops.
module _ (c i : ℕ) (taken : List (ℕ × ℕ)) (pool : PageBuddy) (below : c < page_pool_max_order)
    (t : Tiles (stored c i pool) ((c, i) ∷ taken))
    (handed : All (λ b. ((stored c i pool).array b.1).used ≡ true) taken)
    (clear : ((stored c i pool).array i).used ≡ false) where
  inside : ltb i pool.nr_pages ≡ true
  inside = lt→ltb i pool.nr_pages (omega (arith, t.held.0.fits, pow2_pos c))

  Merged-now :
      merge_stops (stored c i pool) i c ≡ true
      → Merged taken c i (stored c i pool) (i, stored c i pool)
  Merged-now stop = record {
    order = c;
    tiles = t;
    handed = handed;
    clear = clear;
    conserved = λ w additive. refl;
    stuck = stops-Stuck (stored c i pool) _ c i t below (own_order c i pool) stop;
    same_reserved = λ p. refl;
    same_min = refl;
  }

pub merge_loop-Merged :
    (rounds c i : ℕ) (taken : List (ℕ × ℕ)) (pool : PageBuddy)
    → c + suc rounds ≡ page_pool_max_order
    → Tiles (stored c i pool) ((c, i) ∷ taken)
    → All (λ b. ((stored c i pool).array b.1).used ≡ true) taken
    → ((stored c i pool).array i).used ≡ false
    → Ensures (Merged taken c i (stored c i pool)) (merge_loop (suc rounds) i c pool)
unfolding merge_loop
merge_loop-Merged zero c i taken pool e t handed clear =
    elim (Bool-cases (merge_stops (stored c i pool) i c)) [
      | inl stop ↦
          rw (inside c i taken pool (omega arith) t handed clear, stop)
            (Merged-now c i taken pool (omega arith) t handed clear stop)
      | inr go ↦
          absurd
            (omega (arith, (goes_on-Joinable (stored c i pool) c i (own_order c i pool) go).small))
    ]
merge_loop-Merged (suc rounds) c i taken pool e t handed clear =
    elim (Bool-cases (merge_stops (stored c i pool) i c)) [
      | inl stop ↦
          rw (inside c i taken pool (omega arith) t handed clear, stop)
            (Merged-now c i taken pool (omega arith) t handed clear stop)
      | inr go ↦
          let able = goes_on-Joinable (stored c i pool) c i (own_order c i pool) go in
          let up : suc c < page_pool_max_order = omega (arith, able.small) in
          rw (inside c i taken pool (omega arith) t handed clear, go, able.same)
            (Ensures-map _ _ _ (Merged-step taken c i pool t handed clear up able) (
              merge_loop-Merged rounds (suc c) (parent c i) taken
                (unqueue_page c (buddy_index i c) (stored c i pool)) (omega arith)
                (next-Tiles taken c i pool t handed clear up able)
                (next_handed taken c i pool t handed clear up able)
                (next_clear taken c i pool t handed clear up able)))
    ]
