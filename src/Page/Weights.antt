-- ===== src/Page/Weights.antt =====
-- Sums over blocks, a block being an order and an index: how many pages they have, and how many of
-- them hold a given page. Used to say what the buddy allocator keeps.
use risc_v_workshop.Prelude.{
  ℕ, zero, suc, ◌+◌, ◌^◌, ◌≤◌, ◌<◌, ◌≡◌, ◌≢◌, refl, true, ◌&&◌, List, [], ◌∷◌, ◌++◌, ◌⊎◌, inl, inr,
  arith, ltb, leb, ◌==◌, if◌then◌else◌, Bool-cases, All, has, remove, update, ap,
}
use risc_v_workshop.Prelude.Bits.{pow2-suc, pow2_pos}
use native.Mathlib.Decide.{dec_lt}

-- a value for each block, by order and index
abbrev pub Weight : Type 0
Weight = ℕ → ℕ → ℕ

-- the number of pages of a block
abbrev pub pages : Weight
pages k i = 2 ^ k

-- 1 if `p` is one of the `size` pages from `i` on, else 0
abbrev pub span : ℕ → ℕ → ℕ → ℕ
span p i size = if leb i p && ltb p (i + size) then 1 else 0

-- 1 if the block holds page `p`
abbrev pub covers : ℕ → Weight
covers p k i = span p i (2 ^ k)

-- A weight that a block divides among its two halves.
abbrev pub IsAdditive : Weight → Type 0
IsAdditive w = (k i : ℕ) → w (suc k) i ≡ w k i + w k (i + 2 ^ k)

pub pages-IsAdditive : IsAdditive pages
pages-IsAdditive k i = omega (arith, pow2-suc k)

span_add : (p i s : ℕ) → span p i (s + s) ≡ span p i s + span p (i + s) s
span_add p i s = ground arith

pub covers-IsAdditive : (p : ℕ) → IsAdditive (covers p)
covers-IsAdditive p k i =
    let e : 2 ^ suc k ≡ 2 ^ k + 2 ^ k = omega (arith, pow2-suc k) in rw e (span_add p i (2 ^ k))

pub covers_self : (i k : ℕ) → covers i k i ≡ 1
covers_self i k = ground (arith, pow2_pos k)

pub covers_in : (p k i : ℕ) → i ≤ p → p < i + 2 ^ k → covers p k i ≡ 1
covers_in p k i h g = ground arith

pub covers_out : (p k i : ℕ) → covers p k i ≢ 0 → (i ≤ p) × (p < i + 2 ^ k)
covers_out p k i h = ground arith

-- over the blocks of one order
unfoldable pub weigh : Weight → ℕ → List ℕ → ℕ
weigh w k [] = 0
weigh w k (i ∷ is) = w k i + weigh w k is

-- over the queues of the orders below `n`
unfoldable pub total : Weight → ℕ → (ℕ → List ℕ) → ℕ
total w zero queues = 0
total w (suc n) queues = total w n queues + weigh w n (queues n)

-- over blocks of any order
unfoldable pub weigh_blocks : Weight → List (ℕ × ℕ) → ℕ
weigh_blocks w [] = 0
weigh_blocks w ((k, i) ∷ bs) = w k i + weigh_blocks w bs

module _ (w : Weight) where
  pub weigh_nil : (k : ℕ) → weigh w k [] ≡ 0
  unfolding weigh
  weigh_nil k = refl

  pub weigh_cons : (k i : ℕ) (is : List ℕ) → weigh w k (i ∷ is) ≡ w k i + weigh w k is
  unfolding weigh
  weigh_cons k i is = refl

  pub weigh-append : (k i : ℕ) (is : List ℕ) → weigh w k (is ++ i ∷ []) ≡ weigh w k is + w k i
  unfolding weigh
  weigh-append k i [] = omega arith
  weigh-append k i (j ∷ js) = omega (arith, weigh-append k i js)

  pub weigh-remove :
      (k i : ℕ) (is : List ℕ) → has i is ≡ true → weigh w k (remove i is) + w k i ≡ weigh w k is
  unfolding weigh has remove
  weigh-remove k i [] h = cc
  weigh-remove k i (j ∷ js) h = ground (arith, weigh-remove k i js, ap (w k))

  pub total-update_of_le :
      (n k : ℕ) (queues : ℕ → List ℕ) (is : List ℕ)
      → n ≤ k
      → total w n (update queues k is) ≡ total w n queues
  unfolding total
  total-update_of_le zero k queues is h = refl
  total-update_of_le (suc n) k queues is h = ground (arith, total-update_of_le n k queues is)

  -- What replacing one queue does to the sum.
  pub total-update :
      (n k : ℕ) (queues : ℕ → List ℕ) (is : List ℕ)
      → k < n
      → total w n (update queues k is) + weigh w k (queues k) ≡ total w n queues + weigh w k is
  unfolding total
  total-update zero k queues is h = absurd (omega arith)
  total-update (suc n) k queues is h = elim (dec_lt k n) [
    | yes below ↦ ground (arith, total-update n k queues is below)
    | no last ↦ let e : k ≡ n = omega arith in ground (arith, total-update_of_le n k queues is)
  ]

  pub weigh-le-total :
      (n k : ℕ) (queues : ℕ → List ℕ) → k < n → weigh w k (queues k) ≤ total w n queues
  unfolding total
  weigh-le-total zero k queues h = absurd (omega arith)
  weigh-le-total (suc n) k queues h = elim (dec_lt k n) [
    | yes below ↦ omega (arith, weigh-le-total n k queues below)
    | no last ↦ let e : n ≡ k = omega arith in rw e (omega arith)
  ]

  pub weight-le-weigh : (k i : ℕ) (is : List ℕ) → has i is ≡ true → w k i ≤ weigh w k is
  weight-le-weigh k i is h = omega (arith, weigh-remove k i is h)

  -- A positive sum comes from some block.
  pub weigh_pos :
      (k : ℕ) (is : List ℕ) → 0 < weigh w k is → (i : ℕ) × (has i is ≡ true) × (w k i ≢ 0)
  unfolding weigh has
  weigh_pos k [] h = elim h [ ]
  weigh_pos k (i ∷ is) h = elim (dec_lt 0 (w k i)) [
    | yes here ↦ (i, ground arith, ground arith)
    | no later ↦ let (j, found, weight) = weigh_pos k is (omega arith) in (j, ground arith, weight)
  ]

  pub total_pos :
      (n : ℕ) (queues : ℕ → List ℕ)
      → 0 < total w n queues
      → (k : ℕ) × (i : ℕ) × (k < n) × (has i (queues k) ≡ true) × (w k i ≢ 0)
  unfolding total
  total_pos zero queues h = elim h [ ]
  total_pos (suc n) queues h = elim (dec_lt 0 (weigh w n (queues n))) [
    | yes here ↦
        let (i, found, weight) = weigh_pos n (queues n) here in (n, i, omega arith, found, weight)
    | no later ↦
        let (k, i, below, found, weight) = total_pos n queues (omega arith) in
        (k, i, omega arith, found, weight)
  ]

-- Blocks none of which holds `p` do not start at `p`.
pub weigh_none : (p k : ℕ) (is : List ℕ) → weigh (covers p) k is ≡ 0 → All (λ i. i ≢ p) is
unfolding weigh
weigh_none p k [] h = tt
weigh_none p k (i ∷ is) h =
    (λ e. absurd (ground (arith, covers_self i k)), weigh_none p k is (omega arith))

pub weigh_blocks_none :
    (p : ℕ) (bs : List (ℕ × ℕ)) → weigh_blocks (covers p) bs ≡ 0 → All (λ b. b.1 ≢ p) bs
unfolding weigh_blocks
weigh_blocks_none p [] h = tt
weigh_blocks_none p ((k, i) ∷ bs) h =
    (λ e. absurd (ground (arith, covers_self i k)), weigh_blocks_none p bs (omega arith))

-- 1 for a block that starts at page `p`, else 0
abbrev pub starts : ℕ → Weight
starts p k i = if i == p then 1 else 0

pub starts-le-covers :
    (p : ℕ) (bs : List (ℕ × ℕ)) → weigh_blocks (starts p) bs ≤ weigh_blocks (covers p) bs
unfolding weigh_blocks
starts-le-covers p [] = omega arith
starts-le-covers p ((k, i) ∷ bs) = elim (Bool-cases (i == p)) [
  | inl e ↦
      let h : i ≡ p = ground arith in
      ground (arith, covers_in p k i, pow2_pos k, starts-le-covers p bs)
  | inr e ↦ ground (arith, starts-le-covers p bs)
]

-- A block of positive weight in a list of blocks of which each has `P`.
pub blocks_find :
    (P : ℕ × ℕ → Type 0) (w v : Weight) (bs : List (ℕ × ℕ))
    → All P bs
    → 0 < weigh_blocks w bs
    → (b : ℕ × ℕ) × P b × (w b.0 b.1 ≢ 0) × (v b.0 b.1 ≤ weigh_blocks v bs)
unfolding weigh_blocks
blocks_find P w v [] all h = elim h [ ]
blocks_find P w v ((k, i) ∷ bs) all h = elim (dec_lt 0 (w k i)) [
  | yes here ↦ ((k, i), all.0, omega arith, omega arith)
  | no later ↦
      let (b, holds, weight, bound) = blocks_find P w v bs all.1 (omega arith) in
      (b, holds, weight, omega (arith, bound))
]

pub covers_apart : (p k i : ℕ) → (p < i) ⊎ (i + 2 ^ k ≤ p) → covers p k i ≡ 0
covers_apart p k i (inl h) = ground arith
covers_apart p k i (inr h) = ground arith

pub starts_ne : (p k i : ℕ) → i ≢ p → starts p k i ≡ 0
starts_ne p k i h = ground arith
