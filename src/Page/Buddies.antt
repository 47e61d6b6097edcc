-- ===== src/Page/Buddies.antt =====
-- Two buddies are the halves of one block of the next order.
use native.Mathlib.Decide.{dec_le, ℕ_discrete}
use mathlib.Core.Path.{subst}
use risc_v_workshop.Prelude.{
  ℕ, suc, ◌+◌, ◌-◌, ◌*◌, ◌/◌, ◌%◌, ◌^◌, ◌≤◌, ◌<◌, ◌≡◌, ◌⊎◌, inl, inr, ap, ◌∙◌, sym, arith,
}
use risc_v_workshop.Prelude.Bits.{
  pow2-suc, pow2_pos, bit_xor_even, bit_xor_odd, pow2_multiple, mul_lt_cancel, mul_mono,
  multiple_div,
}
use risc_v_workshop.Page.Frame.{PageFrame}
use risc_v_workshop.Page.Pool.{buddy_index}
use risc_v_workshop.Page.Weights.{Weight}
use risc_v_workshop.Page.Tiles.{IsBlock}

-- `i` and `b` are the halves, of order `c`, of the block that starts at `lower`.
pub record Buddies (c i b lower : ℕ) : Type 0 where
  pub slot : ℕ
  pub at : lower ≡ slot * 2 ^ suc c
  pub halves : ((i ≡ lower) × (b ≡ lower + 2 ^ c)) ⊎ ((i ≡ lower + 2 ^ c) × (b ≡ lower))

abbrev pub parent : ℕ → ℕ → ℕ
parent c i = i / 2 ^ suc c * 2 ^ suc c

parent_lem : (c m r : ℕ) → r < 2 ^ suc c → parent c (m * 2 ^ suc c + r) ≡ m * 2 ^ suc c
parent_lem c m r h = rw (multiple_div m (2 ^ suc c) r h)

-- `s` is where a block of order `c` may stand.
abbrev Paired : ℕ → ℕ → Type 0
Paired c s = Buddies c (s * 2 ^ c) (buddy_index (s * 2 ^ c) c) (parent c (s * 2 ^ c))

buddies_even : (c m : ℕ) → Paired c (m * 2)
buddies_even c m = record {
  slot = m;
  at = ap (parent c) place ∙ parent_lem c m 0 (pow2_pos (suc c));
  halves = inl (
    omega (arith, place, ap (parent c) place, parent_lem c m 0 (pow2_pos (suc c))),
    omega
        (arith, bit_xor_even c m, place, ap (parent c) place, parent_lem c m 0 (pow2_pos (suc c))),
  );
}
  where
    place : m * 2 * 2 ^ c ≡ m * 2 ^ suc c + 0
    place = omega (arith, ap (λ t. m * t) (pow2-suc c))

buddies_odd : (c m : ℕ) → Paired c (m * 2 + 1)
buddies_odd c m = record {
  slot = m;
  at = ap (parent c) place ∙ low;
  halves = inr (
    omega (arith, place, ap (parent c) place, low),
    omega (arith, bit_xor_odd c m, place, ap (parent c) place, low, ap (λ t. m * t) (pow2-suc c)),
  );
}
  where
    place : (m * 2 + 1) * 2 ^ c ≡ m * 2 ^ suc c + 2 ^ c
    place = omega (arith, ap (λ t. m * t) (pow2-suc c))

    low : parent c (m * 2 ^ suc c + 2 ^ c) ≡ m * 2 ^ suc c
    low = parent_lem c m (2 ^ c) (omega (arith, pow2-suc c, pow2_pos c))

buddies_at : (c s : ℕ) → Paired c s
buddies_at c s = elim (ℕ_discrete (s % 2) 0) [
  | yes even ↦ let e : s / 2 * 2 ≡ s = omega arith in subst (Paired c) e (buddies_even c (s / 2))
  | no odd ↦ let e : s / 2 * 2 + 1 ≡ s = omega arith in subst (Paired c) e (buddies_odd c (s / 2))
]

-- The code's buddy and the code's parent of a block.
pub Buddies-of :
    {array : ℕ → PageFrame} {nr c i : ℕ}
    → IsBlock array nr c i
    → Buddies c i (buddy_index i c) (parent c i)
Buddies-of {c} {i} h =
    subst (λ i. Buddies c i (buddy_index i c) (parent c i)) (sym h.aligned) (buddies_at c h.slot)

-- The halves weigh as much as the whole.
pub Buddies-weight :
    (w : Weight) (c i b lower : ℕ)
    → Buddies c i b lower
    → w c i + w c b ≡ w c lower + w c (lower + 2 ^ c)
Buddies-weight w c i b lower p = go p.halves
  where
    go :
        ((i ≡ lower) × (b ≡ lower + 2 ^ c)) ⊎ ((i ≡ lower + 2 ^ c) × (b ≡ lower))
        → w c i + w c b ≡ w c lower + w c (lower + 2 ^ c)
    go (inl h) = rw (h.0, h.1)
    go (inr h) = rw (h.0, h.1) (omega arith)

-- No multiple of `m` lies strictly between two neighbouring ones.
multiple_gap : (s t m : ℕ) → s * m < t * m → t * m < s * m + m → ⊥
multiple_gap s t m low high =
    omega (arith, mul_lt_cancel s t m low, mul_lt_cancel t (s + 1) m (omega arith))

-- A block of whole units that meets a unit holds all of it.
units :
    (u v q m x : ℕ)
    → u * m < q * m + m
    → q * m < u * m + v * m
    → q * m ≤ x
    → x < q * m + m
    → (u * m ≤ x) × (x < u * m + v * m)
units u v q m x low high from under = (
  omega (arith, mul_mono u q m (omega (arith, mul_lt_cancel u (q + 1) m (omega arith)))),
  omega
      (arith, mul_mono (q + 1) (u + v) m (omega (arith, mul_lt_cancel q (u + v) m (omega arith)))),
)

-- Both halves are multiples of the size of a smaller block.
half_multiple : (c i b lower k : ℕ) → Buddies c i b lower → k ≤ c → (t : ℕ) × (b ≡ t * 2 ^ k)
half_multiple c i b lower k p h = go p.halves
  where
    q : ℕ
    q = 2 ^ (c - k)

    base : lower ≡ p.slot * 2 * q * 2 ^ k
    base =
        omega (
          arith,
          p.at,
          ap (λ t. p.slot * t) (pow2-suc c),
          ap (λ t. p.slot * t) (pow2_multiple k c h),
        )

    go :
        ((i ≡ lower) × (b ≡ lower + 2 ^ c)) ⊎ ((i ≡ lower + 2 ^ c) × (b ≡ lower))
        → (t : ℕ) × (b ≡ t * 2 ^ k)
    go (inl e) = (p.slot * 2 * q + q, omega (arith, base, pow2_multiple k c h))
    go (inr e) = (p.slot * 2 * q, omega (arith, base))

-- An aligned block that holds the buddy and does not start there holds the block itself.
pub Buddies-nested :
    (c i b lower k s : ℕ)
    → Buddies c i b lower
    → s * 2 ^ k < b
    → b < s * 2 ^ k + 2 ^ k
    → (s * 2 ^ k ≤ i) × (i < s * 2 ^ k + 2 ^ k)
Buddies-nested c i b lower k s p above under = elim (dec_le k c) [
  | yes small ↦
      let (t, e) = half_multiple c i b lower k p small in
      absurd (multiple_gap s t (2 ^ k) (rw (← e) above) (rw (← e) under))
  | no big ↦
      let v : ℕ = 2 ^ (k - suc c) in
      let m : ℕ = 2 ^ suc c in
      let size : 2 ^ k ≡ v * m = pow2_multiple (suc c) k (omega arith) in
      let at : s * 2 ^ k ≡ s * v * m = omega (arith, ap (λ t. s * t) size) in
      let inside =
        units (s * v) v p.slot m i (omega (arith, p.at, p.halves, pow2-suc c, pow2_pos c))
          (omega (arith, p.at, p.halves, pow2-suc c, pow2_pos c))
          (omega (arith, p.at, p.halves, pow2-suc c, pow2_pos c))
          (omega (arith, p.at, p.halves, pow2-suc c, pow2_pos c)) in
      (omega (arith, inside.0), omega (arith, inside.1))
]
