-- ===== src/Klib/Bitops/Words.antt =====
-- The searches in one word of klib/bitops.c find the first and the last bit that is set.
use native.Mathlib.Nat.{div-add-mod', mul-mod_left, mod-eq_of_lt, mod-lt, div-eq_of_lt}
use native.Mathlib.Decide.{dec_lt}
use risc_v_workshop.Prelude.{
  ℕ, zero, suc, ◌+◌, ◌-◌, ◌*◌, ◌/◌, ◌%◌, ◌^◌, ◌≤◌, ◌<◌, ◌≡◌, ◌≢◌, ◌⊎◌, inl, inr, refl, ap, ◌∙◌, sym,
  arith, Bool-cases, ◌==◌, if◌then◌else◌,
}
use risc_v_workshop.Prelude.Bits.{
  pow2-suc, pow2_pos, pow2_split, pow2_multiple, mul_lt_cancel, mul_mono,
}
use risc_v_workshop.Klib.Bitops.{
  ffs_loop, bitops_ffs16, bitops_ffs32, bitops_ffs64, fls_loop, bitops_fls16, bitops_fls32,
  bitops_fls64,
}

-- Bit `k` of `n` is set and no lower one is.
pub record First (n k : ℕ) : Type 0 where
  pub above : ℕ
  pub form : n ≡ (2 * above + 1) * 2 ^ k

assoc : (a b c : ℕ) → a * b * c ≡ a * (b * c)
assoc a b c = grind arith

First-shift : (n q b k : ℕ) → n ≡ q * 2 ^ b → First q k → First n (b + k)
First-shift n q b k e f = record {
  above = f.above;
  form =
      e
      ∙ ap (λ t. t * 2 ^ b) f.form
      ∙ assoc _ (2 ^ k) (2 ^ b)
      ∙ ap (λ t. (2 * f.above + 1) * t) (sym (pow2_split b k));
}

pub record Finds (n v found bound : ℕ) : Type 0 where
  pub at : ℕ
  pub below : at < bound
  pub result : found ≡ v + at
  pub first : First n at

-- two halves that are both clear are clear together
halves :
    (n e : ℕ) → n % 2 ^ (2 ^ e) ≡ 0 → n / 2 ^ (2 ^ e) % 2 ^ (2 ^ e) ≡ 0 → n % 2 ^ (2 ^ suc e) ≡ 0
halves n e p q =
    let b = 2 ^ e in
    let low : n ≡ n / 2 ^ b * 2 ^ b = omega (arith, div-add-mod' n (2 ^ b), p) in
    let high : n / 2 ^ b ≡ n / 2 ^ b / 2 ^ b * 2 ^ b =
      omega (arith, div-add-mod' (n / 2 ^ b) (2 ^ b), q) in
    let double : 2 ^ suc e ≡ b + b = omega (arith, pow2-suc e) in
    let n_as : n ≡ n / 2 ^ b / 2 ^ b * 2 ^ (2 ^ suc e) =
      low
      ∙ ap (λ t. t * 2 ^ b) high
      ∙ assoc _ (2 ^ b) (2 ^ b)
      ∙ ap (λ t. n / 2 ^ b / 2 ^ b * t) (sym (pow2_split b b) ∙ ap (λ t. 2 ^ t) (sym double)) in
    ap (λ t. t % 2 ^ (2 ^ suc e)) n_as ∙ mul-mod_left _ _

ffs_loop-Finds : (e n v : ℕ) → n % 2 ^ (2 ^ e) ≢ 0 → Finds n v (ffs_loop e n v) (2 ^ e)
unfolding ffs_loop
ffs_loop-Finds zero n v h = record {
  at = 0;
  below = omega arith;
  result = omega arith;
  first = record { above = n / 2; form = omega arith };
}
ffs_loop-Finds (suc e) n v h = elim (Bool-cases (n % 2 ^ (2 ^ e) == 0)) [
  | inr d ↦
      let f = ffs_loop-Finds e n v (ground arith) in
      rw d (record {
        at = f.at;
        below = omega (arith, f.below, pow2-suc e);
        result = f.result;
        first = f.first;
      })
  | inl d ↦
      let z : n % 2 ^ (2 ^ e) ≡ 0 = ground arith in
      let f = ffs_loop-Finds e (n / 2 ^ (2 ^ e)) (v + 2 ^ e) (λ q. h (halves n e z q)) in
      rw d (record {
        at = 2 ^ e + f.at;
        below = omega (arith, f.below, pow2-suc e);
        result = omega (arith, f.result);
        first =
            First-shift n _ (2 ^ e) f.at (omega (arith, div-add-mod' n (2 ^ (2 ^ e)), z)) f.first;
      })
]

-- What a search for the first bit returns: 0 for the word 0, else the bit's position from 1.
abbrev pub FfsFinds : ℕ → ℕ → ℕ → Type 0
FfsFinds n found bits = ((n ≡ 0) × (found ≡ 0)) ⊎ Finds n 1 found bits

ffs_loop_lem :
    (e n : ℕ) → n < 2 ^ (2 ^ e) → FfsFinds n (if n == 0 then 0 else ffs_loop e n 1) (2 ^ e)
ffs_loop_lem e n h = elim (Bool-cases (n == 0)) [
  | inl z ↦ rw z (inl (ground arith, refl))
  | inr z ↦
      let d : n ≢ 0 = ground arith in
      rw z (inr (ffs_loop-Finds e n 1 (omega (arith, mod-eq_of_lt h, d))))
]

-- On words of 16, 32 and 64 bits the search for the first bit that is set returns 0 exactly for the
-- word 0, and else the position of that bit, counted from 1.
pub bitops_ffs-Finds :
    (n : ℕ)
    → ((n < 2 ^ 16) → FfsFinds n (bitops_ffs16 n) 16)
      × ((n < 2 ^ 32) → FfsFinds n (bitops_ffs32 n) 32)
      × ((n < 2 ^ 64) → FfsFinds n (bitops_ffs64 n) 64)
unfolding bitops_ffs16 bitops_ffs32 bitops_ffs64
bitops_ffs-Finds n = (ffs_loop_lem 4 n, ffs_loop_lem 5 n, ffs_loop_lem 6 n)

-- `found` is one more than the last bit of `n` that is set, in a word of `bits` bits.
pub record Last (n found bits : ℕ) : Type 0 where
  pub least : 1 ≤ found
  pub most : found ≤ bits
  pub low : 2 ^ (found - 1) ≤ n
  pub high : n < 2 ^ found

le_cancel : (a b m : ℕ) → 0 < m → a * m ≤ b * m → a ≤ b
le_cancel a b m p h = grind arith

lt_mono : (a b m : ℕ) → 0 < m → a < b → a * m < b * m
lt_mono a b m p h = grind arith

div_zero : (n m : ℕ) → 0 < m → n / m ≡ 0 → n < m
div_zero n m p h = omega (arith, div-add-mod' n m, mod-lt n p, ap (λ t. t * m) h)

div_pos : (n m : ℕ) → 0 < m → n / m ≢ 0 → m ≤ n
div_pos n m p h = elim (dec_lt n m) [ yes q ↦ absurd (h (div-eq_of_lt q)) | no q ↦ omega arith ]

-- The word shifted so that bit `r - 1` is the top one.
Last-shifted :
    (n w r : ℕ)
    → 1 ≤ r
    → r ≤ w
    → n * 2 ^ (w - r) < 2 ^ w
    → 2 ^ (w - 1) ≤ n * 2 ^ (w - r)
    → Last n r w
Last-shifted n w r p q h l =
    let whole : w - (w - r) ≡ r = omega arith in
    let part : w - 1 - (w - r) ≡ r - 1 = omega arith in
    let full : 2 ^ w ≡ 2 ^ r * 2 ^ (w - r) =
      pow2_multiple (w - r) w (omega arith) ∙ ap (λ t. 2 ^ t * 2 ^ (w - r)) whole in
    let half : 2 ^ (w - 1) ≡ 2 ^ (r - 1) * 2 ^ (w - r) =
      pow2_multiple (w - r) (w - 1) (omega arith) ∙ ap (λ t. 2 ^ t * 2 ^ (w - r)) part in
    record {
      least = p;
      most = q;
      low = le_cancel _ _ (2 ^ (w - r)) (pow2_pos (w - r)) (omega (arith, half, l));
      high = mul_lt_cancel _ _ (2 ^ (w - r)) (omega (arith, full, h));
    }

fls_loop-Last :
    (e w whole n v : ℕ)
    → n ≡ whole * 2 ^ (w - v)
    → n < 2 ^ w
    → 2 ^ (w - 2 ^ e) ≤ n
    → 2 ^ e ≤ v
    → v ≤ w
    → Last whole (fls_loop w e n v) w
unfolding fls_loop
fls_loop-Last zero w whole n v e h l p q =
    Last-shifted whole w v p q (omega (arith, e, h)) (omega (arith, e, l))
fls_loop-Last (suc e) w whole n v s h l p q =
    let double : 2 ^ suc e ≡ 2 ^ e + 2 ^ e = omega (arith, pow2-suc e) in
    let b_pos = pow2_pos (2 ^ e) in
    elim (Bool-cases (n / 2 ^ (w - 2 ^ e) == 0)) [
      | inr d ↦ rw d (
          fls_loop-Last e w whole n v s h (div_pos n _ (pow2_pos (w - 2 ^ e)) (ground arith))
            (omega (arith, double)) q)
      | inl d ↦
          let small : n < 2 ^ (w - 2 ^ e) = div_zero n _ (pow2_pos (w - 2 ^ e)) (ground arith) in
          let top : 2 ^ w ≡ 2 ^ (w - 2 ^ e) * 2 ^ (2 ^ e) =
            pow2_multiple (2 ^ e) w (omega (arith, double)) in
          let fits : n * 2 ^ (2 ^ e) < 2 ^ w = omega (arith, top, lt_mono n _ _ b_pos small) in
          let back : w - 2 ^ e - 2 ^ e ≡ w - 2 ^ suc e = omega (arith, double) in
          let bottom : 2 ^ (w - 2 ^ e) ≡ 2 ^ (w - 2 ^ suc e) * 2 ^ (2 ^ e) =
            pow2_multiple (2 ^ e) (w - 2 ^ e) (omega (arith, double))
            ∙ ap (λ t. 2 ^ t * 2 ^ (2 ^ e)) back in
          let moved : 2 ^ e + (w - v) ≡ w - (v - 2 ^ e) = omega (arith, double) in
          let form : n * 2 ^ (2 ^ e) ≡ whole * 2 ^ (w - (v - 2 ^ e)) =
            ap (λ t. t * 2 ^ (2 ^ e)) s
            ∙ assoc whole _ _
            ∙ ap (λ t. whole * t) (sym (pow2_split (2 ^ e) (w - v)) ∙ ap (λ t. 2 ^ t) moved) in
          rw (d, mod-eq_of_lt fits)
            (fls_loop-Last e w whole (n * 2 ^ (2 ^ e)) (v - 2 ^ e) form fits
              (omega (arith, bottom, mul_mono _ _ (2 ^ (2 ^ e)) l)) (omega (arith, double))
              (omega (arith, q)))
    ]

fls_loop_lem :
    (e n : ℕ)
    → n < 2 ^ (2 ^ e)
    → ((n ≡ 0) × ((if n == 0 then 0 else fls_loop (2 ^ e) e n (2 ^ e)) ≡ 0))
      ⊎ Last n (if n == 0 then 0 else fls_loop (2 ^ e) e n (2 ^ e)) (2 ^ e)
fls_loop_lem e n h = elim (Bool-cases (n == 0)) [
  | inl z ↦ rw z (inl (ground arith, refl))
  | inr z ↦
      let d : n ≢ 0 = ground arith in
      let none_left : 2 ^ e - 2 ^ e ≡ 0 = omega arith in
      rw z (
        inr (
          fls_loop-Last e (2 ^ e) n n (2 ^ e) (rw none_left (omega arith)) h
            (rw none_left (omega (arith, d))) (omega arith) (omega arith)))
]

-- What a search for the last bit returns: 0 for the word 0, else the bit's position from 1.
abbrev pub FlsFinds : ℕ → ℕ → ℕ → Type 0
FlsFinds n found bits = ((n ≡ 0) × (found ≡ 0)) ⊎ Last n found bits

-- On words of 16, 32 and 64 bits the search for the last bit that is set returns 0 exactly for the
-- word 0, and else the position of that bit, counted from 1.
pub bitops_fls-Finds :
    (n : ℕ)
    → ((n < 2 ^ 16) → FlsFinds n (bitops_fls16 n) 16)
      × ((n < 2 ^ 32) → FlsFinds n (bitops_fls32 n) 32)
      × ((n < 2 ^ 64) → FlsFinds n (bitops_fls64 n) 64)
unfolding bitops_fls16 bitops_fls32 bitops_fls64
bitops_fls-Finds n = (fls_loop_lem 4 n, fls_loop_lem 5 n, fls_loop_lem 6 n)
