-- ===== src/Klib/Bitops/Maps.antt =====
-- The searches of klib/bitops.c in an array of words.
use risc_v_workshop.Prelude.{
  lt→ltb, le→ltb, ◌-◌, ◌%◌, ℕ, zero, suc, ◌+◌, ◌*◌, ◌/◌, ◌^◌, ◌≤◌, ◌<◌, ◌≡◌, ◌⊎◌, inl, inr, refl,
  arith, Option, none, some, false, ◌==◌, if◌then◌else◌, Ensures, Ensures-bind,
}
use native.Mathlib.Decide.{ℕ_discrete}
use risc_v_workshop.Klib.Bitops.{
  element_ffs, element_fls, scan_up, scan_down, bitops_ffs, bitops_fls,
}
use risc_v_workshop.Klib.Bitops.Words.{
  First, FfsFinds, bitops_ffs-Finds, Last, FlsFinds, bitops_fls-Finds,
}

-- the sizes of an element that the code knows
abbrev pub IsElementSize : ℕ → Type 0
IsElementSize elm_size = (elm_size ≡ 8) ⊎ (elm_size ≡ 4) ⊎ (elm_size ≡ 2)

element_ffs-Finds :
    (elm_size n : ℕ)
    → IsElementSize elm_size
    → n < 2 ^ (8 * elm_size)
    → Ensures (λ off. FfsFinds n off (8 * elm_size)) (element_ffs elm_size n)
unfolding element_ffs
element_ffs-Finds elm_size n (inl e) = rw e (bitops_ffs-Finds n).2
element_ffs-Finds elm_size n (inr (inl e)) = rw e (bitops_ffs-Finds n).1
element_ffs-Finds elm_size n (inr (inr e)) = rw e (bitops_ffs-Finds n).0

element_fls-Finds :
    (elm_size n : ℕ)
    → IsElementSize elm_size
    → n < 2 ^ (8 * elm_size)
    → Ensures (λ off. FlsFinds n off (8 * elm_size)) (element_fls elm_size n)
unfolding element_fls
element_fls-Finds elm_size n (inl e) = rw e (bitops_fls-Finds n).2
element_fls-Finds elm_size n (inr (inl e)) = rw e (bitops_fls-Finds n).1
element_fls-Finds elm_size n (inr (inr e)) = rw e (bitops_fls-Finds n).0

-- no bit of the elements from `i` up to `j`, `j` not included, is set
abbrev pub Zero : (ℕ → ℕ) → ℕ → ℕ → Type 0
Zero v i j = (p : ℕ) → i ≤ p → p < j → v p ≡ 0

-- The first bit that is set in the elements of `bits` bits from `i` up to `j`.
pub record FirstIn (v : ℕ → ℕ) (bits i j pos : ℕ) : Type 0 where
  pub word : ℕ
  pub at : ℕ
  pub from : i ≤ word
  pub below : word < j
  pub inside : at < bits
  pub result : pos ≡ bits * word + at + 1
  pub first : First (v word) at
  pub before : Zero v i word

pub record LastIn (v : ℕ → ℕ) (bits j pos : ℕ) : Type 0 where
  pub word : ℕ
  pub off : ℕ
  pub below : word < j
  pub result : pos ≡ bits * word + off
  pub last : Last (v word) off bits
  pub after : Zero v (suc word) j

Zero-left : (v : ℕ → ℕ) (i j : ℕ) → v i ≡ 0 → Zero v (suc i) j → Zero v i j
Zero-left v i j z h p a b = elim (ℕ_discrete p i) [ yes e ↦ rw e z | no d ↦ h p (omega arith) b ]

Zero-right : (v : ℕ → ℕ) (i j : ℕ) → v j ≡ 0 → Zero v i j → Zero v i (suc j)
Zero-right v i j z h p a b = elim (ℕ_discrete p j) [ yes e ↦ rw e z | no d ↦ h p a (omega arith) ]

module _ (elm_size : ℕ) (v : ℕ → ℕ) (size : IsElementSize elm_size)
    (words : (i : ℕ) → v i < 2 ^ (8 * elm_size)) where
  abbrev pub UpFinds : ℕ → ℕ → ℕ → Type 0
  UpFinds i j pos = ((pos ≡ 0) × Zero v i j) ⊎ FirstIn v (8 * elm_size) i j pos

  up_step :
      (i j : ℕ) (rest : Option ℕ)
      → i < j
      → Ensures (UpFinds (suc i) j) rest
      → (off : ℕ) → FfsFinds (v i) off (8 * elm_size)
      → Ensures (UpFinds i j) (if off == 0 then rest else some (8 * elm_size * i + off))
  up_step i j none h r off (inl _) = absurd r
  up_step i j (some rest) h (inl (z, later)) off (inl (w, o)) =
      rw o (inl (z, Zero-left v i j w later))
  up_step i j (some rest) h (inr f) off (inl (w, o)) = rw o (
      inr (record {
        word = f.word;
        at = f.at;
        from = omega (arith, f.from);
        below = f.below;
        inside = f.inside;
        result = f.result;
        first = f.first;
        before = Zero-left v i f.word w f.before;
      }))
  up_step i j rest h r off (inr f) =
      let d : (off == 0) ≡ false = ground (arith, f.result) in
      rw d (
        inr (record {
          word = i;
          at = f.at;
          from = omega arith;
          below = h;
          inside = f.below;
          result = omega (arith, f.result);
          first = f.first;
          before = λ p a b. absurd (omega arith);
        }))

  scan_up-Finds :
      (n i fuel : ℕ)
      → i + fuel ≡ n
      → n < 2 ^ 32
      → Ensures (UpFinds i n) (scan_up elm_size v n i fuel)
  unfolding scan_up
  scan_up-Finds n i zero e h =
      rw (le→ltb i n (omega arith)) (inl (refl, λ p a b. absurd (omega arith)))
  scan_up-Finds n i (suc fuel) e h =
      let next : (i + 1) % 2 ^ 32 ≡ suc i = omega arith in
      rw (lt→ltb i n (omega arith), next)
        (Ensures-bind _ _ (element_ffs elm_size (v i)) _
          (element_ffs-Finds elm_size (v i) size (words i))
          (up_step i n (scan_up elm_size v n (suc i) fuel) (omega arith)
            (scan_up-Finds n (suc i) fuel (omega arith) h)))

  -- On a map of fewer than 2 ^ 32 elements, which an unsigned int counts, the search for the first set
  -- bit ends and fails no assertion. It returns 0 if no element has a bit set, and else the position,
  -- from 1, of the first bit that is set.
  pub bitops_ffs-Finds_map :
      (v_size : ℕ)
      → v_size / elm_size < 2 ^ 32
      → Ensures (UpFinds 0 (v_size / elm_size)) (bitops_ffs v v_size elm_size)
  unfolding bitops_ffs
  bitops_ffs-Finds_map v_size h =
      scan_up-Finds (v_size / elm_size) 0 (v_size / elm_size) (omega arith) h

  abbrev pub DownFinds : ℕ → ℕ → Type 0
  DownFinds j pos = ((pos ≡ 0) × Zero v 0 j) ⊎ LastIn v (8 * elm_size) j pos

  -- a position in a map of at most 2 ^ 31 elements does not wrap
  small_position :
      (j off : ℕ)
      → j < 2 ^ 31
      → off ≤ 8 * elm_size
      → (8 * elm_size * j + off) % 2 ^ 64 ≡ 8 * elm_size * j + off
  small_position j off h b = elim size [
    | inl e ↦ rw e (omega (arith, e, b, h))
    | inr (inl e) ↦ rw e (omega (arith, e, b, h))
    | inr (inr e) ↦ rw e (omega (arith, e, b, h))
  ]

  down_step :
      (j : ℕ) (rest : Option ℕ)
      → j < 2 ^ 31
      → Ensures (DownFinds j) rest
      → (off : ℕ) → FlsFinds (v j) off (8 * elm_size)
      → Ensures
          (DownFinds (suc j))
          (if off == 0 then rest else some ((8 * elm_size * j + off) % 2 ^ 64))
  down_step j none h r off (inl _) = absurd r
  down_step j (some rest) h (inl (z, later)) off (inl (w, o)) =
      rw o (inl (z, Zero-right v 0 j w later))
  down_step j (some rest) h (inr f) off (inl (w, o)) = rw o (
      inr (record {
        word = f.word;
        off = f.off;
        below = omega (arith, f.below);
        result = f.result;
        last = f.last;
        after = Zero-right v (suc f.word) j w f.after;
      }))
  down_step j rest h r off (inr f) =
      let d : (off == 0) ≡ false = ground (arith, f.least) in
      rw (d, small_position j off h f.most)
        (inr (record {
          word = j;
          off = off;
          below = omega arith;
          result = omega arith;
          last = f;
          after = λ p a b. absurd (omega arith);
        }))

  scan_down-Finds :
      (n i fuel : ℕ)
      → i + fuel ≡ n
      → n ≤ 2 ^ 31
      → Ensures (DownFinds fuel) (scan_down elm_size v n i fuel)
  unfolding scan_down
  scan_down-Finds n i zero e h =
      rw (le→ltb i n (omega arith)) (inl (refl, λ p a b. absurd (omega arith)))
  scan_down-Finds n i (suc left) e h =
      let next : (i + 1) % 2 ^ 32 ≡ suc i = omega arith in
      let last : n - i - 1 ≡ left = omega arith in
      let low : left % 2 ^ 32 ≡ left = omega arith in
      rw (lt→ltb i n (omega arith), next, last, low, lt→ltb left (2 ^ 31) (omega arith))
        (Ensures-bind _ _ (element_fls elm_size (v left)) _
          (element_fls-Finds elm_size (v left) size (words left))
          (down_step left (scan_down elm_size v n (suc i) left) (omega arith)
            (scan_down-Finds n (suc i) left (omega arith) h)))

  -- On a map of at most 2 ^ 31 elements, whose indices an int holds, the search for the last set bit
  -- ends and fails no assertion. It returns 0 if no element has a bit set, and else the position, from
  -- 1, of the last bit that is set.
  pub bitops_fls-Finds_map :
      (v_size : ℕ)
      → v_size / elm_size ≤ 2 ^ 31
      → Ensures (DownFinds (v_size / elm_size)) (bitops_fls v v_size elm_size)
  unfolding bitops_fls
  bitops_fls-Finds_map v_size h =
      scan_down-Finds (v_size / elm_size) 0 (v_size / elm_size) (omega arith) h
