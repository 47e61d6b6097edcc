-- ===== src/Klib/Strings/Copy.antt =====
-- What klib/strncpy.c and klib/strcpy.c write.
use native.Mathlib.Decide.{ℕ_discrete}
use risc_v_workshop.Prelude.{
  ℕ, zero, suc, ◌+◌, ◌-◌, ◌≡◌, inl, inr, refl, ◌∙◌, arith, Bool-cases, true, false, ◌&&◌, ltb, leb,
  ◌==◌, if◌then◌else◌, List, [], ◌∷◌, length, update,
}
use risc_v_workshop.Klib.Strings.{strncpy, strcpy}

-- the character at an offset, the terminator at the end
unfoldable pub char_at : List ℕ → ℕ → ℕ
char_at [] i = 0
char_at (c ∷ s) zero = c
char_at (c ∷ s) (suc i) = char_at s i

-- memory with the first `n` characters of a string, its terminator counted, written at `dest`
abbrev pub written : ℕ → List ℕ → ℕ → (ℕ → ℕ) → ℕ → ℕ
written dest src n mem p = if leb dest p && ltb p (dest + n) then char_at src (p - dest) else mem p

abbrev pub smaller : ℕ → ℕ → ℕ
smaller a b = if leb a b then a else b

written_none : (dest : ℕ) (src : List ℕ) (mem : ℕ → ℕ) (p : ℕ) → mem p ≡ written dest src 0 mem p
written_none dest src mem p = ground arith

written_next :
    (dest c n : ℕ) (src : List ℕ) (mem : ℕ → ℕ) (p : ℕ)
    → written (dest + 1) src n (update mem dest c) p ≡ written dest (c ∷ src) (suc n) mem p
unfolding char_at
written_next dest c n src mem p = elim (ℕ_discrete dest p) [
  | yes e ↦
      let before : (leb (dest + 1) p && ltb p (dest + 1 + n)) ≡ false = ground arith in
      let inside : (leb dest p && ltb p (dest + suc n)) ≡ true = ground arith in
      let here : (dest == p) ≡ true = ground arith in
      let offset : p - dest ≡ 0 = omega arith in rw (before, inside, here, offset) refl
  | no d ↦
      let same : (leb dest p && ltb p (dest + suc n)) ≡ (leb (dest + 1) p && ltb p (dest + 1 + n)) =
        ground arith in
      let elsewhere : (dest == p) ≡ false = ground arith in
      rw (same, elsewhere)
        (elim (Bool-cases (leb (dest + 1) p && ltb p (dest + 1 + n))) [
          | inl i ↦
              let offset : p - dest ≡ suc (p - (dest + 1)) = ground arith in rw (i, offset) refl
          | inr o ↦ rw o refl
        ])
]

-- A bounded copy writes the characters of the source, as many as the bound allows, and nothing else: it
-- writes no terminator, even where the bound leaves room.
pub strncpy-written :
    (src : List ℕ) (count dest : ℕ) (mem : ℕ → ℕ) (p : ℕ)
    → strncpy dest src count mem p ≡ written dest src (smaller (length src) count) mem p
unfolding strncpy
strncpy-written [] zero dest mem p = written_none dest [] mem p
strncpy-written [] (suc count) dest mem p =
    let none_copied : smaller 0 (suc count) ≡ 0 = ground arith in
    rw none_copied (written_none dest [] mem p)
strncpy-written (c ∷ src) zero dest mem p =
    let none_copied : smaller (length (c ∷ src)) 0 ≡ 0 = ground arith in
    rw none_copied (written_none dest (c ∷ src) mem p)
strncpy-written (c ∷ src) (suc count) dest mem p =
    let one_more : smaller (length (c ∷ src)) (suc count) ≡ suc (smaller (length src) count) =
      ground arith in
    rw one_more (
      strncpy-written src count (dest + 1) (update mem dest c) p
      ∙ written_next dest c (smaller (length src) count) src mem p)

-- A copy writes the characters of the source and the terminator, and nothing else.
pub strcpy-written :
    (src : List ℕ) (dest : ℕ) (mem : ℕ → ℕ) (p : ℕ)
    → strcpy dest src mem p ≡ written dest src (suc (length src)) mem p
unfolding strcpy char_at
strcpy-written [] dest mem p = ground arith
strcpy-written (c ∷ src) dest mem p =
    strcpy-written src (dest + 1) (update mem dest c) p
    ∙ written_next dest c (suc (length src)) src mem p
