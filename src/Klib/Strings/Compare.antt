-- ===== src/Klib/Strings/Compare.antt =====
-- When klib/strncmp.c returns 0.
use risc_v_workshop.Prelude.{
  ℕ, zero, suc, ◌<◌, ◌≡◌, ◌≢◌, ◌↔◌, inl, inr, refl, arith, Bool-cases, true, false, ◌==◌,
  if◌then◌else◌, List, [], ◌∷◌, All, is_empty,
}
use risc_v_workshop.Klib.Memory.{signed_char_difference}
use risc_v_workshop.Klib.Strings.{strncmp, strncmp_loop}

abbrev pub IsChar : ℕ → Type 0
IsChar c = (0 < c) × (c < 256)

-- The first `n` characters of `s1`, or all of them if it has fewer, are the start of `s2`.
abbrev pub Starts : ℕ → List ℕ → List ℕ → Type 0
Starts zero s1 s2 = Unit
Starts (suc n) [] s2 = Unit
Starts (suc n) (a ∷ s1) [] = ⊥
Starts (suc n) (a ∷ s1) (b ∷ s2) = (a ≡ b) × Starts n s1 s2

same_char : (a b : ℕ) → a < 256 → b < 256 → (signed_char_difference a b == 0) ≡ true → a ≡ b
same_char a b p q h = ground arith

other_char : (a b : ℕ) → a < 256 → b < 256 → (signed_char_difference a b == 0) ≡ false → a ≢ b
other_char a b p q h = ground arith

loop-Starts :
    (s1 s2 : List ℕ) (n rc : ℕ)
    → All IsChar s1
    → All IsChar s2
    → rc ≡ 0
    → (strncmp_loop s1 s2 n rc ≡ 0) ↔ Starts n s1 s2
unfolding strncmp_loop
loop-Starts [] s2 zero rc h g e = ((λ z. tt), (λ z. e))
loop-Starts [] s2 (suc n) rc h g e = ((λ z. tt), (λ z. e))
loop-Starts (a ∷ s1) s2 zero rc h g e = ((λ z. tt), (λ z. e))
loop-Starts (a ∷ s1) [] (suc n) rc h g e =
    let p = h.0.0 in
    let q = h.0.1 in
    let d : (signed_char_difference a 0 == 0) ≡ false = ground arith in
    rw d ((λ z. ground arith), (λ s. absurd s))
loop-Starts (a ∷ s1) (b ∷ s2) (suc n) rc h g e =
    elim (Bool-cases (signed_char_difference a b == 0)) [
      | inl d ↦
          let same = same_char a b h.0.1 g.0.1 d in
          let rest = loop-Starts s1 s2 n (signed_char_difference a b) h.1 g.1 (ground arith) in
          rw d ((λ z. (same, rest.0 z)), (λ s. rest.1 s.1))
      | inr d ↦
          let other = other_char a b h.0.1 g.0.1 d in
          rw d ((λ z. ground arith), (λ s. absurd (other s.0)))
    ]

-- the rc that the loop starts from does not matter once it makes a round
first_round :
    (a n r q : ℕ) (s1 s2 : List ℕ)
    → strncmp_loop (a ∷ s1) s2 (suc n) r ≡ strncmp_loop (a ∷ s1) s2 (suc n) q
unfolding strncmp_loop
first_round a n r q s1 s2 = refl

-- Comparing at least one character of a string that is not empty gives 0 exactly if the characters of
-- the first string, up to the number given, are the start of the second string: also where the second
-- one has more characters within that number.
pub strncmp_iff :
    (a n : ℕ) (s1 s2 : List ℕ)
    → All IsChar (a ∷ s1)
    → All IsChar s2
    → (strncmp (a ∷ s1) s2 (suc n) ≡ 0) ↔ Starts (suc n) (a ∷ s1) s2
unfolding strncmp
strncmp_iff a n s1 s2 h g =
    let same = first_round a n (if is_empty s2 then 0 else 255) 0 s1 s2 in
    rw same (loop-Starts (a ∷ s1) s2 (suc n) 0 h g refl)
