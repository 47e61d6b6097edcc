-- ===== src/Klib/Strings/Search.antt =====
-- klib/strstr.c finds the first place of the needle.
use risc_v_workshop.Prelude.{
  ℕ, zero, suc, ◌<◌, ◌≡◌, inl, inr, arith, Bool-cases, true, false, ◌&&◌, ◌==◌, List, [], ◌∷◌,
  Option, none, some,
}
use risc_v_workshop.Klib.Strings.{needle_here, strstr}

-- The needle is the start of the haystack.
abbrev pub Here : List ℕ → List ℕ → Type 0
Here haystack [] = Unit
Here [] (b ∷ needle) = ⊥
Here (a ∷ haystack) (b ∷ needle) = (a ≡ b) × Here haystack needle

-- The needle is at the offset `i` of the haystack.
abbrev pub IsAt : List ℕ → List ℕ → ℕ → Type 0
IsAt needle haystack zero = Here haystack needle
IsAt needle [] (suc i) = ⊥
IsAt needle (a ∷ haystack) (suc i) = IsAt needle haystack i

needle_here-true : (cq cr : List ℕ) → needle_here cq cr ≡ true → Here cq cr
unfolding needle_here
needle_here-true cq [] h = tt
needle_here-true [] (b ∷ cr) h = absurd (cc)
needle_here-true (a ∷ cq) (b ∷ cr) h = elim (Bool-cases (a == b)) [
  | inl e ↦ (ground arith, needle_here-true cq cr (rw e at h))
  | inr e ↦ let no : false ≡ true = rw e at h in absurd (cc)
]

needle_here-false : (cq cr : List ℕ) → needle_here cq cr ≡ false → Here cq cr → ⊥
unfolding needle_here
needle_here-false cq [] h p = absurd (cc)
needle_here-false [] (b ∷ cr) h p = p
needle_here-false (a ∷ cq) (b ∷ cr) h p =
    let e : (a == b) ≡ true = let q = p.0 in ground arith in needle_here-false cq cr (rw e at h) p.1

abbrev pub StrstrOutcome : List ℕ → List ℕ → Option ℕ → Type 0
StrstrOutcome needle haystack none = (i : ℕ) → IsAt needle haystack i → ⊥
StrstrOutcome needle haystack (some i) =
    IsAt needle haystack i × ((j : ℕ) → j < i → IsAt needle haystack j → ⊥)

module _ (b : ℕ) (needle : List ℕ) where
  shifted :
      (a : ℕ) (haystack : List ℕ) (o : Option ℕ)
      → (Here (a ∷ haystack) (b ∷ needle) → ⊥)
      → StrstrOutcome (b ∷ needle) haystack o
      → StrstrOutcome (b ∷ needle) (a ∷ haystack) (elim o [ none ↦ none | some i ↦ some (suc i) ])
  shifted a haystack none absent h = miss
    where
      miss : (i : ℕ) → IsAt (b ∷ needle) (a ∷ haystack) i → ⊥
      miss zero p = absent p
      miss (suc i) p = h i p
  shifted a haystack (some i) absent h = (h.0, miss)
    where
      miss : (j : ℕ) → j < suc i → IsAt (b ∷ needle) (a ∷ haystack) j → ⊥
      miss zero l p = absent p
      miss (suc j) l p = h.1 j (omega arith) p

  -- For a needle that is not empty the search gives the offset of its first place in the haystack, and
  -- nothing exactly if it has none.
  pub strstr-Outcome :
      (haystack : List ℕ) → StrstrOutcome (b ∷ needle) haystack (strstr haystack (b ∷ needle))
  unfolding strstr
  strstr-Outcome [] = nowhere
    where
      nowhere : (i : ℕ) → IsAt (b ∷ needle) [] i → ⊥
      nowhere zero p = p
      nowhere (suc i) p = p
  strstr-Outcome (a ∷ haystack) = elim (Bool-cases (needle_here (a ∷ haystack) (b ∷ needle))) [
    | inl e ↦
        let here = needle_here-true (a ∷ haystack) (b ∷ needle) e in
        let same : (a == b) ≡ true = let q = here.0 in ground arith in
        rw (e, same, StrstrOutcome) (here, λ j l. absurd (omega arith))
    | inr e ↦
        let none_here : ((a == b) && needle_here (a ∷ haystack) (b ∷ needle)) ≡ false =
          rw e (ground arith) in
        rw (none_here, StrstrOutcome)
          (shifted a haystack (strstr haystack (b ∷ needle))
            (needle_here-false (a ∷ haystack) (b ∷ needle) e) (strstr-Outcome haystack))
  ]
