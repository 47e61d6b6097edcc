-- ===== src/Klib/Memory/Compare.antt =====
-- klib/memcmp.c compares and klib/memchr.c searches.
use native.Mathlib.Decide.{ℕ_discrete}
use risc_v_workshop.Prelude.{
  ℕ, zero, suc, ◌+◌, ◌-◌, ◌≤◌, ◌<◌, ◌≡◌, ◌≢◌, ◌⊎◌, ◌↔◌, inl, inr, refl, ap, ◌∙◌, arith, Bool-cases,
  ◌==◌, Option, none, some,
}
use risc_v_workshop.Klib.Memory.{memcmp, memchr, signed_char_difference}

-- The regions agree in their first `n` bytes.
abbrev pub Agree : (ℕ → ℕ) → ℕ → ℕ → ℕ → Type 0
Agree mem m1 m2 n = (j : ℕ) → j < n → mem (m1 + j) ≡ mem (m2 + j)

-- What a comparison says at the first two bytes that differ: negative results are those from 128 on.
pub record Differ (mem : ℕ → ℕ) (m1 m2 count result : ℕ) : Type 0 where
  pub at : ℕ
  pub below : at < count
  pub before : Agree mem m1 m2 at
  pub different : mem (m1 + at) ≢ mem (m2 + at)
  pub nonzero : result ≢ 0
  pub larger :
      mem (m2 + at) < mem (m1 + at) → ((result < 128) ↔ (mem (m1 + at) - mem (m2 + at) < 128))
  pub smaller :
      mem (m1 + at) < mem (m2 + at) → ((128 ≤ result) ↔ (mem (m2 + at) - mem (m1 + at) ≤ 128))

abbrev pub MemcmpOutcome : (ℕ → ℕ) → ℕ → ℕ → ℕ → ℕ → Type 0
MemcmpOutcome mem m1 m2 count result =
    ((result ≡ 0) × Agree mem m1 m2 count) ⊎ Differ mem m1 m2 count result

difference_zero : (a b : ℕ) → a < 256 → b < 256 → signed_char_difference a b ≡ 0 → a ≡ b
difference_zero a b p q h = omega arith

difference_larger :
    (a b : ℕ) → a < 256 → b < 256 → b < a → (signed_char_difference a b < 128) ↔ (a - b < 128)
difference_larger a b p q h = ((λ g. omega arith), (λ g. omega arith))

difference_smaller :
    (a b : ℕ) → a < 256 → b < 256 → a < b → (128 ≤ signed_char_difference a b) ↔ (b - a ≤ 128)
difference_smaller a b p q h = ((λ g. omega arith), (λ g. omega arith))

module _ (mem : ℕ → ℕ) (bytes : (p : ℕ) → mem p < 256) where
  one_more :
      (m1 m2 n : ℕ) → mem m1 ≡ mem m2 → Agree mem (m1 + 1) (m2 + 1) n → Agree mem m1 m2 (suc n)
  one_more m1 m2 n e h zero b = ap mem (omega arith) ∙ e ∙ ap mem (omega arith)
  one_more m1 m2 n e h (suc j) b = ap mem (omega arith) ∙ h j (omega arith) ∙ ap mem (omega arith)

  Differ-first :
      (count m1 m2 : ℕ)
      → signed_char_difference (mem m1) (mem m2) ≢ 0
      → Differ mem m1 m2 (suc count) (signed_char_difference (mem m1) (mem m2))
  Differ-first count m1 m2 d =
      let a : m1 + 0 ≡ m1 = omega arith in
      let b : m2 + 0 ≡ m2 = omega arith in
      let p = bytes m1 in
      let q = bytes m2 in
      record {
        at = 0;
        below = omega arith;
        before = λ j h. absurd (omega arith);
        different = rw (a, b) (λ e. d (omega arith));
        nonzero = d;
        larger = rw (a, b) (difference_larger (mem m1) (mem m2) p q);
        smaller = rw (a, b) (difference_smaller (mem m1) (mem m2) p q);
      }

  -- Comparing two regions gives 0 exactly if all their bytes agree. Else the sign of the result comes
  -- from the first two bytes that differ, and it is right for a larger first byte exactly if that byte
  -- exceeds the other by less than 128, and for a smaller one exactly if it falls short by at most 128.
  pub memcmp-Outcome : (count m1 m2 : ℕ) → MemcmpOutcome mem m1 m2 count (memcmp m1 m2 count mem)
  unfolding memcmp
  memcmp-Outcome zero m1 m2 = inl (refl, λ j h. absurd (omega arith))
  memcmp-Outcome (suc count) m1 m2 =
      elim (Bool-cases (signed_char_difference (mem m1) (mem m2) == 0)) [
        | inl e ↦
            let same = difference_zero (mem m1) (mem m2) (bytes m1) (bytes m2) (ground arith) in
            rw (e, MemcmpOutcome) (later same (memcmp-Outcome count (m1 + 1) (m2 + 1)))
        | inr e ↦ rw (e, MemcmpOutcome) (inr (Differ-first count m1 m2 (ground arith)))
      ]
    where
      later :
          mem m1 ≡ mem m2
          → MemcmpOutcome mem (m1 + 1) (m2 + 1) count (memcmp (m1 + 1) (m2 + 1) count mem)
          → MemcmpOutcome mem m1 m2 (suc count) (memcmp (m1 + 1) (m2 + 1) count mem)
      later same (inl (z, h)) = inl (z, one_more m1 m2 count same h)
      later same (inr d) =
          let a : m1 + 1 + d.at ≡ m1 + suc d.at = omega arith in
          let b : m2 + 1 + d.at ≡ m2 + suc d.at = omega arith in
          inr (record {
            at = suc d.at;
            below = omega (arith, d.below);
            before = one_more m1 m2 d.at same d.before;
            different = rw (a, b) at d.different;
            nonzero = d.nonzero;
            larger = rw (a, b) at d.larger;
            smaller = rw (a, b) at d.smaller;
          })

-- What a search for the byte `c` in `count` bytes from `s` on says.
abbrev pub MemchrOutcome : (ℕ → ℕ) → ℕ → ℕ → ℕ → Option ℕ → Type 0
MemchrOutcome mem s c count none = (p : ℕ) → s ≤ p → p < s + count → mem p ≢ c
MemchrOutcome mem s c count (some a) =
    (s ≤ a) × (a < s + count) × (mem a ≡ c) × ((p : ℕ) → s ≤ p → p < a → mem p ≢ c)

-- Searching for a byte gives the first address in the region that holds it, and none exactly if none
-- does.
pub memchr-Outcome :
    (mem : ℕ → ℕ) (c count s : ℕ) → MemchrOutcome mem s c count (memchr s c count mem)
unfolding memchr
memchr-Outcome mem c zero s = λ p a b. absurd (omega arith)
memchr-Outcome mem c (suc count) s = elim (Bool-cases (mem s == c)) [
  | inl e ↦
      rw (e, MemchrOutcome) (omega arith, omega arith, ground arith, λ p a b. absurd (omega arith))
  | inr e ↦
      rw (e, MemchrOutcome)
        (go (memchr (s + 1) c count mem) (ground arith) (memchr-Outcome mem c count (s + 1)))
]
  where
    below : mem s ≢ c → (p : ℕ) → s ≤ p → (s + 1 ≤ p → mem p ≢ c) → mem p ≢ c
    below d p a h = elim (ℕ_discrete s p) [ yes e ↦ λ m. d (ap mem e ∙ m) | no n ↦ h (omega arith) ]

    go :
        (o : Option ℕ)
        → mem s ≢ c
        → MemchrOutcome mem (s + 1) c count o
        → MemchrOutcome mem s c (suc count) o
    go none d h = λ p a b. below d p a (λ a'. h p a' (omega arith))
    go (some x) d h =
        (omega (arith, h.0), omega (arith, h.1), h.2, λ p a b. below d p a (λ l. h.3 p l b))
