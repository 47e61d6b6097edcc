-- ===== src/Klib/Atomic/Unless.antt =====
-- The loop of klib/atomic.c that adds unless the counter has a given value, against other processors.
use risc_v_workshop.Prelude.{
  ℕ, ◌≡◌, ◌≢◌, inl, inr, refl, arith, Bool-cases, true, ◌==◌, Option, none, some, List, [], ◌∷◌,
  ◌++◌, has, Ensures, Ensures-map,
}
use risc_v_workshop.Klib.Atomic.{
  unless_loop, atomic_try_cmpxchg_fetch, atomic_cmpxchg_fetch, atomic_add_fetch_unless,
  refcnt_inc_if_valid, add32,
}

-- The result of a run: nothing stored, and the value is the unexpected one; or the value was found by
-- the attempt that replaced it.
abbrev pub UnlessOutcome : (ℕ → ℕ) → ℕ → List ℕ → ℕ × Option ℕ → Type 0
UnlessOutcome change unexpected seen (value, none) = value ≡ unexpected
UnlessOutcome change unexpected seen (value, some stored) =
    (value ≢ unexpected) × (has value seen ≡ true) × (stored ≡ change value)

module _ (change : ℕ → ℕ) (unexpected : ℕ) where
  longer :
      (v : ℕ) (seen : List ℕ) (o : ℕ × Option ℕ)
      → UnlessOutcome change unexpected seen o
      → UnlessOutcome change unexpected (v ∷ seen) o
  unfolding has
  longer v seen (value, none) h = h
  longer v seen (value, some stored) h = (h.0, ground (arith, h.1), h.2)

  -- one attempt
  unless_step :
      (cur v : ℕ) (seen : List ℕ)
      → (v ≢ cur
          → Ensures (UnlessOutcome change unexpected seen) (unless_loop change unexpected v seen))
      → Ensures
          (UnlessOutcome change unexpected (v ∷ seen))
          (unless_loop change unexpected cur (v ∷ seen))
  unfolding unless_loop atomic_try_cmpxchg_fetch atomic_cmpxchg_fetch has
  unless_step cur v seen again = elim (Bool-cases (cur == unexpected)) [
    | inl e ↦ rw (e, unless_loop) (ground arith)
    | inr e ↦ elim (Bool-cases (v == cur)) [
      | inl s ↦ rw (e, s, unless_loop) (ground arith, ground arith, refl)
      | inr n ↦
          rw (e, n, unless_loop)
            (Ensures-map _ _ (unless_loop change unexpected v seen) (longer v seen)
              (again (ground arith)))
    ]
  ]

  -- the value held is what the next attempt finds
  unless_held :
      (v : ℕ) (seen : List ℕ)
      → Ensures
          (UnlessOutcome change unexpected (v ∷ seen))
          (unless_loop change unexpected v (v ∷ seen))
  unless_held v seen = unless_step v v seen (λ n. absurd (n refl))

  unless_quiet :
      (front : List ℕ) (cur v : ℕ) (back : List ℕ)
      → Ensures
          (UnlessOutcome change unexpected (front ++ v ∷ v ∷ back))
          (unless_loop change unexpected cur (front ++ v ∷ v ∷ back))
  unless_quiet [] cur v back = unless_step cur v (v ∷ back) (λ _. unless_held v back)
  unless_quiet (w ∷ front) cur v back = unless_step cur w _ (λ _. unless_quiet front w v back)

-- The loop of `refcnt_inc_if_valid` ends as soon as two attempts in a row find the same word, whatever
-- the ones before found. Then either it returns 0 and has stored nothing, or it returns a value other
-- than 0 that one of its attempts found there, and has replaced it by that value plus one.
pub refcnt_inc_if_valid-Outcome :
    (first : ℕ) (front : List ℕ) (v : ℕ) (back : List ℕ)
    → Ensures
        (UnlessOutcome (λ cur. add32 cur 1) 0 (front ++ v ∷ v ∷ back))
        (refcnt_inc_if_valid first (front ++ v ∷ v ∷ back))
unfolding refcnt_inc_if_valid atomic_add_fetch_unless
refcnt_inc_if_valid-Outcome first front v back =
    unless_quiet (λ cur. add32 cur 1) 0 front first v back
