-- ===== src/Irq/Register/Search.antt =====
-- The search of kern/irq.c for the controller of an interrupt number.
use native.Mathlib.Decide.{ℕ_discrete}
use risc_v_workshop.Prelude.{
  ℕ, ◌<◌, ◌≤◌, ◌≡◌, ◌⊎◌, subst, arith, Bool-cases, inl, inr, true, ◌&&◌, ltb, leb, Option, none,
  some, List, [], ◌∷◌, has, ◌>>=◌,
}
use risc_v_workshop.Irq.{
  IrqCtrlr, LinePlace, place_before, place_same, place_after, irq_ctrlr_cmp_by_irq, find_ctrlr,
}

-- What the search gives: it stops where a controller has the number as its `max_irq`, and otherwise finds
-- none, or one in the queue that has the number in its range.
abbrev pub Found : (ℕ → IrqCtrlr) → ℕ → List ℕ → Option (Option ℕ) → Type 0
Found ctrlrs irq que none = (c : ℕ) × (has c que ≡ true) × ((ctrlrs c).max_irq ≡ irq)
Found ctrlrs irq que (some none) =
    (c : ℕ) → has c que ≡ true → (irq < (ctrlrs c).min_irq) ⊎ ((ctrlrs c).max_irq < irq)
Found ctrlrs irq que (some (some c)) =
    (has c que ≡ true) × ((ctrlrs c).min_irq ≤ irq) × (irq < (ctrlrs c).max_irq)

abbrev Compared : ℕ → IrqCtrlr → Option LinePlace → Type 0
Compared irq ent none = ent.max_irq ≡ irq
Compared irq ent (some place_before) = irq < ent.min_irq
Compared irq ent (some place_same) = (ent.min_irq ≤ irq) × (irq < ent.max_irq)
Compared irq ent (some place_after) = ent.max_irq < irq

irq_ctrlr_cmp_by_irq-Compared :
    (irq : ℕ) (ent : IrqCtrlr) → Compared irq ent (irq_ctrlr_cmp_by_irq irq ent)
unfolding irq_ctrlr_cmp_by_irq
irq_ctrlr_cmp_by_irq-Compared irq ent = elim (Bool-cases (ltb irq ent.min_irq)) [
  | inl a ↦ rw a (ground arith)
  | inr a ↦ rw a (elim (Bool-cases (ltb ent.max_irq irq)) [
    | inl b ↦ rw b (ground arith)
    | inr b ↦ rw b (elim (Bool-cases (leb ent.min_irq irq && ltb irq ent.max_irq)) [
      | inl c ↦ rw c (ground arith, ground arith)
      | inr c ↦ rw c (ground arith)
    ])
  ])
]

module _ (ctrlrs : ℕ → IrqCtrlr) (irq c : ℕ) (rest : List ℕ) where
  further : Option (Option ℕ) → Option LinePlace → Option (Option ℕ)
  further r p =
      p >>= λ place. elim place [ place_before ↦ r | place_same ↦ some (some c) | place_after ↦ r ]

  skip :
      (r : Option (Option ℕ))
      → (irq < (ctrlrs c).min_irq) ⊎ ((ctrlrs c).max_irq < irq)
      → Found ctrlrs irq rest r
      → Found ctrlrs irq (c ∷ rest) r
  unfolding has
  skip none out (d, m, a) = (d, ground (arith, m), a)
  skip (some none) out f = λ d m. elim (ℕ_discrete c d) [
    | yes q ↦ subst (λ k. (irq < (ctrlrs k).min_irq) ⊎ ((ctrlrs k).max_irq < irq)) q out
    | no q ↦ f d (ground arith)
  ]
  skip (some (some d)) out (m, a, b) = (ground (arith, m), a, b)

  further-Found :
      (r : Option (Option ℕ)) (p : Option LinePlace)
      → Found ctrlrs irq rest r
      → Compared irq (ctrlrs c) p
      → Found ctrlrs irq (c ∷ rest) (further r p)
  unfolding further has
  further-Found r none f h = (c, ground arith, h)
  further-Found r (some place_before) f h = skip r (inl h) f
  further-Found r (some place_same) f h = (ground arith, h.0, h.1)
  further-Found r (some place_after) f h = skip r (inr h) f

pub find_ctrlr-Found :
    (ctrlrs : ℕ → IrqCtrlr) (irq : ℕ) (que : List ℕ)
    → Found ctrlrs irq que (find_ctrlr ctrlrs irq que)
unfolding find_ctrlr has further
find_ctrlr-Found ctrlrs irq [] = λ c m. absurd (ground arith)
find_ctrlr-Found ctrlrs irq (c ∷ rest) =
    further-Found ctrlrs irq c rest _ _ (find_ctrlr-Found ctrlrs irq rest)
      (irq_ctrlr_cmp_by_irq-Compared irq (ctrlrs c))
