-- ===== src/Irq/Register/Ranges.antt =====
-- The test of `irq_register_ctrlr` of kern/irq.c for interrupt numbers that two controllers share.
use risc_v_workshop.Prelude.{
  ℕ, ◌<◌, ◌≤◌, ◌≡◌, ◌≢◌, ◌⊎◌, ◌↔◌, arith, Bool-cases, inl, inr, true, leb,
}
use risc_v_workshop.Irq.{IrqCtrlr}
use risc_v_workshop.Irq.Register.{overlaps}

-- a number that both have, where `max_irq` is the number behind the last one
abbrev pub Shares : IrqCtrlr → IrqCtrlr → Type 0
Shares ctrlr found =
    (irq : ℕ) × (ctrlr.min_irq ≤ irq)
    × (irq < ctrlr.max_irq)
    × (found.min_irq ≤ irq)
    × (irq < found.max_irq)

module _ (ctrlr found : IrqCtrlr) (some_here : ctrlr.min_irq < ctrlr.max_irq)
    (some_there : found.min_irq < found.max_irq) where
  shares : ctrlr.min_irq < found.max_irq → found.min_irq < ctrlr.max_irq → Shares ctrlr found
  shares a b = elim (Bool-cases (leb ctrlr.min_irq found.min_irq)) [
    | inl e ↦ (found.min_irq, ground arith, b, omega arith, some_there)
    | inr e ↦ (ctrlr.min_irq, omega arith, some_here, ground arith, a)
  ]

  overlaps-Shares :
      overlaps ctrlr found ≡ true
      → Shares ctrlr found × ((ctrlr.min_irq ≤ found.min_irq) ⊎ (ctrlr.max_irq ≢ found.max_irq))
  unfolding overlaps
  overlaps-Shares e = (
    shares (ground arith) (ground arith),
    elim (Bool-cases (leb ctrlr.min_irq found.min_irq)) [
      | inl a ↦ inl (ground arith)
      | inr a ↦ inr (λ q. ground arith)
    ],
  )

  shares-overlaps :
      (ctrlr.min_irq < found.max_irq)
      → (found.min_irq < ctrlr.max_irq)
      → (ctrlr.min_irq ≤ found.min_irq) ⊎ (ctrlr.max_irq ≢ found.max_irq)
      → overlaps ctrlr found ≡ true
  unfolding overlaps
  shares-overlaps a b (inl c) = ground arith
  shares-overlaps a b (inr c) = ground arith

  -- The test of two controllers that have numbers finds exactly those that share a number, except for
  -- two that end at the same number where the one to be registered starts behind the other.
  pub overlaps_iff :
      (overlaps ctrlr found ≡ true)
      ↔ (Shares ctrlr found × ((ctrlr.min_irq ≤ found.min_irq) ⊎ (ctrlr.max_irq ≢ found.max_irq)))
  overlaps_iff = (
    overlaps-Shares,
    λ (s, kind). shares-overlaps (omega (arith, s.1, s.4)) (omega (arith, s.2, s.3)) kind,
  )
