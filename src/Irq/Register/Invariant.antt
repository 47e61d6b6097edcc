-- ===== src/Irq/Register/Invariant.antt =====
-- What holds of the interrupt lines and the tree between calls.
use risc_v_workshop.Prelude.{
  ℕ, ◌<◌, ◌≡◌, true, false, ◌||◌, ◌==◌, none, some, List, is_empty, has, Distinct,
}
use risc_v_workshop.Irq.{
  IrqLine, IrqCtrlr, LinePlace, place_same, Answers, IrqInfo, nr_irqs, irq_ctrlr_ops_is_valid,
}

-- a line in the tree
pub record IsUsed (ctrlrs : ℕ → IrqCtrlr) (i : ℕ) (irqline : IrqLine) : Type 0 where
  pub once : irqline.refs ≡ 1
  pub number : irqline.irq ≡ i
  pub below : i < nr_irqs
  pub handled : is_empty irqline.handlers ≡ false
  pub at : ℕ
  pub ctrlr : irqline.ctrlr ≡ some at
  pub valid : irq_ctrlr_ops_is_valid (ctrlrs at) ≡ true

pub record IsConsistent (inf : IrqInfo) : Type 0 where
  pub distinct : Distinct inf.prio_que
  pub used : (i : ℕ) → has i inf.prio_que ≡ true → IsUsed inf.ctrlrs i (inf.irqs i)
  pub unused :
      (i : ℕ) → i < nr_irqs → has i inf.prio_que ≡ false → is_empty (inf.irqs i).handlers ≡ true
  pub valid : (c : ℕ) → has c inf.ctrlr_que ≡ true → irq_ctrlr_ops_is_valid (inf.ctrlrs c) ≡ true

-- What RB_INSERT does: it finds a line that compares equal, or adds this one.
pub record Inserts (answers : Answers) : Type 0 where
  pub found :
      (cmp : ℕ → ℕ → LinePlace) (i : ℕ) (lines : List ℕ)
      → answers.insert cmp i lines ≡ none
      → (e : ℕ) × (has e lines ≡ true) × (cmp i e ≡ place_same)
  pub added :
      (cmp : ℕ → ℕ → LinePlace) (i : ℕ) (lines tree : List ℕ)
      → answers.insert cmp i lines ≡ some tree
      → (p : ℕ) → has p tree ≡ (has p lines || i == p)
  pub distinct :
      (cmp : ℕ → ℕ → LinePlace) (i : ℕ) (lines tree : List ℕ)
      → answers.insert cmp i lines ≡ some tree
      → has i lines ≡ false
      → Distinct lines
      → Distinct tree
