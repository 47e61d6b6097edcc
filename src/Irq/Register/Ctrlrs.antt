-- ===== src/Irq/Register/Ctrlrs.antt =====
-- Registering controllers and giving them up, kern/irq.c, keeps the lines consistent.
use native.Mathlib.Decide.{ℕ_discrete}
use risc_v_workshop.Prelude.{
  ℕ, ◌≡◌, ◌∙◌, ap, subst, arith, Bool-cases, inl, inr, true, ◌==◌, Option, none, some, List, [],
  ◌∷◌, ◌++◌, has, has-append, remove, update, update_same, update_other, Errno, Ensures,
}
use risc_v_workshop.Irq.{Event, IrqCtrlr, Answers, IrqInfo, irq_ctrlr_ops_is_valid}
use risc_v_workshop.Irq.Register.{
  overlaps_any, initialized_ctrlr, irq_register_ctrlr, irq_unregister_ctrlr, is_positive,
}
use risc_v_workshop.Irq.Register.Invariant.{IsUsed, IsConsistent}

pub events-IsConsistent :
    (s : IrqInfo) (events : List Event)
    → IsConsistent s
    → IsConsistent (record s { events = events })
events-IsConsistent s events h = record {
  distinct = h.distinct;
  used = h.used;
  unused = h.unused;
  valid = h.valid;
}

has_finalize : (ctrlr : IrqCtrlr) → irq_ctrlr_ops_is_valid ctrlr ≡ true → ctrlr.finalize ≡ true
has_finalize ctrlr v = ground (arith, v)

has_of_remove : (c d : ℕ) (xs : List ℕ) → has d (remove c xs) ≡ true → has d xs ≡ true
unfolding has remove
has_of_remove c d [] m = m
has_of_remove c d (x ∷ xs) m = elim (Bool-cases (c == x)) [
  | inl e ↦ ground (arith, m, e)
  | inr e ↦ ground (arith, m, e, has_of_remove c d xs)
]

-- The count of handlers says nothing of the operations of a controller.
module _ (s : IrqInfo) (h : IsConsistent s) (c : ℕ) where
  reset : ℕ → IrqCtrlr
  reset = update s.ctrlrs c (record (s.ctrlrs c) { nr_handlers = 0 })

  reset-valid : (d : ℕ) → irq_ctrlr_ops_is_valid (reset d) ≡ irq_ctrlr_ops_is_valid (s.ctrlrs d)
  unfolding reset
  reset-valid d = elim (ℕ_discrete c d) [
    | yes q ↦
        subst (λ k. irq_ctrlr_ops_is_valid (reset k) ≡ irq_ctrlr_ops_is_valid (s.ctrlrs k)) q
          (ap irq_ctrlr_ops_is_valid (update_same s.ctrlrs c _))
    | no q ↦ ap irq_ctrlr_ops_is_valid (update_other s.ctrlrs c d _ q)
  ]

  reset-IsUsed : (i : ℕ) → IsUsed s.ctrlrs i (s.irqs i) → IsUsed reset i (s.irqs i)
  reset-IsUsed i u = record {
    once = u.once;
    number = u.number;
    below = u.below;
    handled = u.handled;
    at = u.at;
    ctrlr = u.ctrlr;
    valid = reset-valid u.at ∙ u.valid;
  }

  added-IsConsistent :
      (events : List Event)
      → irq_ctrlr_ops_is_valid (s.ctrlrs c) ≡ true
      → IsConsistent
          (record s { ctrlrs = reset; ctrlr_que = s.ctrlr_que ++ c ∷ []; events = events })
  unfolding has
  added-IsConsistent events valid = record {
    distinct = h.distinct;
    used = λ i m. reset-IsUsed i (h.used i m);
    unused = h.unused;
    valid = λ d m. reset-valid d ∙ elim (ℕ_discrete c d) [
      | yes q ↦ subst (λ k. irq_ctrlr_ops_is_valid (s.ctrlrs k) ≡ true) q valid
      | no q ↦ h.valid d (ground (arith, has-append d s.ctrlr_que (c ∷ [])))
    ];
  }

  initialized-IsConsistent :
      (r : Option Errno)
      → irq_ctrlr_ops_is_valid (s.ctrlrs c) ≡ true
      → IsConsistent (initialized_ctrlr c s r).1
  unfolding initialized_ctrlr reset
  initialized-IsConsistent (some rc) valid = events-IsConsistent s _ h
  initialized-IsConsistent none valid = added-IsConsistent _ valid

  pub irq_register_ctrlr-IsConsistent :
      (answers : Answers) → IsConsistent (irq_register_ctrlr answers c s).1
  unfolding irq_register_ctrlr
  irq_register_ctrlr-IsConsistent answers =
      elim (Bool-cases (irq_ctrlr_ops_is_valid (s.ctrlrs c))) [
        | inl v ↦ elim (Bool-cases (has c s.ctrlr_que)) [
          | inl q ↦ rw (v, q) h
          | inr q ↦ elim (Bool-cases (overlaps_any (s.ctrlrs c) s.ctrlrs s.ctrlr_que)) [
            | inl o ↦ rw (v, q, o) h
            | inr o ↦ rw (v, q, o) (initialized-IsConsistent (answers.initialization s.events c) v)
          ]
        ]
        | inr v ↦ rw v h
      ]

  removed-IsConsistent :
      (events : List Event)
      → IsConsistent (record s { ctrlr_que = remove c s.ctrlr_que; events = events })
  removed-IsConsistent events = record {
    distinct = h.distinct;
    used = h.used;
    unused = h.unused;
    valid = λ d m. h.valid d (has_of_remove c d s.ctrlr_que m);
  }

  pub irq_unregister_ctrlr-IsConsistent : Ensures IsConsistent (irq_unregister_ctrlr c s)
  unfolding irq_unregister_ctrlr
  irq_unregister_ctrlr-IsConsistent = elim (Bool-cases (is_positive (s.ctrlrs c).nr_handlers)) [
    | inl p ↦ rw p h
    | inr p ↦ elim (Bool-cases (has c s.ctrlr_que)) [
      | inl q ↦
          let there : (s.ctrlrs c).finalize ≡ true = has_finalize (s.ctrlrs c) (h.valid c q) in
          rw (p, q, there) (removed-IsConsistent _)
      | inr q ↦ rw (p, q) h
    ]
  ]
