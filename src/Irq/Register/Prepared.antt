-- ===== src/Irq/Register/Prepared.antt =====
-- `irq_register_handler` of kern/irq.c up to where the handler is added.
use native.Mathlib.Decide.{ℕ_discrete}
use risc_v_workshop.Prelude.{
  ℕ, ◌<◌, ◌≡◌, ◌≢◌, ◌⊎◌, ◌∙◌, refl, sym, subst, arith, Bool-cases, inl, inr, true, false, not, ◌||◌,
  ◌==◌, Option, none, some, List, has, has-remove, remove, is_empty, Distinct, Distinct-remove,
  update_same, update_other, Rc, done, fail, Errno, ◌>>=◌,
}
use risc_v_workshop.Irq.{
  IrqLine, place_same, Answers, IrqInfo, nr_irqs, irq_ctrlr_ops_is_valid, is_exclusive, trigger,
  irq_line_cmp,
}
use risc_v_workshop.Irq.Register.{refused, configured_line, init_line, prepare_line}
use risc_v_workshop.Irq.Register.Invariant.{IsConsistent, Inserts}

-- The code before the handler is added leaves the line with its controller, and with a reference.
pub record Prepared (inf : IrqInfo) (irq attr prio c : ℕ) (mid : IrqInfo) : Type 0 where
  pub distinct : Distinct mid.prio_que
  pub tree : (p : ℕ) → has p mid.prio_que ≡ (has p inf.prio_que || irq == p)
  pub line : IrqLine
  pub here : mid.irqs irq ≡ line
  pub other : (j : ℕ) → irq ≢ j → mid.irqs j ≡ inf.irqs j
  pub ctrlrs : mid.ctrlrs ≡ inf.ctrlrs
  pub ctrlr_que : mid.ctrlr_que ≡ inf.ctrlr_que
  pub handlers : line.handlers ≡ (inf.irqs irq).handlers
  pub once : line.refs ≡ 1
  pub number : line.irq ≡ irq
  pub priority : line.prio ≡ prio
  pub same_trigger : trigger line.attr ≡ trigger attr
  pub shared :
      is_empty (inf.irqs irq).handlers ≡ false
      → (is_exclusive line.attr || is_exclusive attr) ≡ false
  pub at : ℕ
  pub ctrlr : line.ctrlr ≡ some at
  pub valid : irq_ctrlr_ops_is_valid (inf.ctrlrs at) ≡ true
  pub old_at : is_empty (inf.irqs irq).handlers ≡ false → (inf.irqs irq).ctrlr ≡ some at
  pub new_at : is_empty (inf.irqs irq).handlers ≡ true → at ≡ c

-- nothing but events, and the shape of the tree
pub record Unchanged (before after : IrqInfo) : Type 0 where
  pub consistent : IsConsistent after
  pub irqs : after.irqs ≡ before.irqs
  pub ctrlrs : after.ctrlrs ≡ before.ctrlrs
  pub ctrlr_que : after.ctrlr_que ≡ before.ctrlr_que
  pub tree : (p : ℕ) → has p after.prio_que ≡ has p before.prio_que

-- The line has handlers that this one does not go with, or none and the controller refuses it.
abbrev pub LineRefuses : Answers → IrqInfo → ℕ → ℕ → ℕ → ℕ → Errno → Type 0
LineRefuses answers inf irq attr prio c rc =
    ((is_empty (inf.irqs irq).handlers ≡ false) × (refused (inf.irqs irq) attr prio ≡ some rc))
    ⊎ ((is_empty (inf.irqs irq).handlers ≡ true)
        × (answers.config inf.events c irq attr prio ≡ some rc))

abbrev pub PreparedOutcome :
    Answers → IrqInfo → ℕ → ℕ → ℕ → ℕ → Option (Rc (Unit {0}) × IrqInfo) → Type 0
PreparedOutcome answers inf irq attr prio c none =
    (is_empty (inf.irqs irq).handlers ≡ true)
    × (e : ℕ) × (has e inf.prio_que ≡ true)
    × ((inf.irqs e).prio ≡ (inf.irqs irq).prio)
PreparedOutcome answers inf irq attr prio c (some (fail rc, after)) =
    Unchanged inf after × LineRefuses answers inf irq attr prio c rc
PreparedOutcome answers inf irq attr prio c (some (done _, mid)) = Prepared inf irq attr prio c mid

same_prio : (key ent : IrqLine) → irq_line_cmp key ent ≡ place_same → ent.prio ≡ key.prio
unfolding irq_line_cmp
same_prio key ent e = ground (arith, e)

refused-Allowed :
    (irqline : IrqLine) (attr prio : ℕ)
    → refused irqline attr prio ≡ none
    → (trigger irqline.attr ≡ trigger attr)
      × (irqline.prio ≡ prio)
      × ((is_exclusive irqline.attr || is_exclusive attr) ≡ false)
unfolding refused
refused-Allowed irqline attr prio q =
    elim (Bool-cases (not (trigger irqline.attr == trigger attr) || not (irqline.prio == prio))) [
      | inl a ↦ absurd (ground (arith, q, a))
      | inr a ↦ (ground arith, ground arith, ground (arith, q, a))
    ]

module _ (answers : Answers) (contract : Inserts answers) (inf : IrqInfo) (h : IsConsistent inf)
    (irq attr prio c : ℕ) (below : irq < nr_irqs)
    (valid : irq_ctrlr_ops_is_valid (inf.ctrlrs c) ≡ true) where
  not_in_tree : is_empty (inf.irqs irq).handlers ≡ true → has irq inf.prio_que ≡ false
  not_in_tree e = elim (Bool-cases (has irq inf.prio_que)) [
    | inl m ↦ absurd (ground (arith, (h.used irq m).handled, e))
    | inr m ↦ m
  ]

  configured :
      (tree : List ℕ) (rc : Option Errno)
      → is_empty (inf.irqs irq).handlers ≡ true
      → ((p : ℕ) → has p tree ≡ (has p inf.prio_que || irq == p))
      → Distinct tree
      → answers.config inf.events c irq attr prio ≡ rc
      → PreparedOutcome answers inf irq attr prio c
          (some (configured_line c irq attr prio inf tree rc))
  unfolding configured_line
  configured tree (some rc) e t d q =
      let same : (p : ℕ) → has p (remove irq tree) ≡ has p inf.prio_que =
        λ p. ground (arith, has-remove p irq tree d, t p, not_in_tree e) in
      (
        record {
          consistent = record {
            distinct = Distinct-remove irq tree d;
            used = λ i m. h.used i (sym (same i) ∙ m);
            unused = λ i b m. h.unused i b (sym (same i) ∙ m);
            valid = h.valid;
          };
          irqs = refl;
          ctrlrs = refl;
          ctrlr_que = refl;
          tree = same;
        },
        inr (e, q),
      )
  configured tree none e t d q = record {
    distinct = d;
    tree = t;
    line = record (inf.irqs irq) { irq = irq; attr = attr; prio = prio; ctrlr = some c; refs = 1 };
    here = update_same inf.irqs irq _;
    other = λ j q. update_other inf.irqs irq j _ q;
    ctrlrs = refl;
    ctrlr_que = refl;
    handlers = refl;
    once = refl;
    number = refl;
    priority = refl;
    same_trigger = refl;
    shared = λ f. absurd (ground (arith, e, f));
    at = c;
    ctrlr = refl;
    valid = valid;
    old_at = λ f. absurd (ground (arith, e, f));
    new_at = λ f. refl;
  }

  inserted :
      (r : Option (List ℕ))
      → answers.insert (λ i j. irq_line_cmp (inf.irqs i) (inf.irqs j)) irq inf.prio_que ≡ r
      → is_empty (inf.irqs irq).handlers ≡ true
      → PreparedOutcome answers inf irq attr prio c (
          r >>= λ tree.
          some
            (configured_line c irq attr prio inf tree (answers.config inf.events c irq attr prio)))
  inserted none q e =
      let f = contract.found _ irq inf.prio_que q in (e, f.0, f.1, same_prio _ _ f.2)
  inserted (some tree) q e =
      configured tree _ e (contract.added _ irq inf.prio_que tree q)
        (contract.distinct _ irq inf.prio_que tree q (not_in_tree e) h.distinct) refl

  -- a line that has handlers
  in_use : is_empty (inf.irqs irq).handlers ≡ false → has irq inf.prio_que ≡ true
  in_use e = elim (Bool-cases (has irq inf.prio_que)) [
    | inl m ↦ m
    | inr m ↦ absurd (ground (arith, h.unused irq below m, e))
  ]

  shared-Prepared :
      (r : Option Errno)
      → refused (inf.irqs irq) attr prio ≡ r
      → is_empty (inf.irqs irq).handlers ≡ false
      → PreparedOutcome answers inf irq attr prio c
          (elim r [ none ↦ some (done tt, inf) | some rc ↦ some (fail rc, inf) ])
  unfolding refused
  shared-Prepared (some rc) q e = (
    record { consistent = h; irqs = refl; ctrlrs = refl; ctrlr_que = refl; tree = λ p. refl },
    inl (e, q),
  )
  shared-Prepared none q e =
      let u = h.used irq (in_use e) in
      let allowed = refused-Allowed (inf.irqs irq) attr prio q in
      record {
        distinct = h.distinct;
        tree = λ p. elim (ℕ_discrete irq p) [
          | yes same ↦
              subst (λ k. has k inf.prio_que ≡ (has k inf.prio_que || irq == k)) same
                (ground (arith, in_use e))
          | no d ↦ ground arith
        ];
        line = inf.irqs irq;
        here = refl;
        other = λ j d. refl;
        ctrlrs = refl;
        ctrlr_que = refl;
        handlers = refl;
        once = u.once;
        number = u.number;
        priority = allowed.1;
        same_trigger = allowed.0;
        shared = λ f. allowed.2;
        at = u.at;
        ctrlr = u.ctrlr;
        valid = u.valid;
        old_at = λ f. u.ctrlr;
        new_at = λ f. absurd (ground (arith, e, f));
      }

  pub prepare_line-PreparedOutcome :
      PreparedOutcome answers inf irq attr prio c (prepare_line answers c irq attr prio inf)
  unfolding prepare_line init_line
  prepare_line-PreparedOutcome = elim (Bool-cases (is_empty (inf.irqs irq).handlers)) [
    | inl e ↦ rw e (inserted _ refl e)
    | inr e ↦ rw e (shared-Prepared _ refl e)
  ]
