-- ===== src/Irq/Register/Unlinked.antt =====
-- The lines with a handler taken off, as `irq_unregister_handler` of kern/irq.c leaves them.
use native.Mathlib.Decide.{ℕ_discrete}
use risc_v_workshop.Prelude.{
  ◌<◌, ℕ, ◌≤◌, ◌≡◌, ◌≢◌, ◌⊎◌, ◌∙◌, refl, sym, ap, subst, arith, Bool-cases, inl, inr, true, false,
  not, ◌&&◌, ltb, ◌==◌, Option, none, some, List, [], ◌∷◌, has, is_empty, Distinct, update,
  update_same, update_other, sub64, Rc, done, fail, einval, enoent,
}
use risc_v_workshop.Irq.{
  Handler, IrqLine, IrqCtrlr, Event, Answers, IrqInfo, nr_irqs, irq_ctrlr_ops_has_linemask,
  irq_ctrlr_ops_has_primask, irq_ctrlr_ops_is_valid, mask_line, mask_primask,
}
use risc_v_workshop.Irq.Register.{has_handler, remove_handler}
use risc_v_workshop.Irq.Register.Invariant.{IsUsed, IsConsistent}

-- A handler less on the line, which leaves the tree with its last one, and one less is counted at the
-- controller.
pub record Unregistered (before : IrqInfo) (irq handler : ℕ) (after : IrqInfo) : Type 0 where
  pub consistent : IsConsistent after
  pub had : has_handler handler (before.irqs irq).handlers ≡ true
  pub handlers : (after.irqs irq).handlers ≡ remove_handler handler (before.irqs irq).handlers
  pub other : (j : ℕ) → irq ≢ j → after.irqs j ≡ before.irqs j
  pub tree :
      (p : ℕ)
      → has p after.prio_que
        ≡ (has p before.prio_que && not (irq == p && is_empty (after.irqs irq).handlers))
  pub at : ℕ
  pub ctrlr : (before.irqs irq).ctrlr ≡ some at
  pub counted : (after.ctrlrs at).nr_handlers ≡ sub64 (before.ctrlrs at).nr_handlers 1

abbrev pub UnregisterOutcome : IrqInfo → ℕ → ℕ → Option (Rc (Unit {0}) × IrqInfo) → Type 0
UnregisterOutcome inf irq handler none =
    ((inf.irqs irq).ctrlr ≡ none)
    ⊎ ((c : ℕ) × ((inf.irqs irq).ctrlr ≡ some c)
        × ((inf.ctrlrs c).disable_irq ≡ false)
        × (has_handler handler (inf.irqs irq).handlers ≡ true)
        × (is_empty (remove_handler handler (inf.irqs irq).handlers) ≡ true))
UnregisterOutcome inf irq handler (some (fail rc, after)) =
    (after ≡ inf)
    × (((nr_irqs ≤ irq) × (rc ≡ einval))
        ⊎ ((has_handler handler (inf.irqs irq).handlers ≡ false) × (rc ≡ enoent)))
UnregisterOutcome inf irq handler (some (done _, after)) = Unregistered inf irq handler after

has-not_empty : (h : ℕ) (xs : List Handler) → has_handler h xs ≡ true → is_empty xs ≡ false
has-not_empty h [] e = absurd (ground arith)
has-not_empty h (x ∷ xs) e = refl

-- masking a line at its controller is only events
pub mask_line-events :
    (c i : ℕ) (inf : IrqInfo)
    → mask_line c i inf ≡ record inf { events = (mask_line c i inf).events }
unfolding mask_line
mask_line-events c i inf = elim (Bool-cases (irq_ctrlr_ops_has_linemask (inf.ctrlrs c))) [
  | inl e ↦ rw e refl
  | inr e ↦ rw e refl
]

pub mask_primask-events :
    (answers : Answers) (c : ℕ) (l : IrqLine) (inf : IrqInfo)
    → mask_primask answers c l inf ≡ record inf { events = (mask_primask answers c l inf).events }
unfolding mask_primask
mask_primask-events answers c l inf =
    elim (Bool-cases
      (irq_ctrlr_ops_has_primask (inf.ctrlrs c) && ltb (answers.priority inf.events c) l.prio)) [
        | inl e ↦ rw e refl
        | inr e ↦ rw e refl
      ]

module _ (answers : Answers) (inf : IrqInfo) (h : IsConsistent inf) (irq handler : ℕ)
    (below : irq < nr_irqs) (had : has_handler handler (inf.irqs irq).handlers ≡ true) where
  pub in_tree : has irq inf.prio_que ≡ true
  in_tree = elim (Bool-cases (has irq inf.prio_que)) [
    | inl m ↦ m
    | inr m ↦
        absurd
          (ground (arith, h.unused irq below m, has-not_empty handler (inf.irqs irq).handlers had))
  ]

  unfoldable pub used : IsUsed inf.ctrlrs irq (inf.irqs irq)
  used = h.used irq in_tree

  unfoldable pub rest : List Handler
  rest = remove_handler handler (inf.irqs irq).handlers

  unfoldable pub counted : ℕ → IrqCtrlr
  counted =
      update inf.ctrlrs used.at
        (record (inf.ctrlrs used.at) { nr_handlers = sub64 (inf.ctrlrs used.at).nr_handlers 1 })

  pub counted-valid :
      (d : ℕ) → irq_ctrlr_ops_is_valid (counted d) ≡ irq_ctrlr_ops_is_valid (inf.ctrlrs d)
  unfolding counted
  counted-valid d = elim (ℕ_discrete used.at d) [
    | yes q ↦
        subst (λ k. irq_ctrlr_ops_is_valid (counted k) ≡ irq_ctrlr_ops_is_valid (inf.ctrlrs k)) q
          (ap irq_ctrlr_ops_is_valid (update_same inf.ctrlrs used.at _))
    | no q ↦ ap irq_ctrlr_ops_is_valid (update_other inf.ctrlrs used.at d _ q)
  ]

  pub counted-disables : (d : ℕ) → (counted d).disable_irq ≡ (inf.ctrlrs d).disable_irq
  unfolding counted
  counted-disables d = elim (ℕ_discrete used.at d) [
    | yes q ↦
        subst (λ k. (counted k).disable_irq ≡ (inf.ctrlrs k).disable_irq) q
          (ap (λ t. t.disable_irq) (update_same inf.ctrlrs used.at _))
    | no q ↦ ap (λ t. t.disable_irq) (update_other inf.ctrlrs used.at d _ q)
  ]

  -- the line with the handlers that are left, and `refs` references
  unfoldable pub line_after : ℕ → IrqLine
  line_after refs = record (inf.irqs irq) { handlers = rest; refs = refs }

  recounted : (i : ℕ) (l : IrqLine) → IsUsed inf.ctrlrs i l → IsUsed counted i l
  recounted i l u = record {
    once = u.once;
    number = u.number;
    below = u.below;
    handled = u.handled;
    at = u.at;
    ctrlr = u.ctrlr;
    valid = counted-valid u.at ∙ u.valid;
  }

  line_after-IsUsed :
      (refs : ℕ) → is_empty rest ≡ false → refs ≡ 1 → IsUsed counted irq (line_after refs)
  unfolding line_after
  line_after-IsUsed refs more one = record {
    once = one;
    number = used.number;
    below = used.below;
    handled = more;
    at = used.at;
    ctrlr = used.ctrlr;
    valid = counted-valid used.at ∙ used.valid;
  }

  counted_here : (counted used.at).nr_handlers ≡ sub64 (inf.ctrlrs used.at).nr_handlers 1
  unfolding counted
  counted_here = ap (λ c. c.nr_handlers) (update_same inf.ctrlrs used.at _)

  unfoldable pub after : ℕ → List ℕ → List Event → IrqInfo
  after refs prio_que events = record inf {
    prio_que = prio_que;
    irqs = update inf.irqs irq (line_after refs);
    ctrlrs = counted;
    events = events;
  }

  pub after-Unregistered :
      (refs : ℕ) (prio_que : List ℕ) (events : List Event)
      → Distinct prio_que
      → ((p : ℕ) → has p prio_que ≡ (has p inf.prio_que && not (irq == p && is_empty rest)))
      → (is_empty rest ≡ false → refs ≡ 1)
      → Unregistered inf irq handler (after refs prio_que events)
  unfolding after line_after rest
  after-Unregistered refs prio_que events d t one =
      let here = update_same inf.irqs irq (line_after refs) in
      let other : (j : ℕ) → irq ≢ j → (after refs prio_que events).irqs j ≡ inf.irqs j =
        λ j q. update_other inf.irqs irq j (line_after refs) q in
      record {
        consistent = record {
          distinct = d;
          used = λ i m. elim (ℕ_discrete irq i) [
            | yes q ↦
                let more : is_empty rest ≡ false = ground (arith, t i, q, m) in
                subst (λ k. IsUsed counted k ((after refs prio_que events).irqs k)) q
                  (subst (IsUsed counted irq) (sym here) (line_after-IsUsed refs more (one more)))
            | no q ↦
                subst (IsUsed counted i) (sym (other i q))
                  (recounted i (inf.irqs i) (h.used i (ground (arith, t i, m))))
          ];
          unused = λ i b m. elim (ℕ_discrete irq i) [
            | yes q ↦
                let last : is_empty rest ≡ true =
                  ground (arith, t irq, in_tree, subst (λ k. has k prio_que ≡ false) (sym q) m) in
                subst (λ k. is_empty ((after refs prio_que events).irqs k).handlers ≡ true) q
                  (ap (λ l. is_empty l.handlers) here ∙ last)
            | no q ↦
                ap (λ l. is_empty l.handlers) (other i q) ∙ h.unused i b (ground (arith, t i, m))
          ];
          valid = λ c m. counted-valid c ∙ h.valid c m;
        };
        had = had;
        handlers = ap (λ l. l.handlers) here;
        other = other;
        tree = λ p.
            t p
            ∙ ap (λ b. has p inf.prio_que && not (irq == p && b))
                (sym (ap (λ l. is_empty l.handlers) here));
        at = used.at;
        ctrlr = used.ctrlr;
        counted = counted_here;
      }
