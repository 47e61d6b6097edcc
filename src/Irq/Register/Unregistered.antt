-- ===== src/Irq/Register/Unregistered.antt =====
-- What `irq_unregister_handler` of kern/irq.c does.
use risc_v_workshop.Prelude.{
  ◌<◌, ℕ, ◌-◌, ◌≡◌, ◌∙◌, refl, sym, ap, subst, arith, Bool-cases, inl, inr, true, false, leb, ◌==◌,
  Bool, Option, none, some, has, has-remove, remove, is_empty, Distinct-remove, update_same,
  update_twice, value_or, done, ◌>>=◌,
}
use risc_v_workshop.Irq.{
  IrqCtrlr, lacks_disable, IrqLine, Answers, IrqInfo, nr_irqs, irq_ctrlr_ops_is_valid, set_line,
  irqline_put, put_at, mask_line, mask_primask,
}
use risc_v_workshop.Irq.Register.{
  has_handler, remove_handler, unlink_handler, unregister_at, irq_unregister_handler,
}
use risc_v_workshop.Irq.Handle.Borrow.{has_disable}
use risc_v_workshop.Irq.Register.Invariant.{IsConsistent}
use risc_v_workshop.Irq.Register.Unlinked.{
  Unregistered, UnregisterOutcome, mask_line-events, mask_primask-events, in_tree, used, rest,
  counted, counted-valid, counted-disables, line_after, after, after-Unregistered,
}

lacks-disable :
    (ctrlr : IrqCtrlr)
    → irq_ctrlr_ops_is_valid ctrlr ≡ true
    → ctrlr.disable_irq ≡ false
    → lacks_disable ctrlr ≡ true
unfolding lacks_disable
lacks-disable ctrlr v e = ground (arith, v, e)

module _ (answers : Answers) (inf : IrqInfo) (h : IsConsistent inf) (irq handler : ℕ)
    (below : irq < nr_irqs) (had : has_handler handler (inf.irqs irq).handlers ≡ true) where
  before_put : IrqInfo
  before_put =
      (after answers inf h irq handler below had) (inf.irqs irq).refs inf.prio_que inf.events

  here_before :
      before_put.irqs irq ≡ (line_after answers inf h irq handler below had) (inf.irqs irq).refs
  unfolding before_put after
  here_before = update_same inf.irqs irq _

  removed : IrqInfo
  removed =
      record (set_line irq (record (before_put.irqs irq) { refs = (before_put.irqs irq).refs - 1 })
        before_put) { prio_que = remove irq before_put.prio_que }

  removed-eq :
      removed ≡ (after answers inf h irq handler below had) 0 (remove irq inf.prio_que) inf.events
  unfolding removed before_put after line_after
  removed-eq =
      let no_refs : (inf.irqs irq).refs - 1 ≡ 0 =
        omega (arith, (used answers inf h irq handler below had).once) in
      ap
        (λ l. record (set_line irq (record l { refs = l.refs - 1 }) before_put) {
          prio_que = remove irq inf.prio_que;
        })
        here_before
      ∙ ap
          (λ k.
            record (set_line irq
              (record ((line_after answers inf h irq handler below had) 0) { refs = k })
              before_put) { prio_que = remove irq inf.prio_que })
          no_refs
      ∙ ap {A = ℕ → IrqLine} {B = IrqInfo}
          (λ irqs. record inf {
            irqs = irqs;
            ctrlrs = (counted answers inf h irq handler below had);
            prio_que = remove irq inf.prio_que;
          })
          (update_twice inf.irqs irq _ _)

  refs_before : (before_put.irqs irq).refs ≡ 1
  unfolding line_after
  refs_before = ap (λ l. l.refs) here_before ∙ (used answers inf h irq handler below had).once

  masked : IrqInfo
  masked = mask_line (used answers inf h irq handler below had).at (before_put.irqs irq).irq (
      mask_primask answers (used answers inf h irq handler below had).at (before_put.irqs irq)
        removed)

  masked-eq :
      masked ≡ (after answers inf h irq handler below had) 0 (remove irq inf.prio_que) masked.events
  unfolding masked after
  masked-eq =
      mask_line-events (used answers inf h irq handler below had).at (before_put.irqs irq).irq (
        mask_primask answers (used answers inf h irq handler below had).at (before_put.irqs irq)
          removed)
      ∙ ap {A = IrqInfo} {B = IrqInfo} (λ s. record s { events = masked.events })
          (mask_primask-events answers (used answers inf h irq handler below had).at
              (before_put.irqs irq) removed
            ∙ ap {A = IrqInfo} {B = IrqInfo}
                (λ s. record s {
                  events =
                      (mask_primask answers (used answers inf h irq handler below had).at
                        (before_put.irqs irq) removed).events;
                })
                removed-eq)

  valid_before :
      irq_ctrlr_ops_is_valid (before_put.ctrlrs (used answers inf h irq handler below had).at)
      ≡ true
  unfolding before_put after
  valid_before =
      (counted-valid answers inf h irq handler below had)
        (used answers inf h irq handler below had).at
      ∙ (used answers inf h irq handler below had).valid

  there : has irq before_put.prio_que ≡ true
  unfolding before_put after
  there = (in_tree answers inf h irq handler below had)

  masks_before :
      (inf.ctrlrs (used answers inf h irq handler below had).at).disable_irq ≡ true
      → lacks_disable (before_put.ctrlrs (used answers inf h irq handler below had).at) ≡ false
  unfolding before_put after
  masks_before e = has_disable _ (
      counted-disables answers inf h irq handler below had
        (used answers inf h irq handler below had).at
      ∙ e)

  lacks_before :
      (inf.ctrlrs (used answers inf h irq handler below had).at).disable_irq ≡ false
      → lacks_disable (before_put.ctrlrs (used answers inf h irq handler below had).at) ≡ true
  unfolding before_put after
  lacks_before e = lacks-disable _ valid_before (
      counted-disables answers inf h irq handler below had
        (used answers inf h irq handler below had).at
      ∙ e)

  put_at_last :
      (inf.ctrlrs (used answers inf h irq handler below had).at).disable_irq ≡ true
      → put_at answers irq before_put (used answers inf h irq handler below had).at
        ≡ some (true, masked)
  unfolding put_at masked removed
  put_at_last e =
      let some_refs : ((before_put.irqs irq).refs == 0) ≡ false = ground (arith, refs_before) in
      let last : ((before_put.irqs irq).refs - 1 == 0) ≡ true = ground (arith, refs_before) in
      rw (valid_before, some_refs, last, there, masks_before e) refl

  put_at_fails :
      (inf.ctrlrs (used answers inf h irq handler below had).at).disable_irq ≡ false
      → put_at answers irq before_put (used answers inf h irq handler below had).at ≡ none
  unfolding put_at
  put_at_fails e =
      let some_refs : ((before_put.irqs irq).refs == 0) ≡ false = ground (arith, refs_before) in
      let last : ((before_put.irqs irq).refs - 1 == 0) ≡ true = ground (arith, refs_before) in
      rw (valid_before, some_refs, last, there, lacks_before e) refl

  put_last :
      (r : Option (Bool × IrqInfo))
      → put_at answers irq before_put (used answers inf h irq handler below had).at ≡ r
      → irqline_put answers irq before_put ≡ r
  unfolding irqline_put line_after
  put_last r e =
      ap (λ l. l.ctrlr >>= put_at answers irq before_put) here_before
      ∙ ap (λ o. o >>= put_at answers irq before_put)
          (used answers inf h irq handler below had).ctrlr
      ∙ e

  unlinks_last :
      is_empty (rest answers inf h irq handler below had) ≡ true
      → unlink_handler answers (used answers inf h irq handler below had).at irq handler inf
        ≡ (irqline_put answers irq before_put >>= λ put. some (done tt, put.1))
  unfolding unlink_handler rest before_put after counted line_after
  unlinks_last e = rw ((used answers inf h irq handler below had).valid, e) refl

  unlinks_one :
      is_empty (rest answers inf h irq handler below had) ≡ false
      → unlink_handler answers (used answers inf h irq handler below had).at irq handler inf
        ≡ some (done tt, before_put)
  unfolding unlink_handler rest before_put after counted line_after
  unlinks_one e = rw ((used answers inf h irq handler below had).valid, e) refl

  no_more :
      is_empty (rest answers inf h irq handler below had) ≡ true
      → is_empty (remove_handler handler (inf.irqs irq).handlers) ≡ true
  unfolding rest
  no_more e = e

  unlinked-Unregistered :
      UnregisterOutcome inf irq handler
        (unlink_handler answers (used answers inf h irq handler below had).at irq handler inf)
  unfolding before_put
  unlinked-Unregistered = elim (Bool-cases (is_empty (rest answers inf h irq handler below had))) [
    | inl e ↦
        elim (Bool-cases (inf.ctrlrs (used answers inf h irq handler below had).at).disable_irq) [
          | inr m ↦
              subst (UnregisterOutcome inf irq handler)
                (sym (
                  unlinks_last e
                  ∙ ap (λ m. m >>= λ put. some (done tt, put.1)) (put_last none (put_at_fails m))))
                (inr (_, (used answers inf h irq handler below had).ctrlr, m, had, no_more e))
          | inl m ↦
              subst (UnregisterOutcome inf irq handler)
                (sym (
                  unlinks_last e
                  ∙ ap (λ m. m >>= λ put. some (done tt, put.1))
                      (put_last (some (true, masked)) (put_at_last m))))
                (subst (Unregistered inf irq handler) (sym masked-eq) (
                  (after-Unregistered answers inf h irq handler below had) 0
                    (remove irq inf.prio_que) masked.events
                    (Distinct-remove irq inf.prio_que h.distinct)
                    (λ p. ground (arith, has-remove p irq inf.prio_que h.distinct, e))
                    (λ f. absurd (ground (arith, e, f)))))
        ]
    | inr e ↦ subst (UnregisterOutcome inf irq handler) (sym (unlinks_one e)) (
        (after-Unregistered answers inf h irq handler below had) (inf.irqs irq).refs inf.prio_que
          inf.events h.distinct (λ p. ground (arith, e))
          (λ f. (used answers inf h irq handler below had).once))
  ]

module _ (answers : Answers) (inf : IrqInfo) (h : IsConsistent inf) (irq handler : ℕ) where
  unregister_at-Outcome :
      (c : Option ℕ)
      → irq < nr_irqs
      → (inf.irqs irq).ctrlr ≡ c
      → UnregisterOutcome inf irq handler (c >>= unregister_at answers irq handler inf)
  unfolding unregister_at
  unregister_at-Outcome none below e = inl e
  unregister_at-Outcome (some c) below e =
      elim (Bool-cases (has_handler handler (inf.irqs irq).handlers)) [
        | inl had ↦
            let same : (used answers inf h irq handler below had).at ≡ c =
              ap (value_or 0) (sym (used answers inf h irq handler below had).ctrlr ∙ e) in
            rw had (
              subst
                (λ k. UnregisterOutcome inf irq handler (unlink_handler answers k irq handler inf))
                same (unlinked-Unregistered answers inf h irq handler below had))
        | inr not_had ↦ rw not_had (refl, inr (not_had, refl))
      ]

  -- Taking back a handler, where the lines are consistent: if it succeeds, the first entry of the
  -- handler is gone from the line, which leaves the tree with its last handler, the controller counts
  -- one less, the other lines are as before, and the lines are consistent. If it is refused, nothing
  -- has happened, and the number is out of range (EINVAL) or the line does not have the handler
  -- (ENOENT). It stops only at an assertion, if the line never had a controller, or at a call through
  -- NULL, if the handler is the last of the line and its controller has no disable_irq.
  pub irq_unregister_handler-Outcome :
      UnregisterOutcome inf irq handler (irq_unregister_handler answers irq handler inf)
  unfolding irq_unregister_handler
  irq_unregister_handler-Outcome = elim (Bool-cases (leb nr_irqs irq)) [
    | inl e ↦ rw e (refl, inl (ground arith, refl))
    | inr e ↦ rw e (unregister_at-Outcome _ (ground arith) refl)
  ]
