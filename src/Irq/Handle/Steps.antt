-- ===== src/Irq/Handle/Steps.antt =====
-- The steps of serving a line that is in use, `handle_irq_line` of kern/irq.c and what it calls, as equations.
use risc_v_workshop.Prelude.{
  ℕ, ◌+◌, ◌≡◌, ◌∙◌, refl, sym, ap, arith, Bool, Bool-cases, inl, inr, true, false, ltb,
  if◌then◌else◌, Option, none, some, List, ◌∷◌, Rc, done, fail, esrch, ◌>>=◌,
}
use risc_v_workshop.Irq.{
  Event, Answers, IrqInfo, sends_eoi, nr_irqs, irq_ctrlr_ops_has_linemask,
  irq_ctrlr_ops_has_primask, lacks_enable, happens, irqline_get, irqline_put,
}
use risc_v_workshop.Irq.Handle.{
  invoke_irq_handler, handle_irq_line, finish_line, serve_line, check_line, check_lines, mask_lower,
  disable_line, enable_line, restore_priority, or_esrch,
}
use risc_v_workshop.Irq.Handle.Borrow.{
  ctrlr, IsLive, more_refs, lent, here, get_lent, put_lent, lent_none, events_after, invoked,
  has_enable, has_disable, lowered, disabled, enabled, restored,
}

module _ (answers : Answers) (inf : IrqInfo) (i : ℕ) (l : IsLive inf i) where
  mask_lower-lent :
      (n m : ℕ) (events : List Event)
      → mask_lower (ctrlr answers inf i l) (more_refs (inf.irqs i) m) (lent inf i n events)
        ≡ lent inf i n ((lowered answers inf i l) events)
  unfolding mask_lower lowered lent
  mask_lower-lent n m events =
      elim (Bool-cases (irq_ctrlr_ops_has_primask (inf.ctrlrs (ctrlr answers inf i l)))) [
        | inl e ↦ rw e refl
        | inr e ↦ rw e refl
      ]

  disable_line-lent :
      (n m : ℕ) (events : List Event)
      → disable_line (ctrlr answers inf i l) (more_refs (inf.irqs i) m) (lent inf i n events)
        ≡ lent inf i n ((disabled answers inf i l) events)
  unfolding disable_line disabled lent
  disable_line-lent n m events =
      elim (Bool-cases (irq_ctrlr_ops_has_linemask (inf.ctrlrs (ctrlr answers inf i l)))) [
        | inl e ↦ rw e refl
        | inr e ↦ rw e refl
      ]

  enable_line-lent :
      (n m : ℕ) (events : List Event)
      → enable_line (ctrlr answers inf i l) (more_refs (inf.irqs i) m) (lent inf i n events)
        ≡ lent inf i n ((enabled answers inf i l) events)
  unfolding enable_line enabled lent
  enable_line-lent n m events =
      elim (Bool-cases (irq_ctrlr_ops_has_linemask (inf.ctrlrs (ctrlr answers inf i l)))) [
        | inl e ↦ rw e refl
        | inr e ↦ rw e refl
      ]

  restore_priority-lent :
      (n prio : ℕ) (events : List Event)
      → restore_priority (ctrlr answers inf i l) prio (lent inf i n events)
        ≡ lent inf i n ((restored answers inf i l) prio events)
  unfolding restore_priority restored lent
  restore_priority-lent n prio events =
      elim (Bool-cases (irq_ctrlr_ops_has_primask (inf.ctrlrs (ctrlr answers inf i l)))) [
        | inl e ↦ rw e refl
        | inr e ↦ rw e refl
      ]

  unfoldable pub masked : List Event → List Event
  masked events =
      sends_eoi (ctrlr answers inf i l) (inf.irqs i).irq
      ∷ (disabled answers inf i l) ((lowered answers inf i l) events)

  masked-lent :
      (n m : ℕ) (events : List Event)
      → happens (sends_eoi (ctrlr answers inf i l) (inf.irqs i).irq) (
          disable_line
            (ctrlr answers inf i l)
            (more_refs (inf.irqs i) m)
            (mask_lower (ctrlr answers inf i l) (more_refs (inf.irqs i) m) (lent inf i n events)))
        ≡ lent inf i n (masked events)
  unfolding masked lent
  masked-lent n m events =
      ap (λ x. happens (sends_eoi (ctrlr answers inf i l) (inf.irqs i).irq) x)
        (ap (disable_line (ctrlr answers inf i l) (more_refs (inf.irqs i) m))
            (mask_lower-lent n m events)
          ∙ disable_line-lent n m ((lowered answers inf i l) events))

  -- the events of serving the line, and the result
  unfoldable pub served : List Event → List Event
  served events =
      (restored answers inf i l) (answers.priority events (ctrlr answers inf i l))
        ((enabled answers inf i l) ((events_after answers inf i l) (masked events)).1)

  served_rc : List Event → Rc (Unit {0})
  served_rc events =
      or_esrch (if ((events_after answers inf i l) (masked events)).0 then done tt else fail esrch)

  enables_again :
      (n : ℕ) (events : List Event) (o : Option (Rc (Unit {0}) × IrqInfo))
      → (if lacks_enable ((lent inf i n events).ctrlrs (ctrlr answers inf i l)) then none else o)
        ≡ o
  unfolding lent ctrlr
  enables_again n events o = rw (has_enable (inf.ctrlrs l.at) l.enables) refl

  finished :
      (n m prio : ℕ) (rc : Rc (Unit {0})) (events : List Event)
      → finish_line answers i
          (more_refs (inf.irqs i) m)
          (ctrlr answers inf i l)
          prio
          (rc, lent inf i (n + 1) events)
        ≡ some (
          or_esrch rc,
          lent inf i n ((restored answers inf i l) prio ((enabled answers inf i l) events)),
        )
  unfolding finish_line
  finished n m prio rc events =
      ap
        (λ r. r >>= λ x.
          if lacks_enable (x.1.ctrlrs (ctrlr answers inf i l))
          then none
          else some (
            or_esrch rc,
            restore_priority (ctrlr answers inf i l) prio
                (enable_line (ctrlr answers inf i l) (more_refs (inf.irqs i) m) x.1),
          ))
        ((put_lent answers inf i l) n events)
      ∙ enables_again n events _
      ∙ ap (λ x. some (or_esrch rc, x))
          (ap (restore_priority (ctrlr answers inf i l) prio) (enable_line-lent n m events)
            ∙ restore_priority-lent n prio ((enabled answers inf i l) events))

  line_served :
      (n m : ℕ) (events : List Event)
      → serve_line answers i
          (more_refs (inf.irqs i) m)
          (lent inf i (n + 1) events)
          (ctrlr answers inf i l)
        ≡ some (served_rc events, lent inf i n (served events))
  unfolding serve_line served served_rc lent ctrlr
  line_served n m events =
      rw (l.valid, has_disable (inf.ctrlrs l.at) l.disables)
        (ap
            (λ x.
              invoke_irq_handler answers i x
              >>= finish_line answers i (more_refs (inf.irqs i) m) (ctrlr answers inf i l)
                  (answers.priority events (ctrlr answers inf i l)))
            (masked-lent (n + 1) m events)
          ∙ ap
              (λ x.
                x
                >>= finish_line answers i (more_refs (inf.irqs i) m) (ctrlr answers inf i l)
                    (answers.priority events (ctrlr answers inf i l)))
              ((invoked answers inf i l) (n + 1) (masked events))
          ∙ finished n m (answers.priority events (ctrlr answers inf i l)) _
              ((events_after answers inf i l) (masked events)).1)

  handled :
      (n : ℕ) (events : List Event)
      → handle_irq_line answers i (lent inf i n events)
        ≡ some (served_rc events, lent inf i n (served events))
  unfolding handle_irq_line serve_line ctrlr
  handled n events =
      let number : ltb (inf.irqs i).irq nr_irqs ≡ true = ground (arith, l.number) in
      rw ((here answers inf i l) n events, number, (get_lent answers inf i l) n events)
        (ap (λ c. c >>= serve_line answers i (more_refs (inf.irqs i) n) (lent inf i (n + 1) events))
            l.ctrlr
          ∙ line_served n n events)

  got_first : irqline_get i inf ≡ (true, lent inf i 1 inf.events)
  got_first =
      ap (irqline_get i) (sym (lent_none answers inf i l)) ∙ (get_lent answers inf i l) 0 inf.events

  put_first : irqline_put answers i (lent inf i 1 inf.events) ≡ some (false, inf)
  put_first =
      (put_lent answers inf i l) 0 inf.events
      ∙ ap (λ x. some (false, x)) (lent_none answers inf i l)

  lent_events : (events : List Event) → lent inf i 0 events ≡ record inf { events = events }
  unfolding lent
  lent_events events =
      ap {A = IrqInfo} {B = IrqInfo} (λ x. record x { events = events }) (lent_none answers inf i l)

  pub pending_served :
      (further : Option (Bool × IrqInfo))
      → answers.is_pending inf.events (ctrlr answers inf i l) (inf.irqs i).irq (inf.irqs i).prio
        ≡ true
      → check_line answers i (inf.irqs i) (lent inf i 1 inf.events) further (ctrlr answers inf i l)
        ≡ some (true, record inf { events = served inf.events })
  unfolding check_line lent ctrlr
  pending_served further p =
      rw (l.valid, p)
        (ap (λ m. m >>= λ r. irqline_put answers i r.1 >>= λ put. some (true, put.1))
            (handled 1 inf.events)
          ∙ ap (λ m. m >>= λ put. some (true, put.1))
              ((put_lent answers inf i l) 0 (served inf.events))
          ∙ ap (λ x. some (true, x)) (lent_events (served inf.events)))

  pub not_pending_further :
      (further : Option (Bool × IrqInfo))
      → answers.is_pending inf.events (ctrlr answers inf i l) (inf.irqs i).irq (inf.irqs i).prio
        ≡ false
      → check_line answers i (inf.irqs i) (lent inf i 1 inf.events) further (ctrlr answers inf i l)
        ≡ further
  unfolding check_line lent ctrlr
  not_pending_further further p = rw (l.valid, p) refl

  pub first_checked :
      (rest : List ℕ)
      → check_lines answers (i ∷ rest) inf
        ≡ check_line answers i
            (inf.irqs i)
            (lent inf i 1 inf.events)
            (check_lines answers rest inf)
            (ctrlr answers inf i l)
  unfolding check_lines ctrlr
  first_checked rest = rw (got_first, put_first, l.ctrlr) refl
