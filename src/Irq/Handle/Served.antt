-- ===== src/Irq/Handle/Served.antt =====
-- What `irq_handle_irq` of kern/irq.c does: which line is served, and what happens then.
use risc_v_workshop.Prelude.{
  ℕ, ◌≡◌, ◌⊎◌, ◌∙◌, refl, sym, ap, subst, Bool, Bool-cases, inl, inr, true, false, if◌then◌else◌,
  Option, some, List, [], ◌∷◌, ◌++◌, All, All-append, value_or, Rc, done, fail, esrch, ◌>>=◌,
}
use risc_v_workshop.Irq.{
  Handler, IrqLine, IrqCtrlr, Event, Answers, IrqInfo, sets_priority, disables_irq, enables_irq,
  sends_eoi, irq_ctrlr_ops_has_linemask, irq_ctrlr_ops_has_primask, is_nestable,
}
use risc_v_workshop.Irq.Handle.{
  called, at_call, call_handlers, check_lines, reversed, irq_handle_irq,
}
use risc_v_workshop.Irq.Handle.Borrow.{
  IsLive, events_after, ctrlr, lowered, disabled, enabled, restored,
}
use risc_v_workshop.Irq.Handle.Steps.{
  served, masked, pending_served, not_pending_further, first_checked,
}

-- The handlers of a list called in its order, whatever they answer, and that none of them handles the
-- interrupt.
abbrev all_called : Bool → ℕ → List Handler → List Event → List Event
all_called nestable irq [] events = events
all_called nestable irq (h ∷ rest) events =
    all_called nestable irq rest (called nestable irq h events)

abbrev NoneHandles : Answers → Bool → ℕ → List Handler → List Event → Type 0
NoneHandles answers nestable irq [] events = Unit
NoneHandles answers nestable irq (h ∷ rest) events =
    (answers.handles (at_call nestable events) irq h ≡ false)
    × NoneHandles answers nestable irq rest (called nestable irq h events)

-- The first handler that handles the interrupt is the last one called; without one, all are called.
abbrev pub Called : Answers → Bool → ℕ → List Handler → List Event → List Event → Type 0
Called answers nestable irq handlers events after =
    ((passed : List Handler) × (h : Handler) × (rest : List Handler) × (passed ++ h ∷ rest
        ≡ handlers)
      × NoneHandles answers nestable irq passed events
      × (answers.handles (at_call nestable (all_called nestable irq passed events)) irq h ≡ true)
      × (after ≡ called nestable irq h (all_called nestable irq passed events)))
    ⊎ (NoneHandles answers nestable irq handlers events
        × (after ≡ all_called nestable irq handlers events))

handles_last :
    (answers : Answers) (nestable : Bool) (irq : ℕ) (h : Handler) (rest : List Handler)
    (events : List Event)
    → answers.handles (at_call nestable events) irq h ≡ true
    → call_handlers answers nestable irq (h ∷ rest) events ≡ (true, called nestable irq h events)
unfolding call_handlers
handles_last answers nestable irq h rest events e = rw e refl

passes_on :
    (answers : Answers) (nestable : Bool) (irq : ℕ) (h : Handler) (rest : List Handler)
    (events : List Event)
    → answers.handles (at_call nestable events) irq h ≡ false
    → call_handlers answers nestable irq (h ∷ rest) events
      ≡ call_handlers answers nestable irq rest (called nestable irq h events)
unfolding call_handlers
passes_on answers nestable irq h rest events e = rw e refl

call_handlers-Called :
    (answers : Answers) (nestable : Bool) (irq : ℕ) (handlers : List Handler) (events : List Event)
    → Called answers nestable irq handlers events
        (call_handlers answers nestable irq handlers events).1
unfolding call_handlers
call_handlers-Called answers nestable irq [] events = inr (tt, refl)
call_handlers-Called answers nestable irq (h ∷ rest) events =
    elim (Bool-cases (answers.handles (at_call nestable events) irq h)) [
      | inl e ↦ inl (
        [],
        h,
        rest,
        refl,
        tt,
        e,
        ap (λ r. r.1) (handles_last answers nestable irq h rest events e),
      )
      | inr e ↦
          let on : (call_handlers answers nestable irq (h ∷ rest) events).1
              ≡ (call_handlers answers nestable irq rest (called nestable irq h events)).1 =
            ap (λ r. r.1) (passes_on answers nestable irq h rest events e) in
          elim (call_handlers-Called answers nestable irq rest (called nestable irq h events)) [
            | inl (passed, g, others, split, before, last, after) ↦
                inl (h ∷ passed, g, others, ap (λ xs. h ∷ xs) split, (e, before), last, on ∙ after)
            | inr (before, after) ↦ inr ((e, before), on ∙ after)
          ]
    ]

-- Around the handlers: lower priorities and the line are masked and the interrupt is acknowledged, then
-- the line is let through again and the priority mask is as before.
abbrev pub masked_events : IrqCtrlr → ℕ → IrqLine → List Event → List Event
masked_events ctrlr c irqline events =
    let lower =
      (if irq_ctrlr_ops_has_primask ctrlr then sets_priority c irqline.prio ∷ events else events) in
    sends_eoi c irqline.irq
    ∷ (if irq_ctrlr_ops_has_linemask ctrlr then disables_irq c irqline.irq ∷ lower else lower)

abbrev pub unmasked_events : IrqCtrlr → ℕ → IrqLine → ℕ → List Event → List Event
unmasked_events ctrlr c irqline prio events =
    let line =
      (if irq_ctrlr_ops_has_linemask ctrlr then enables_irq c irqline.irq ∷ events else events) in
    if irq_ctrlr_ops_has_primask ctrlr then sets_priority c prio ∷ line else line

-- One line served: only the events are new.
abbrev pub Served : Answers → IrqInfo → ℕ → ℕ → IrqInfo → Type 0
Served answers inf i c after =
    let irqline = inf.irqs i in
    (called : List Event) × Called answers (is_nestable irqline.attr) irqline.irq irqline.handlers
      (masked_events (inf.ctrlrs c) c irqline inf.events) called
    × (after ≡ record inf {
      events = unmasked_events (inf.ctrlrs c) c irqline (answers.priority inf.events c) called;
    })

abbrev pub IsPending : Answers → IrqInfo → ℕ → Bool → Type 0
IsPending answers inf i b =
    (c : ℕ)
    → (inf.irqs i).ctrlr ≡ some c
    → answers.is_pending inf.events c (inf.irqs i).irq (inf.irqs i).prio ≡ b

-- The first line that is pending is served, and those before it are not; `found` and `not_found` say
-- how the result tells.
abbrev pub Scanned : {A : Type 0} → Answers → IrqInfo → List ℕ → A → (IrqInfo → A) → A → Type 0
Scanned answers inf lines not_found found result =
    (All (λ i. IsPending answers inf i false) lines × (result ≡ not_found))
    ⊎ ((passed : List ℕ) × (i : ℕ) × (rest : List ℕ) × (c : ℕ) × (after : IrqInfo) × (passed
            ++ i ∷ rest
          ≡ lines)
        × All (λ j. IsPending answers inf j false) passed
        × ((inf.irqs i).ctrlr ≡ some c)
        × (answers.is_pending inf.events c (inf.irqs i).irq (inf.irqs i).prio ≡ true)
        × Served answers inf i c after
        × (result ≡ found after))

abbrev pub handled_irq : IrqInfo → Option (Rc (Unit {0}) × IrqInfo)
handled_irq after = some (done tt, after)

module _ (answers : Answers) (inf : IrqInfo) where
  served-Served :
      (i : ℕ) (l : IsLive inf i)
      → Served answers inf i l.at (record inf { events = served answers inf i l inf.events })
  unfolding served masked enabled restored disabled lowered events_after ctrlr
  served-Served i l = (_, call_handlers-Called answers _ _ _ _, refl)

  not-IsPending :
      (i : ℕ) (l : IsLive inf i)
      → answers.is_pending inf.events l.at (inf.irqs i).irq (inf.irqs i).prio ≡ false
      → IsPending answers inf i false
  not-IsPending i l e c at =
      let same : l.at ≡ c = ap (value_or 0) (sym l.ctrlr ∙ at) in
      subst (λ k. answers.is_pending inf.events k (inf.irqs i).irq (inf.irqs i).prio ≡ false) same e

  found_line : IrqInfo → Option (Bool × IrqInfo)
  found_line after = some (true, after)

  check_lines-Scanned :
      (lines : List ℕ)
      → All (IsLive inf) lines
      → Scanned answers inf lines (some (false, inf)) found_line (check_lines answers lines inf)
  unfolding check_lines ctrlr found_line
  check_lines-Scanned [] live = inl (tt, refl)
  check_lines-Scanned (i ∷ rest) (l, live) =
      let this = first_checked answers inf i l rest in
      elim (Bool-cases (answers.is_pending inf.events l.at (inf.irqs i).irq (inf.irqs i).prio)) [
        | inl e ↦ inr (
          [],
          i,
          rest,
          l.at,
          _,
          refl,
          tt,
          l.ctrlr,
          e,
          served-Served i l,
          this ∙ pending_served answers inf i l _ e,
        )
        | inr e ↦
            let on = this ∙ not_pending_further answers inf i l (check_lines answers rest inf) e in
            elim (check_lines-Scanned rest live) [
              | inl (idle, result) ↦ inl ((not-IsPending i l e, idle), on ∙ result)
              | inr (passed, j, others, c, after, split, idle, at, pending, serving, result) ↦ inr (
                i ∷ passed,
                j,
                others,
                c,
                after,
                ap (λ xs. i ∷ xs) split,
                (not-IsPending i l e, idle),
                at,
                pending,
                serving,
                on ∙ result,
              )
            ]
      ]

  IsLive-reversed : (lines : List ℕ) → All (IsLive inf) lines → All (IsLive inf) (reversed lines)
  IsLive-reversed [] live = tt
  IsLive-reversed (i ∷ rest) (l, live) =
      All-append (IsLive inf) (reversed rest) (i ∷ []) (IsLive-reversed rest live) (l, tt)

  -- Handling an interrupt, where interrupts are off, every line in the tree is in use and the
  -- operations of its controller are there, those to mask a line too, fails no assertion and makes no
  -- call through NULL. The lines are looked at from the last in the tree on, and the first that is
  -- pending is served; without one the result is ESRCH and nothing has happened. Serving a line leaves
  -- the lines, the tree and the references as they were. It masks lower priorities and the line, as the
  -- controller can, acknowledges the interrupt, calls the handlers in their order up to the first that
  -- handles it, or all, and then lets the line through and restores the priority mask of before.
  pub irq_handle_irq-Scanned :
      All (IsLive inf) inf.prio_que
      → Scanned answers inf
          (reversed inf.prio_que)
          (some (fail esrch, inf))
          handled_irq
          (irq_handle_irq answers inf)
  unfolding irq_handle_irq found_line
  irq_handle_irq-Scanned live =
      elim (check_lines-Scanned (reversed inf.prio_que) (IsLive-reversed inf.prio_que live)) [
        | inl (idle, result) ↦
            inl (idle, ap (λ m. m >>= λ r. some (if r.0 then done tt else fail esrch, r.1)) result)
        | inr (passed, j, others, c, after, split, idle, at, pending, serving, result) ↦ inr (
          passed,
          j,
          others,
          c,
          after,
          split,
          idle,
          at,
          pending,
          serving,
          ap (λ m. m >>= λ r. some (if r.0 then done tt else fail esrch, r.1)) result,
        )
      ]
