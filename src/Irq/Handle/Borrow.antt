-- ===== src/Irq/Handle/Borrow.antt =====
-- References to a line in use taken and given back while it is served, and its handlers called: kern/irq.c.
use risc_v_workshop.Prelude.{
  ℕ, ◌+◌, ◌-◌, ◌<◌, ◌≡◌, ◌∙◌, ap, arith, Bool, true, false, ltb, ◌==◌, if◌then◌else◌, Option, Rc,
  none, refl, some, List, ◌∷◌, update, update_same, update_twice, update_self, done, fail, esrch,
  ◌>>=◌,
}
use risc_v_workshop.Irq.{
  IrqCtrlr, lacks_enable, lacks_disable, IrqLine, Event, Answers, IrqInfo, sets_priority,
  disables_irq, enables_irq, nr_irqs, irq_ctrlr_ops_has_linemask, irq_ctrlr_ops_has_primask,
  irq_ctrlr_ops_is_valid, is_nestable, irqline_get, put_at, irqline_put,
}
use risc_v_workshop.Irq.Handle.{call_handlers, invoke_irq_handler}

-- A line that can be served: it has a reference and a controller whose operations are there, those to
-- mask a line too, and interrupts are off.
pub record IsLive (inf : IrqInfo) (i : ℕ) : Type 0 where
  pub referenced : 0 < (inf.irqs i).refs
  pub number : (inf.irqs i).irq < nr_irqs
  pub at : ℕ
  pub ctrlr : (inf.irqs i).ctrlr ≡ some at
  pub valid : irq_ctrlr_ops_is_valid (inf.ctrlrs at) ≡ true
  pub enables : (inf.ctrlrs at).enable_irq ≡ true
  pub disables : (inf.ctrlrs at).disable_irq ≡ true
  pub quiet : inf.interrupts ≡ false

-- `inf` with `n` more references to line `i`, and other events
abbrev pub more_refs : IrqLine → ℕ → IrqLine
more_refs irqline n = record irqline { refs = irqline.refs + n }

unfoldable pub lent : IrqInfo → ℕ → ℕ → List Event → IrqInfo
lent inf i n events = record inf {
  irqs = update inf.irqs i (more_refs (inf.irqs i) n);
  events = events;
}

pub has_enable : (ctrlr : IrqCtrlr) → ctrlr.enable_irq ≡ true → lacks_enable ctrlr ≡ false
unfolding lacks_enable
has_enable ctrlr e = ground (arith, e)

pub has_disable : (ctrlr : IrqCtrlr) → ctrlr.disable_irq ≡ true → lacks_disable ctrlr ≡ false
unfolding lacks_disable
has_disable ctrlr e = ground (arith, e)

module _ (answers : Answers) (inf : IrqInfo) (i : ℕ) (l : IsLive inf i) where
  pub here : (n : ℕ) (events : List Event) → (lent inf i n events).irqs i ≡ more_refs (inf.irqs i) n
  unfolding lent
  here n events = update_same inf.irqs i _

  pub get_lent :
      (n : ℕ) (events : List Event)
      → irqline_get i (lent inf i n events) ≡ (true, lent inf i (n + 1) events)
  unfolding irqline_get lent
  get_lent n events =
      let some_refs : ((inf.irqs i).refs + n == 0) ≡ false = ground (arith, l.referenced) in
      let more : (inf.irqs i).refs + n + 1 ≡ (inf.irqs i).refs + (n + 1) = omega arith in
      rw (here n events, some_refs, update_twice inf.irqs i (more_refs (inf.irqs i) n), more)

  put_at-lent :
      (n : ℕ) (events : List Event)
      → put_at answers i (lent inf i (n + 1) events) l.at ≡ some (false, lent inf i n events)
  unfolding put_at lent
  put_at-lent n events =
      let some_refs : ((inf.irqs i).refs + (n + 1) == 0) ≡ false = ground arith in
      let fewer : (inf.irqs i).refs + (n + 1) - 1 ≡ (inf.irqs i).refs + n = omega arith in
      let still : ((inf.irqs i).refs + n == 0) ≡ false = ground (arith, l.referenced) in
      rw (here (n + 1) events, l.valid, some_refs, fewer, still)
        (ap (λ irqs. some (false, record inf { irqs = irqs; events = events }))
          (update_twice inf.irqs i _ _))

  pub put_lent :
      (n : ℕ) (events : List Event)
      → irqline_put answers i (lent inf i (n + 1) events) ≡ some (false, lent inf i n events)
  unfolding irqline_put
  put_lent n events =
      ap (λ q. q.ctrlr >>= put_at answers i (lent inf i (n + 1) events)) (here (n + 1) events)
      ∙ ap (λ o. o >>= put_at answers i (lent inf i (n + 1) events)) l.ctrlr
      ∙ put_at-lent n events

  pub lent_none : lent inf i 0 inf.events ≡ inf
  unfolding lent
  lent_none =
      let no_more : (inf.irqs i).refs + 0 ≡ (inf.irqs i).refs = omega arith in
      ap (λ k. record inf { irqs = update inf.irqs i (record (inf.irqs i) { refs = k }) }) no_more
      ∙ ap (λ irqs. record inf { irqs = irqs }) (update_self inf.irqs i)

  unfoldable pub events_after : List Event → Bool × List Event
  events_after events =
      call_handlers answers (is_nestable (inf.irqs i).attr) (inf.irqs i).irq (inf.irqs i).handlers
        events

  asks_quiet :
      (n : ℕ) (events : List Event) (o : Option (Rc (Unit {0}) × IrqInfo))
      → (if (lent inf i n events).interrupts then none else o) ≡ o
  unfolding lent
  asks_quiet n events o = rw l.quiet refl

  pub invoked :
      (n : ℕ) (events : List Event)
      → invoke_irq_handler answers i (lent inf i n events)
        ≡ some (
          if (events_after events).0 then done tt else fail esrch,
          lent inf i n (events_after events).1,
        )
  unfolding invoke_irq_handler events_after lent
  invoked n events =
      let number : ltb (inf.irqs i).irq nr_irqs ≡ true = ground (arith, l.number) in
      rw (here n events, number, get_lent n events)
        (asks_quiet n events _
          ∙ ap (λ m. m >>= λ x. some (if (events_after events).0 then done tt else fail esrch, x.1))
              (put_lent n (events_after events).1))

  unfoldable pub ctrlr : ℕ
  ctrlr = l.at

  unfoldable pub lowered : List Event → List Event
  lowered events =
      if irq_ctrlr_ops_has_primask (inf.ctrlrs ctrlr)
      then sets_priority ctrlr (inf.irqs i).prio ∷ events
      else events

  unfoldable pub disabled : List Event → List Event
  disabled events =
      if irq_ctrlr_ops_has_linemask (inf.ctrlrs ctrlr)
      then disables_irq ctrlr (inf.irqs i).irq ∷ events
      else events

  unfoldable pub enabled : List Event → List Event
  enabled events =
      if irq_ctrlr_ops_has_linemask (inf.ctrlrs ctrlr)
      then enables_irq ctrlr (inf.irqs i).irq ∷ events
      else events

  unfoldable pub restored : ℕ → List Event → List Event
  restored prio events =
      if irq_ctrlr_ops_has_primask (inf.ctrlrs ctrlr)
      then sets_priority ctrlr prio ∷ events
      else events
