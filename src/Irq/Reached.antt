-- ===== src/Irq/Reached.antt =====
-- The states that calls of kern/irq.c reach after `irq_init`.
use risc_v_workshop.Prelude.{
  ℕ, ◌<◌, ◌≡◌, refl, sym, subst, arith, inl, inr, true, ltb, some, List, [], ◌∷◌, Bool, false, All,
  has, Rc, done, fail, Ensures, Ensures-some,
}
use risc_v_workshop.Irq.{Handler, Answers, IrqInfo, nr_irqs}
use risc_v_workshop.Irq.Handle.{irq_handle_irq}
use risc_v_workshop.Irq.Handle.Borrow.{IsLive}
use risc_v_workshop.Irq.Handle.Served.{irq_handle_irq-Scanned}
use risc_v_workshop.Irq.Register.{
  irq_register_handler, irq_unregister_handler, irq_register_ctrlr, irq_unregister_ctrlr, irq_init,
}
use risc_v_workshop.Irq.Register.Ctrlrs.{
  events-IsConsistent, irq_register_ctrlr-IsConsistent, irq_unregister_ctrlr-IsConsistent,
}
use risc_v_workshop.Irq.Register.Invariant.{IsUsed, IsConsistent, Inserts}
use risc_v_workshop.Irq.Register.Registered.{RegisterOutcome, irq_register_handler-Outcome}
use risc_v_workshop.Irq.Register.Unlinked.{UnregisterOutcome}
use risc_v_workshop.Irq.Register.Unregistered.{irq_unregister_handler-Outcome}

-- every controller has the operations to let a line through and to mask it
abbrev pub HasLineOps : IrqInfo → Type 0
HasLineOps s = (c : ℕ) → ((s.ctrlrs c).enable_irq ≡ true) × ((s.ctrlrs c).disable_irq ≡ true)

-- A call that ends, with any result, or interrupts let in or kept off. The answers may differ from call
-- to call.
pub data Call (answers : Answers) (s : IrqInfo) : IrqInfo → Type 0 where
  registers :
      (irq attr prio : ℕ) (hdlr : Handler) (rc : Rc (Unit {0})) (t : IrqInfo)
      → irq_register_handler answers irq attr prio hdlr s ≡ some (rc, t)
      → Call answers s t
  unregisters :
      (irq handler : ℕ) (rc : Rc (Unit {0})) (t : IrqInfo)
      → irq_unregister_handler answers irq handler s ≡ some (rc, t)
      → Call answers s t
  lets : (interrupts : Bool) → Call answers s (record s { interrupts = interrupts })
  registers_ctrlr : (c : ℕ) → Call answers s (irq_register_ctrlr answers c s).1
  unregisters_ctrlr : (c : ℕ) (t : IrqInfo) → irq_unregister_ctrlr c s ≡ some t → Call answers s t
  handles :
      (rc : Rc (Unit {0})) (t : IrqInfo)
      → s.interrupts ≡ false
      → HasLineOps s
      → irq_handle_irq answers s ≡ some (rc, t)
      → Call answers s t

pub data Reached : IrqInfo → Type 0 where
  started : (s : IrqInfo) → Reached (irq_init s)
  then_called :
      (answers : Answers) (s t : IrqInfo)
      → Inserts answers
      → Reached s
      → Call answers s t
      → Reached t

irq_init-IsConsistent : (s : IrqInfo) → IsConsistent (irq_init s)
unfolding irq_init has
irq_init-IsConsistent s = record {
  distinct = tt;
  used = λ i m. absurd (ground arith);
  unused = λ i b m. let small : ltb i nr_irqs ≡ true = ground (arith, b) in rw small refl;
  valid = λ c m. absurd (ground arith);
}

-- every line in the tree is in use
all_has : {P : ℕ → Type 0} (xs : List ℕ) → ((x : ℕ) → has x xs ≡ true → P x) → All P xs
unfolding has
all_has [] h = tt
all_has (x ∷ xs) h = (h x (ground arith), all_has xs (λ y m. h y (ground (arith, m))))

used-IsLive :
    (s : IrqInfo) (i : ℕ)
    → s.interrupts ≡ false
    → HasLineOps s
    → IsUsed s.ctrlrs i (s.irqs i)
    → IsLive s i
used-IsLive s i off ops u = record {
  referenced = omega (arith, u.once);
  number = subst (λ k. k < nr_irqs) (sym u.number) u.below;
  at = u.at;
  ctrlr = u.ctrlr;
  valid = u.valid;
  enables = (ops u.at).0;
  disables = (ops u.at).1;
  quiet = off;
}

all-IsLive :
    (s : IrqInfo) → s.interrupts ≡ false → HasLineOps s → IsConsistent s → All (IsLive s) s.prio_que
all-IsLive s off ops h = all_has s.prio_que (λ i m. used-IsLive s i off ops (h.used i m))

handled-IsConsistent :
    (answers : Answers) (s : IrqInfo)
    → s.interrupts ≡ false
    → HasLineOps s
    → IsConsistent s
    → Ensures (λ r. IsConsistent r.1) (irq_handle_irq answers s)
handled-IsConsistent answers s off ops h =
    elim (irq_handle_irq-Scanned answers s (all-IsLive s off ops h)) [
      | inl (idle, result) ↦ subst (Ensures (λ r. IsConsistent r.1)) (sym result) h
      | inr (passed, i, rest, c, after, split, idle, at, pending, (events, calling, same), result) ↦
          subst (Ensures (λ r. IsConsistent r.1)) (sym result)
            (subst IsConsistent (sym same) (events-IsConsistent s _ h))
    ]

registered-IsConsistent :
    (answers : Answers) (s : IrqInfo) (irq attr prio : ℕ) (hdlr : Handler) (rc : Rc (Unit {0}))
    (t : IrqInfo)
    → RegisterOutcome answers s irq attr prio hdlr (some (rc, t))
    → IsConsistent t
registered-IsConsistent answers s irq attr prio hdlr (fail rc) t h = h.0.consistent
registered-IsConsistent answers s irq attr prio hdlr (done _) t h = h.consistent

unregistered-IsConsistent :
    (s : IrqInfo) (irq handler : ℕ) (rc : Rc (Unit {0})) (t : IrqInfo)
    → IsConsistent s
    → UnregisterOutcome s irq handler (some (rc, t))
    → IsConsistent t
unregistered-IsConsistent s irq handler (fail rc) t h o = subst IsConsistent (sym o.0) h
unregistered-IsConsistent s irq handler (done _) t h o = o.consistent

Call-IsConsistent :
    (answers : Answers) (s t : IrqInfo)
    → Inserts answers
    → IsConsistent s
    → Call answers s t
    → IsConsistent t
Call-IsConsistent answers s t contract h (registers irq attr prio hdlr rc after e) =
    registered-IsConsistent answers s irq attr prio hdlr rc t (
      subst (RegisterOutcome answers s irq attr prio hdlr) e
        (irq_register_handler-Outcome answers contract s h irq attr prio hdlr))
Call-IsConsistent answers s t contract h (unregisters irq handler rc after e) =
    unregistered-IsConsistent s irq handler rc t h (
      subst (UnregisterOutcome s irq handler) e
        (irq_unregister_handler-Outcome answers s h irq handler))
Call-IsConsistent answers s t contract h (registers_ctrlr c) =
    irq_register_ctrlr-IsConsistent s h c answers
Call-IsConsistent answers s t contract h (unregisters_ctrlr c after e) =
    Ensures-some IsConsistent (irq_unregister_ctrlr-IsConsistent s h c) e
Call-IsConsistent answers s t contract h (handles rc after off ops e) =
    Ensures-some (λ r. IsConsistent r.1) (handled-IsConsistent answers s off ops h) e
Call-IsConsistent answers s t contract h (lets interrupts) = record {
  distinct = h.distinct;
  used = h.used;
  unused = h.unused;
  valid = h.valid;
}

Reached-IsConsistent : (s : IrqInfo) → Reached s → IsConsistent s
Reached-IsConsistent _ (started s) = irq_init-IsConsistent s
Reached-IsConsistent _ (then_called answers s t contract r call) =
    Call-IsConsistent answers s t contract (Reached-IsConsistent s r) call

-- After the start and any calls that end, in any order, with any answers of controllers and handlers,
-- and an RB_INSERT that finds a line that compares equal or adds the line, where interrupts are handled
-- only with interrupts off and with enable_irq and disable_irq of every controller there: with
-- interrupts off and those operations there, the lines are consistent, handling an interrupt and giving
-- up a controller fail no assertion and make no call through NULL, and the lines are consistent after
-- them, too.
pub Reached-safe :
    (s : IrqInfo) (answers : Answers) (c : ℕ)
    → Reached s
    → s.interrupts ≡ false
    → HasLineOps s
    → IsConsistent s
      × Ensures (λ r. IsConsistent r.1) (irq_handle_irq answers s)
      × Ensures IsConsistent (irq_unregister_ctrlr c s)
Reached-safe s answers c r off ops =
    let h = Reached-IsConsistent s r in
    (h, handled-IsConsistent answers s off ops h, irq_unregister_ctrlr-IsConsistent s h c)
