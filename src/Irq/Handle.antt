-- ===== src/Irq/Handle.antt =====
-- Handling an interrupt: `irq_handle_irq` of kern/irq.c and what it calls. Handlers that register or
-- unregister handlers of their own line while they run are left out: a handler gives its answer only.
pub mod Borrow
pub mod Steps
pub mod Served
pub mod Priority
use risc_v_workshop.Prelude.{
  ℕ, zero, suc, ◌+◌, Bool, true, false, not, ltb, if◌then◌else◌, Option, none, some, List, [], ◌∷◌,
  ◌++◌, Rc, done, fail, enoent, esrch, ◌>>=◌,
}
use risc_v_workshop.Irq.{
  Handler, IrqLine, Event, Answers, IrqInfo, sets_priority, disables_irq, enables_irq, sends_eoi,
  lets_interrupts, stops_interrupts, calls, nr_irqs, irq_ctrlr_ops_has_linemask, lacks_enable,
  lacks_disable, irq_ctrlr_ops_has_primask, irq_ctrlr_ops_is_valid, is_nestable, happens,
  irqline_get, irqline_put,
}

-- a handler called, between enabling and disabling interrupts if the line says so
abbrev pub called : Bool → ℕ → Handler → List Event → List Event
called true irq ent events = stops_interrupts ∷ calls irq ent ∷ lets_interrupts ∷ events
called false irq ent events = calls irq ent ∷ events

-- The answer is given where the handler runs.
abbrev pub at_call : Bool → List Event → List Event
at_call true events = lets_interrupts ∷ events
at_call false events = events

-- the loop over the handlers of a line, and whether one has handled the interrupt
unfoldable pub call_handlers : Answers → Bool → ℕ → List Handler → List Event → Bool × List Event
call_handlers answers nestable irq [] events = (false, events)
call_handlers answers nestable irq (ent ∷ rest) events =
    let further = call_handlers answers nestable irq rest (called nestable irq ent events) in
    if answers.handles (at_call nestable events) irq ent
    then (true, called nestable irq ent events)
    else further

-- with CONFIG_HAL, where interrupts must be off
unfoldable pub invoke_irq_handler : Answers → ℕ → IrqInfo → Option (Rc (Unit {0}) × IrqInfo)
invoke_irq_handler answers i inf =
    let irqline = inf.irqs i in
    let got = irqline_get i inf in
    let result =
      call_handlers answers (is_nestable irqline.attr) irqline.irq irqline.handlers inf.events in
    if not (ltb irqline.irq nr_irqs)
    then none
    else if inf.interrupts
    then none
    else if not got.0
    then some (fail enoent, inf)
    else irqline_put answers i (record got.1 { events = result.1 }) >>= λ (last, inf).
        some (if result.0 then done tt else fail esrch, inf)

-- Before the handlers: lower priorities are masked, or the line, and the interrupt is acknowledged.
unfoldable pub mask_lower : ℕ → IrqLine → IrqInfo → IrqInfo
mask_lower c irqline inf =
    if irq_ctrlr_ops_has_primask (inf.ctrlrs c)
    then happens (sets_priority c irqline.prio) inf
    else inf

unfoldable pub disable_line : ℕ → IrqLine → IrqInfo → IrqInfo
disable_line c irqline inf =
    if irq_ctrlr_ops_has_linemask (inf.ctrlrs c)
    then happens (disables_irq c irqline.irq) inf
    else inf

-- After them: back to the priority mask of before.
unfoldable pub enable_line : ℕ → IrqLine → IrqInfo → IrqInfo
enable_line c irqline inf =
    if irq_ctrlr_ops_has_linemask (inf.ctrlrs c)
    then happens (enables_irq c irqline.irq) inf
    else inf

unfoldable pub restore_priority : ℕ → ℕ → IrqInfo → IrqInfo
restore_priority c prio inf =
    if irq_ctrlr_ops_has_primask (inf.ctrlrs c) then happens (sets_priority c prio) inf else inf

abbrev pub or_esrch : Rc (Unit {0}) → Rc (Unit {0})
or_esrch (done _) = done tt
or_esrch (fail _) = fail esrch

-- after the handlers: the reference given back, the line and the priorities as before
unfoldable pub finish_line :
    Answers → ℕ → IrqLine → ℕ → ℕ → Rc (Unit {0}) × IrqInfo → Option (Rc (Unit {0}) × IrqInfo)
finish_line answers i irqline c prio (rc, inf) = irqline_put answers i inf >>= λ (last, inf).
    if lacks_enable (inf.ctrlrs c)
    then none
    else some (or_esrch rc, restore_priority c prio (enable_line c irqline inf))

-- with a reference taken, and the controller at hand
unfoldable pub serve_line : Answers → ℕ → IrqLine → IrqInfo → ℕ → Option (Rc (Unit {0}) × IrqInfo)
serve_line answers i irqline inf c =
    let before =
      happens (sends_eoi c irqline.irq) (disable_line c irqline (mask_lower c irqline inf)) in
    if not (irq_ctrlr_ops_is_valid (inf.ctrlrs c))
    then none
    else if lacks_disable (inf.ctrlrs c)
    then none
    else invoke_irq_handler answers i before
      >>= finish_line answers i irqline c (answers.priority inf.events c)

unfoldable pub handle_irq_line : Answers → ℕ → IrqInfo → Option (Rc (Unit {0}) × IrqInfo)
handle_irq_line answers i inf =
    let irqline = inf.irqs i in
    let got = irqline_get i inf in
    if not (ltb irqline.irq nr_irqs)
    then none
    else if not got.0
    then some (fail enoent, inf)
    else irqline.ctrlr >>= serve_line answers i irqline got.1

-- one line, with a reference taken and the controller at hand; `further` are the lines after it
unfoldable pub check_line :
    Answers → ℕ → IrqLine → IrqInfo → Option (Bool × IrqInfo) → ℕ → Option (Bool × IrqInfo)
check_line answers i irqline inf further c =
    if not (irq_ctrlr_ops_is_valid (inf.ctrlrs c))
    then none
    else if answers.is_pending inf.events c irqline.irq irqline.prio
    then handle_irq_line answers i inf
      >>= (λ r. irqline_put answers i r.1 >>= λ put. some (true, put.1))
    else further

-- The loop of `irq_handle_irq` over the lines, the last in the tree first: whether one was pending.
unfoldable pub check_lines : Answers → List ℕ → IrqInfo → Option (Bool × IrqInfo)
check_lines answers [] inf = some (false, inf)
check_lines answers (i ∷ rest) inf =
    let got = irqline_get i inf in
    let skipped = check_lines answers rest inf in
    let further = irqline_put answers i got.1 >>= λ r. check_lines answers rest r.1 in
    if not got.0
    then skipped
    else (inf.irqs i).ctrlr >>= check_line answers i (inf.irqs i) got.1 further

abbrev pub reversed : List ℕ → List ℕ
reversed [] = []
reversed (x ∷ xs) = reversed xs ++ x ∷ []

unfoldable pub irq_handle_irq : Answers → IrqInfo → Option (Rc (Unit {0}) × IrqInfo)
irq_handle_irq answers inf = check_lines answers (reversed inf.prio_que) inf >>= λ (is_found, inf).
    some (if is_found then done tt else fail esrch, inf)
