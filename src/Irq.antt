-- ===== src/Irq.antt =====
-- Interrupt lines, their handlers and controllers: kern/irq.c, include/kern/irq-if.h. A line goes by its
-- number, a controller and a handler by its address. What the code asks of controllers and handlers is
-- answered by `Answers`, from what has been done to them so far, the `Event`s, the last one first.
pub mod Handle
pub mod Register
pub mod Reached
mod Tests
use risc_v_workshop.Prelude.{
  ℕ, zero, suc, ◌+◌, ◌-◌, ◌*◌, ◌/◌, ◌%◌, ◌^◌, Bool, true, false, not, ◌&&◌, ◌||◌, ltb, leb, ◌==◌,
  if◌then◌else◌, Option, none, some, List, [], ◌∷◌, ◌++◌, has, remove, is_empty, update, sub64, Rc,
  done, fail, Errno, einval, enoent, ebusy, esrch, ◌>>=◌,
}

pub record Handler : Type 0 where
  pub handler : ℕ
  pub private : ℕ

pub record IrqLine : Type 0 where
  pub refs : ℕ
  pub irq : ℕ
  pub prio : ℕ
  pub attr : ℕ
  pub handlers : List Handler
  pub ctrlr : Option ℕ

-- Of the operations, whether they are there. `nr_handlers` is the word of a signed 64-bit counter.
pub record IrqCtrlr : Type 0 where
  pub min_irq : ℕ
  pub max_irq : ℕ
  pub nr_handlers : ℕ
  pub config_irq : Bool
  pub irq_is_pending : Bool
  pub enable_irq : Bool
  pub disable_irq : Bool
  pub get_priority : Bool
  pub set_priority : Bool
  pub eoi : Bool
  pub initialize : Bool
  pub finalize : Bool

pub data Event : Type 0 where
  sets_priority : ℕ → ℕ → Event
  disables_irq : ℕ → ℕ → Event
  enables_irq : ℕ → ℕ → Event
  sends_eoi : ℕ → ℕ → Event
  configures : ℕ → ℕ → ℕ → ℕ → Event
  initializes : ℕ → Event
  finalizes : ℕ → Event
  lets_interrupts : Event
  stops_interrupts : Event
  calls : ℕ → Handler → Event

pub data LinePlace : Type 0 where
  place_before place_same place_after : LinePlace

-- `insert` is RB_INSERT, on the lines of the tree in order: `none` if one compares equal. `entry` is
-- whether a handler entry can be allocated.
pub record Answers : Type 0 where
  pub is_pending : List Event → ℕ → ℕ → ℕ → Bool
  pub handles : List Event → ℕ → Handler → Bool
  pub priority : List Event → ℕ → ℕ
  pub config : List Event → ℕ → ℕ → ℕ → ℕ → Option Errno
  pub initialization : List Event → ℕ → Option Errno
  pub entry : Bool
  pub insert : (ℕ → ℕ → LinePlace) → ℕ → List ℕ → Option (List ℕ)

-- `interrupts` is whether the processor accepts interrupts.
pub record IrqInfo : Type 0 where
  pub prio_que : List ℕ
  pub ctrlr_que : List ℕ
  pub irqs : ℕ → IrqLine
  pub ctrlrs : ℕ → IrqCtrlr
  pub events : List Event
  pub interrupts : Bool

abbrev pub nr_irqs : ℕ
nr_irqs = 256

abbrev pub irq_ctrlr_ops_has_linemask : IrqCtrlr → Bool
irq_ctrlr_ops_has_linemask ctrlr = ctrlr.config_irq && ctrlr.irq_is_pending

-- The code calls enable_irq and disable_irq where the two operations of IRQ_CTRLR_OPS_HAS_LINEMASK are
-- there: a call through NULL if they are not there themselves.
unfoldable pub lacks_enable : IrqCtrlr → Bool
lacks_enable ctrlr = irq_ctrlr_ops_has_linemask ctrlr && not ctrlr.enable_irq

unfoldable pub lacks_disable : IrqCtrlr → Bool
lacks_disable ctrlr = irq_ctrlr_ops_has_linemask ctrlr && not ctrlr.disable_irq

abbrev pub irq_ctrlr_ops_has_primask : IrqCtrlr → Bool
irq_ctrlr_ops_has_primask ctrlr = ctrlr.get_priority && ctrlr.set_priority

abbrev pub irq_ctrlr_ops_is_valid : IrqCtrlr → Bool
irq_ctrlr_ops_is_valid ctrlr =
    ctrlr.config_irq
    && ctrlr.irq_is_pending
    && (irq_ctrlr_ops_has_linemask ctrlr || irq_ctrlr_ops_has_primask ctrlr)
    && ctrlr.eoi
    && ctrlr.initialize
    && ctrlr.finalize

-- IRQ_ATTR_EXCLUSIVE, IRQ_ATTR_NESTABLE and IRQ_ATTR_TRIGGER_MASK
abbrev pub is_exclusive : ℕ → Bool
is_exclusive attr = attr % 2 == 1

abbrev pub is_nestable : ℕ → Bool
is_nestable attr = attr / 2 % 2 == 1

abbrev pub trigger : ℕ → ℕ
trigger attr = attr / 16 % 16

abbrev pub set_line : ℕ → IrqLine → IrqInfo → IrqInfo
set_line irq irqline inf = record inf { irqs = update inf.irqs irq irqline }

unfoldable pub irq_line_cmp : IrqLine → IrqLine → LinePlace
irq_line_cmp key ent =
    if ltb ent.prio key.prio
    then place_before
    else if ltb key.prio ent.prio
    then place_after
    else place_same

-- `none` where the assertion fails
unfoldable pub irq_ctrlr_cmp_by_irq : ℕ → IrqCtrlr → Option LinePlace
irq_ctrlr_cmp_by_irq irq ent =
    if ltb irq ent.min_irq
    then some place_before
    else if ltb ent.max_irq irq
    then some place_after
    else if leb ent.min_irq irq && ltb irq ent.max_irq
    then some place_same
    else none

-- the controller of an interrupt number, by queue_find_element
unfoldable pub find_ctrlr : (ℕ → IrqCtrlr) → ℕ → List ℕ → Option (Option ℕ)
find_ctrlr ctrlrs irq [] = some none
find_ctrlr ctrlrs irq (c ∷ rest) =
    let further = find_ctrlr ctrlrs irq rest in
    irq_ctrlr_cmp_by_irq irq (ctrlrs c) >>= λ place. elim place [
      | place_before ↦ further
      | place_same ↦ some (some c)
      | place_after ↦ further
    ]

abbrev pub happens : Event → IrqInfo → IrqInfo
happens event inf = record inf { events = event ∷ inf.events }

-- whether there was a reference to take, which leaves none to a line that is being released
unfoldable pub irqline_get : ℕ → IrqInfo → Bool × IrqInfo
irqline_get i inf =
    let irqline = inf.irqs i in
    if irqline.refs == 0
    then (false, inf)
    else (true, set_line i (record irqline { refs = irqline.refs + 1 }) inf)

-- the line masked at its controller, when its last reference is given back
unfoldable pub mask_primask : Answers → ℕ → IrqLine → IrqInfo → IrqInfo
mask_primask answers c irqline inf =
    if irq_ctrlr_ops_has_primask (inf.ctrlrs c) && ltb (answers.priority inf.events c) irqline.prio
    then happens (sets_priority c irqline.prio) inf
    else inf

unfoldable pub mask_line : ℕ → ℕ → IrqInfo → IrqInfo
mask_line c irq inf =
    if irq_ctrlr_ops_has_linemask (inf.ctrlrs c) then happens (disables_irq c irq) inf else inf

-- Whether the reference was the last one, with the controller at hand; `none` if an assertion fails or
-- the operation to mask the line is not there.
unfoldable pub put_at : Answers → ℕ → IrqInfo → ℕ → Option (Bool × IrqInfo)
put_at answers i inf c =
    let irqline = inf.irqs i in
    let returned = set_line i (record irqline { refs = irqline.refs - 1 }) inf in
    let removed = record returned { prio_que = remove i inf.prio_que } in
    if not (irq_ctrlr_ops_is_valid (inf.ctrlrs c))
    then none
    else if irqline.refs == 0
    then none
    else if not (irqline.refs - 1 == 0)
    then some (false, returned)
    else if not (has i inf.prio_que)
    then none
    else if lacks_disable (inf.ctrlrs c)
    then none
    else some (true, mask_line c irqline.irq (mask_primask answers c irqline removed))

unfoldable pub irqline_put : Answers → ℕ → IrqInfo → Option (Bool × IrqInfo)
unfolding put_at
irqline_put answers i inf = (inf.irqs i).ctrlr >>= put_at answers i inf
