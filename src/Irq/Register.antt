-- ===== src/Irq/Register.antt =====
-- Registering and taking back handlers and controllers, kern/irq.c. `slab_kmem_cache_alloc` answers
-- whether there is a handler entry.
pub mod Invariant
pub mod Search
pub mod Prepared
pub mod Registered
pub mod Unlinked
pub mod Unregistered
pub mod Ranges
pub mod Ctrlrs
use risc_v_workshop.Prelude.{
  ℕ, zero, suc, ◌+◌, ◌^◌, Bool, true, false, not, ◌&&◌, ◌||◌, ltb, leb, ◌==◌, if◌then◌else◌, Option,
  none, some, List, [], ◌∷◌, ◌++◌, has, remove, is_empty, update, sub64, Rc, done, fail, Errno,
  einval, enoent, ebusy, ◌>>=◌,
}
use risc_v_workshop.Irq.{
  Handler, IrqLine, IrqCtrlr, Answers, IrqInfo, configures, initializes, finalizes, nr_irqs,
  irq_ctrlr_ops_is_valid, is_exclusive, trigger, happens, set_line, irq_line_cmp, find_ctrlr,
  irqline_put,
}

-- what an existing line does not allow
unfoldable pub refused : IrqLine → ℕ → ℕ → Option Errno
refused irqline attr prio =
    if not (trigger irqline.attr == trigger attr) || not (irqline.prio == prio)
    then some einval
    else if is_exclusive irqline.attr || is_exclusive attr
    then some ebusy
    else none

unfoldable pub configured_line :
    ℕ → ℕ → ℕ → ℕ → IrqInfo → List ℕ → Option Errno → Rc (Unit {0}) × IrqInfo
configured_line c irq attr prio inf prio_que (some rc) =
    (fail rc, record (happens (configures c irq attr prio) inf) { prio_que = remove irq prio_que })
configured_line c irq attr prio inf prio_que none = (
  done tt,
  set_line irq
      (record (inf.irqs irq) { irq = irq; attr = attr; prio = prio; ctrlr = some c; refs = 1 })
      (record (happens (configures c irq attr prio) inf) { prio_que = prio_que }),
)

-- The first handler of a line: it goes into the tree, where it must compare equal to no other.
unfoldable pub init_line : Answers → ℕ → ℕ → ℕ → ℕ → IrqInfo → Option (Rc (Unit {0}) × IrqInfo)
init_line answers c irq attr prio inf =
    answers.insert (λ i j. irq_line_cmp (inf.irqs i) (inf.irqs j)) irq inf.prio_que >>= λ prio_que.
    some (configured_line c irq attr prio inf prio_que (answers.config inf.events c irq attr prio))

unfoldable pub prepare_line : Answers → ℕ → ℕ → ℕ → ℕ → IrqInfo → Option (Rc (Unit {0}) × IrqInfo)
prepare_line answers c irq attr prio inf =
    if is_empty (inf.irqs irq).handlers
    then init_line answers c irq attr prio inf
    else elim (refused (inf.irqs irq) attr prio) [
      | none ↦ some (done tt, inf)
      | some rc ↦ some (fail rc, inf)
    ]

-- with the controller of the line, which must be the one that was found
unfoldable pub add_at : Answers → ℕ → ℕ → Handler → IrqInfo → ℕ → Option (Rc (Unit {0}) × IrqInfo)
add_at answers c irq hdlr inf d =
    let irqline = inf.irqs irq in
    if not (d == c)
    then none
    else if not answers.entry
    then none
    else some
        (done tt, set_line irq (record irqline { handlers = irqline.handlers ++ hdlr ∷ [] }) inf)

unfoldable pub add_handler :
    Answers → ℕ → ℕ → Handler → Rc (Unit {0}) × IrqInfo → Option (Rc (Unit {0}) × IrqInfo)
unfolding add_at
add_handler answers c irq hdlr (fail rc, inf) = some (fail rc, inf)
add_handler answers c irq hdlr (done _, inf) =
    (inf.irqs irq).ctrlr >>= add_at answers c irq hdlr inf

unfoldable pub register_at :
    Answers → ℕ → ℕ → ℕ → Handler → IrqInfo → Option ℕ → Option (Rc (Unit {0}) × IrqInfo)
register_at answers irq attr prio hdlr inf none = some (fail enoent, inf)
register_at answers irq attr prio hdlr inf (some c) =
    prepare_line answers c irq attr prio inf >>= add_handler answers c irq hdlr

unfoldable pub irq_register_handler :
    Answers → ℕ → ℕ → ℕ → Handler → IrqInfo → Option (Rc (Unit {0}) × IrqInfo)
irq_register_handler answers irq attr prio hdlr inf =
    if leb nr_irqs irq
    then some (fail einval, inf)
    else find_ctrlr inf.ctrlrs irq inf.ctrlr_que >>= register_at answers irq attr prio hdlr inf

abbrev pub has_handler : ℕ → List Handler → Bool
has_handler h [] = false
has_handler h (x ∷ xs) = h == x.handler || has_handler h xs

abbrev pub remove_handler : ℕ → List Handler → List Handler
remove_handler h [] = []
remove_handler h (x ∷ xs) = if h == x.handler then xs else x ∷ remove_handler h xs

-- with the entry found: it leaves the line, which is given back with its last handler
unfoldable pub unlink_handler : Answers → ℕ → ℕ → ℕ → IrqInfo → Option (Rc (Unit {0}) × IrqInfo)
unlink_handler answers c irq handler inf =
    let irqline = inf.irqs irq in
    let ctrlr = inf.ctrlrs c in
    let rest = remove_handler handler irqline.handlers in
    let counted = update inf.ctrlrs c (record ctrlr { nr_handlers = sub64 ctrlr.nr_handlers 1 }) in
    let unlinked = record (set_line irq (record irqline { handlers = rest }) inf) {
      ctrlrs = counted;
    } in
    if not (irq_ctrlr_ops_is_valid ctrlr)
    then none
    else if is_empty rest
    then irqline_put answers irq unlinked >>= (λ put. some (done tt, put.1))
    else some (done tt, unlinked)

-- with the controller of the line, which has been registered for at some time
unfoldable pub unregister_at : Answers → ℕ → ℕ → IrqInfo → ℕ → Option (Rc (Unit {0}) × IrqInfo)
unregister_at answers irq handler inf c =
    if not (has_handler handler (inf.irqs irq).handlers)
    then some (fail enoent, inf)
    else unlink_handler answers c irq handler inf

unfoldable pub irq_unregister_handler : Answers → ℕ → ℕ → IrqInfo → Option (Rc (Unit {0}) × IrqInfo)
irq_unregister_handler answers irq handler inf =
    if leb nr_irqs irq
    then some (fail einval, inf)
    else (inf.irqs irq).ctrlr >>= unregister_at answers irq handler inf

-- the test of two ranges of interrupt numbers
unfoldable pub overlaps : IrqCtrlr → IrqCtrlr → Bool
overlaps ctrlr found =
    (leb ctrlr.min_irq found.min_irq && ltb found.min_irq ctrlr.max_irq)
    || (ltb ctrlr.min_irq found.max_irq && ltb found.max_irq ctrlr.max_irq)
    || (leb ctrlr.min_irq found.min_irq && ltb found.max_irq ctrlr.max_irq)
    || (leb found.min_irq ctrlr.min_irq && ltb ctrlr.max_irq found.max_irq)

abbrev pub overlaps_any : IrqCtrlr → (ℕ → IrqCtrlr) → List ℕ → Bool
overlaps_any ctrlr ctrlrs [] = false
overlaps_any ctrlr ctrlrs (c ∷ rest) = overlaps ctrlr (ctrlrs c) || overlaps_any ctrlr ctrlrs rest

-- what the controller's own initialisation gives
unfoldable pub initialized_ctrlr : ℕ → IrqInfo → Option Errno → Rc (Unit {0}) × IrqInfo
initialized_ctrlr c inf (some rc) = (fail rc, happens (initializes c) inf)
initialized_ctrlr c inf none = (
  done tt,
  record (happens (initializes c) inf) {
    ctrlrs = update inf.ctrlrs c (record (inf.ctrlrs c) { nr_handlers = 0 });
    ctrlr_que = inf.ctrlr_que ++ c ∷ [];
  },
)

unfoldable pub irq_register_ctrlr : Answers → ℕ → IrqInfo → Rc (Unit {0}) × IrqInfo
irq_register_ctrlr answers c inf =
    if not (irq_ctrlr_ops_is_valid (inf.ctrlrs c))
    then (fail einval, inf)
    else if has c inf.ctrlr_que
    then (fail ebusy, inf)
    else if overlaps_any (inf.ctrlrs c) inf.ctrlrs inf.ctrlr_que
    then (fail ebusy, inf)
    else initialized_ctrlr c inf (answers.initialization inf.events c)

-- a counter above 0, as a signed one
abbrev pub is_positive : ℕ → Bool
is_positive count = ltb 0 count && ltb count (2 ^ 63)

unfoldable pub irq_unregister_ctrlr : ℕ → IrqInfo → Option IrqInfo
irq_unregister_ctrlr c inf =
    if is_positive (inf.ctrlrs c).nr_handlers
    then some inf
    else if not (has c inf.ctrlr_que)
    then some inf
    else if not (inf.ctrlrs c).finalize
    then none
    else some (happens (finalizes c) (record inf { ctrlr_que = remove c inf.ctrlr_que }))

-- the loop over the lines at the start; their counters are left alone
unfoldable pub irq_init : IrqInfo → IrqInfo
irq_init inf = record inf {
  prio_que = [];
  ctrlr_que = [];
  irqs = λ i.
      if ltb i nr_irqs
      then record {
        refs = (inf.irqs i).refs;
        irq = i;
        attr = 0;
        prio = 0;
        handlers = [];
        ctrlr = none;
      }
      else inf.irqs i;
}
