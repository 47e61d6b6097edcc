-- ===== src/Irq/Tests.antt =====
-- Lines 1 and 2 of the controller at 1000, in the tree with priorities 5 and 3; line 3 has no handler yet.
use native.Mathlib.Decide.{ℕ_discrete}
use risc_v_workshop.Prelude.{
  sym, ap, ◌∙◌, value_or, ℕ, ◌≡◌, ◌⊎◌, ◌↔◌, ◌≤◌, ◌≢◌, refl, subst, arith, Bool, Bool-cases, inl,
  inr, true, false, ◌||◌, ◌==◌, if◌then◌else◌, Option, none, some, List, [], ◌∷◌, ◌++◌, All, has,
  has-append, Distinct, Distinct-snoc, done, fail, esrch, Ensures,
}
use risc_v_workshop.Irq.{
  IrqLine, IrqCtrlr, LinePlace, place_before, place_same, place_after, Answers, IrqInfo,
  irq_line_cmp, irq_ctrlr_cmp_by_irq, find_ctrlr, irqline_get, irqline_put, sets_priority,
  lacks_enable, lacks_disable, enables_irq, calls, sends_eoi, disables_irq,
}
use risc_v_workshop.Irq.Handle.{
  irq_handle_irq, check_lines, check_line, handle_irq_line, serve_line, mask_lower, disable_line,
  invoke_irq_handler, finish_line, enable_line, restore_priority, call_handlers,
}
use risc_v_workshop.Irq.Reached.{
  Reached, started, HasLineOps, then_called, registers, registers_ctrlr, Reached-safe,
}
use risc_v_workshop.Irq.Handle.Borrow.{IsLive}
use risc_v_workshop.Irq.Handle.Served.{
  Served, IsPending, Scanned, handled_irq, irq_handle_irq-Scanned,
}
use risc_v_workshop.Irq.Handle.Priority.{Yields, irq_handle_irq-lowest}
use risc_v_workshop.Irq.Register.{
  irq_register_handler, irq_unregister_handler, overlaps, irq_register_ctrlr, irq_unregister_ctrlr,
  irq_init, initialized_ctrlr, register_at, prepare_line, init_line, add_handler, configured_line,
}
use risc_v_workshop.Irq.Register.Invariant.{IsUsed, IsConsistent, Inserts}
use risc_v_workshop.Irq.Register.Unlinked.{UnregisterOutcome}
use risc_v_workshop.Irq.Register.Unregistered.{irq_unregister_handler-Outcome}
use risc_v_workshop.Irq.Register.Ranges.{Shares, overlaps_iff}
use risc_v_workshop.Irq.Register.Registered.{RegisterOutcome, irq_register_handler-Outcome}

abbrev is_same : LinePlace → Bool
is_same place_before = false
is_same place_same = true
is_same place_after = false

abbrev any_same : (ℕ → ℕ → LinePlace) → ℕ → List ℕ → Bool
any_same cmp i [] = false
any_same cmp i (e ∷ rest) = is_same (cmp i e) || any_same cmp i rest

abbrev insert_last : (ℕ → ℕ → LinePlace) → ℕ → List ℕ → Option (List ℕ)
insert_last cmp i lines = if any_same cmp i lines then none else some (lines ++ i ∷ [])

is_same-eq : (p : LinePlace) → is_same p ≡ true → p ≡ place_same
is_same-eq place_before e = absurd (ground arith)
is_same-eq place_same e = refl
is_same-eq place_after e = absurd (ground arith)

any_same-found :
    (cmp : ℕ → ℕ → LinePlace) (i : ℕ) (lines : List ℕ)
    → any_same cmp i lines ≡ true
    → (e : ℕ) × (has e lines ≡ true) × (cmp i e ≡ place_same)
unfolding has
any_same-found cmp i [] e = absurd (ground arith)
any_same-found cmp i (x ∷ rest) e = elim (Bool-cases (is_same (cmp i x))) [
  | inl s ↦ (x, ground arith, is_same-eq _ s)
  | inr s ↦ let f = any_same-found cmp i rest (ground arith) in (f.0, ground (arith, f.1), f.2)
]

not_inserted :
    (cmp : ℕ → ℕ → LinePlace) (i : ℕ) (lines : List ℕ)
    → insert_last cmp i lines ≡ none
    → any_same cmp i lines ≡ true
not_inserted cmp i lines e = ground (arith, e)

inserted :
    (cmp : ℕ → ℕ → LinePlace) (i : ℕ) (lines tree : List ℕ)
    → insert_last cmp i lines ≡ some tree
    → lines ++ i ∷ [] ≡ tree
inserted cmp i lines tree e = elim (Bool-cases (any_same cmp i lines)) [
  | inl s ↦ absurd (ground (arith, s, e))
  | inr s ↦
      let new : insert_last cmp i lines ≡ some (lines ++ i ∷ []) = rw s refl in
      ap (value_or []) (sym new ∙ e)
]

abbrev some_answers : Answers
some_answers = record {
  is_pending = λ events c irq prio. true;
  handles = λ events irq hdlr. hdlr.handler == 101;
  priority = λ events c. 0;
  config = λ events c irq attr prio. none;
  initialization = λ events c. none;
  entry = true;
  insert = insert_last;
}

some_answers-Inserts : Inserts some_answers
unfolding has
some_answers-Inserts = record {
  found = λ cmp i lines e. any_same-found cmp i lines (not_inserted cmp i lines e);
  added = λ cmp i lines tree e p.
      subst (λ t. has p t ≡ (has p lines || i == p)) (inserted cmp i lines tree e)
        (ground (arith, has-append p lines (i ∷ [])));
  distinct = λ cmp i lines tree e out d.
      subst Distinct (inserted cmp i lines tree e) (Distinct-snoc i lines d out);
}

abbrev some_ctrlr : IrqCtrlr
some_ctrlr = record {
  min_irq = 0;
  max_irq = 32;
  nr_handlers = 0;
  config_irq = true;
  irq_is_pending = true;
  enable_irq = true;
  disable_irq = true;
  get_priority = true;
  set_priority = true;
  eoi = true;
  initialize = true;
  finalize = true;
}

abbrev some_lines : ℕ → IrqLine
some_lines i =
    if i == 1
    then record {
      refs = 1;
      irq = 1;
      prio = 5;
      attr = 2;
      handlers = record { handler = 100; private = 0 } ∷ record { handler = 101; private = 7 } ∷ [];
      ctrlr = some 1000;
    }
    else if i == 2
    then record {
      refs = 1;
      irq = 2;
      prio = 3;
      attr = 0;
      handlers = record { handler = 102; private = 0 } ∷ [];
      ctrlr = some 1000;
    }
    else record { refs = 0; irq = i; prio = 0; attr = 0; handlers = []; ctrlr = none }

abbrev some_info : IrqInfo
some_info = record {
  prio_que = 1 ∷ 2 ∷ [];
  ctrlr_que = 1000 ∷ [];
  irqs = some_lines;
  ctrlrs = λ c. some_ctrlr;
  events = [];
  interrupts = false;
}

line_1-IsLive : IsLive some_info 1
line_1-IsLive = record {
  referenced = omega arith;
  number = omega arith;
  at = 1000;
  ctrlr = refl;
  valid = refl;
  enables = refl;
  disables = refl;
  quiet = refl;
}

line_2-IsLive : IsLive some_info 2
line_2-IsLive = record {
  referenced = omega arith;
  number = omega arith;
  at = 1000;
  ctrlr = refl;
  valid = refl;
  enables = refl;
  disables = refl;
  quiet = refl;
}

irq_handle_irq-Scanned_example :
    Scanned some_answers some_info
      (2 ∷ 1 ∷ [])
      (some (fail esrch, some_info))
      handled_irq
      (irq_handle_irq some_answers some_info)
irq_handle_irq-Scanned_example =
    irq_handle_irq-Scanned some_answers some_info (line_1-IsLive, (line_2-IsLive, tt))

irq_handle_irq-lowest_example :
    (All (λ j. IsPending some_answers some_info j false) (1 ∷ 2 ∷ [])
      × (irq_handle_irq some_answers some_info ≡ some (fail esrch, some_info)))
    ⊎ ((i : ℕ) × (c : ℕ) × (after : IrqInfo) × (has i (1 ∷ 2 ∷ []) ≡ true)
        × ((some_lines i).ctrlr ≡ some c)
        × (some_answers.is_pending [] c (some_lines i).irq (some_lines i).prio ≡ true)
        × Served some_answers some_info i c after
        × (irq_handle_irq some_answers some_info ≡ some (done tt, after))
        × All (Yields some_answers some_info i) (1 ∷ 2 ∷ []))
unfolding irq_line_cmp
irq_handle_irq-lowest_example =
    irq_handle_irq-lowest some_answers some_info (line_1-IsLive, (line_2-IsLive, tt))
      ((refl, tt), (tt, tt))

some_info-IsConsistent : IsConsistent some_info
unfolding has
some_info-IsConsistent = record {
  distinct = (refl, (refl, tt));
  used = λ i m. elim (ℕ_discrete 1 i) [
    | yes q ↦
        subst (λ k. IsUsed some_info.ctrlrs k (some_lines k)) q
          (record {
            once = refl;
            number = refl;
            below = omega arith;
            handled = refl;
            at = 1000;
            ctrlr = refl;
            valid = refl;
          })
    | no d ↦
        let q : 2 ≡ i = ground (arith, m) in
        subst (λ k. IsUsed some_info.ctrlrs k (some_lines k)) q
          (record {
            once = refl;
            number = refl;
            below = omega arith;
            handled = refl;
            at = 1000;
            ctrlr = refl;
            valid = refl;
          })
  ];
  unused = λ i b m. ground (arith, m);
  valid = λ c m. refl;
}

irq_register_handler-Outcome_example :
    RegisterOutcome some_answers some_info 3 0 4
      (record { handler = 103; private = 0 })
      (irq_register_handler some_answers 3 0 4 (record { handler = 103; private = 0 }) some_info)
irq_register_handler-Outcome_example =
    irq_register_handler-Outcome some_answers some_answers-Inserts some_info some_info-IsConsistent
      3 0 4 (record { handler = 103; private = 0 })

irq_unregister_handler-Outcome_example :
    UnregisterOutcome some_info 2 102 (irq_unregister_handler some_answers 2 102 some_info)
irq_unregister_handler-Outcome_example =
    irq_unregister_handler-Outcome some_answers some_info some_info-IsConsistent 2 102

-- a controller of the last eight of the numbers of the other
abbrev last_numbers : IrqCtrlr
last_numbers = record some_ctrlr { min_irq = 24 }

overlaps_iff_example :
    (overlaps last_numbers some_ctrlr ≡ true)
    ↔ (Shares last_numbers some_ctrlr × ((24 ≤ 0) ⊎ (last_numbers.max_irq ≢ some_ctrlr.max_irq)))
overlaps_iff_example = overlaps_iff last_numbers some_ctrlr (omega arith) (omega arith)

-- They share numbers, and the test does not find it.
last_numbers-found : overlaps last_numbers some_ctrlr ≡ false
unfolding overlaps
last_numbers-found = refl

-- The number behind the last one stops the search.
number_behind : find_ctrlr (λ c. some_ctrlr) 32 (1000 ∷ []) ≡ none
unfolding find_ctrlr irq_ctrlr_cmp_by_irq
number_behind = refl

serves_line_2 :
    Ensures
      (λ r.
        r.1.events
        ≡ sets_priority 1000 0
          ∷ enables_irq 1000 2
          ∷ calls 2 (record { handler = 102; private = 0 })
          ∷ sends_eoi 1000 2
          ∷ disables_irq 1000 2
          ∷ sets_priority 1000 3
          ∷ [])
      (irq_handle_irq some_answers some_info)
unfolding irq_handle_irq check_lines irqline_get check_line handle_irq_line serve_line mask_lower
    lacks_enable lacks_disable disable_line invoke_irq_handler call_handlers irqline_put finish_line
    enable_line restore_priority
serves_line_2 = refl

-- the controller and a handler registered after the start
abbrev with_ctrlr : IrqInfo
with_ctrlr = (irq_register_ctrlr some_answers 1000 (irq_init some_info)).1

abbrev with_timer : IrqInfo
with_timer =
    (value_or (done tt, some_info)
      (irq_register_handler some_answers 3 0 4 (record { handler = 103; private = 0 })
        with_ctrlr)).1

with_timer-Reached : Reached with_timer
unfolding irq_register_handler irq_register_ctrlr irq_init has find_ctrlr initialized_ctrlr
    irq_ctrlr_cmp_by_irq register_at prepare_line init_line add_handler configured_line
with_timer-Reached =
    then_called some_answers with_ctrlr with_timer some_answers-Inserts
      (then_called some_answers (irq_init some_info) with_ctrlr some_answers-Inserts
        (started some_info) (registers_ctrlr 1000))
      (registers 3 0 4 (record { handler = 103; private = 0 }) (done tt) with_timer refl)

with_timer-off : with_timer.interrupts ≡ false
unfolding irq_register_handler irq_register_ctrlr irq_init has find_ctrlr initialized_ctrlr
    irq_ctrlr_cmp_by_irq register_at prepare_line init_line add_handler configured_line
with_timer-off = refl

with_timer-ops : HasLineOps with_timer
unfolding irq_register_handler irq_register_ctrlr irq_init has find_ctrlr initialized_ctrlr
    irq_ctrlr_cmp_by_irq register_at prepare_line init_line add_handler configured_line
with_timer-ops c = elim (ℕ_discrete 1000 c) [
  | yes e ↦
      subst
        (λ k.
          ((with_timer.ctrlrs k).enable_irq ≡ true) × ((with_timer.ctrlrs k).disable_irq ≡ true))
        e (refl, refl)
  | no d ↦ ground arith
]

Reached-safe_example :
    IsConsistent with_timer
    × Ensures (λ r. IsConsistent r.1) (irq_handle_irq some_answers with_timer)
    × Ensures IsConsistent (irq_unregister_ctrlr 1000 with_timer)
Reached-safe_example =
    Reached-safe with_timer some_answers 1000 with_timer-Reached with_timer-off with_timer-ops
