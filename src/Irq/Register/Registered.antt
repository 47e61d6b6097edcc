-- ===== src/Irq/Register/Registered.antt =====
-- What `irq_register_handler` of kern/irq.c does.
use native.Mathlib.Decide.{ℕ_discrete}
use risc_v_workshop.Prelude.{
  ℕ, ◌<◌, ◌≤◌, ◌≡◌, ◌≢◌, ◌⊎◌, ◌∙◌, refl, sym, ap, subst, arith, Bool-cases, inl, inr, true, false,
  ◌||◌, leb, ◌==◌, Option, none, some, List, [], ◌∷◌, ◌++◌, has, is_empty, update_same,
  update_other, value_or, Rc, done, fail, Errno, einval, enoent, ◌>>=◌,
}
use risc_v_workshop.Irq.{
  Handler, IrqLine, Answers, IrqInfo, nr_irqs, irq_ctrlr_ops_is_valid, is_exclusive, trigger,
  set_line,
}
use risc_v_workshop.Irq.Register.{add_at, add_handler, register_at, irq_register_handler}
use risc_v_workshop.Irq.Register.Invariant.{IsUsed, IsConsistent, Inserts}
use risc_v_workshop.Irq.Register.Search.{Found, find_ctrlr-Found}
use risc_v_workshop.Irq.Register.Prepared.{
  Prepared, Unchanged, LineRefuses, PreparedOutcome, prepare_line-PreparedOutcome,
}

-- A handler more on the line, behind those that it had; the others are as before. No controller counts it.
pub record Registered (before : IrqInfo) (irq attr prio : ℕ) (hdlr : Handler) (after : IrqInfo)
    : Type 0 where
  pub consistent : IsConsistent after
  pub handlers : (after.irqs irq).handlers ≡ (before.irqs irq).handlers ++ hdlr ∷ []
  pub priority : (after.irqs irq).prio ≡ prio
  pub same_trigger : trigger (after.irqs irq).attr ≡ trigger attr
  pub shared :
      is_empty (before.irqs irq).handlers ≡ false
      → (is_exclusive (after.irqs irq).attr || is_exclusive attr) ≡ false
  pub other : (j : ℕ) → irq ≢ j → after.irqs j ≡ before.irqs j
  pub tree : (p : ℕ) → has p after.prio_que ≡ (has p before.prio_que || irq == p)
  pub ctrlrs : after.ctrlrs ≡ before.ctrlrs
  pub ctrlr_que : after.ctrlr_que ≡ before.ctrlr_que

not_empty-append : {A : Type 0} (xs : List A) (x : A) → is_empty (xs ++ x ∷ []) ≡ false
not_empty-append [] x = refl
not_empty-append (y ∷ ys) x = refl

module _ (inf : IrqInfo) (h : IsConsistent inf) (irq attr prio c : ℕ) (below : irq < nr_irqs)
    (hdlr : Handler) (mid : IrqInfo) (m : Prepared inf irq attr prio c mid) where
  with_handler : IrqLine
  with_handler = record m.line { handlers = m.line.handlers ++ hdlr ∷ [] }

  with_handler-IsUsed : IsUsed mid.ctrlrs irq with_handler
  unfolding with_handler
  with_handler-IsUsed = record {
    once = m.once;
    number = m.number;
    below = below;
    handled = not_empty-append m.line.handlers hdlr;
    at = m.at;
    ctrlr = m.ctrlr;
    valid = subst (λ k. irq_ctrlr_ops_is_valid (k m.at) ≡ true) (sym m.ctrlrs) m.valid;
  }

  added : IrqInfo
  added = set_line irq with_handler mid

  added-Registered : Registered inf irq attr prio hdlr added
  unfolding added with_handler
  added-Registered =
      let here = update_same mid.irqs irq with_handler in
      let other : (j : ℕ) → irq ≢ j → added.irqs j ≡ inf.irqs j =
        λ j d. update_other mid.irqs irq j with_handler d ∙ m.other j d in
      record {
        consistent = record {
          distinct = m.distinct;
          used = λ i u. elim (ℕ_discrete irq i) [
            | yes q ↦
                subst (λ k. IsUsed mid.ctrlrs k (added.irqs k)) q
                  (subst (IsUsed mid.ctrlrs irq) (sym here) with_handler-IsUsed)
            | no d ↦
                subst (λ k. IsUsed k i (added.irqs i)) (sym m.ctrlrs)
                  (subst (IsUsed inf.ctrlrs i) (sym (other i d))
                    (h.used i (ground (arith, m.tree i))))
          ];
          unused = λ i b u.
              let d : irq ≢ i = ground (arith, m.tree i) in
              ap (λ l. is_empty l.handlers) (other i d) ∙ h.unused i b (ground (arith, m.tree i));
          valid = λ d u.
              ap (λ k. irq_ctrlr_ops_is_valid (k d)) m.ctrlrs
              ∙ h.valid d (sym (ap (has d) m.ctrlr_que) ∙ u);
        };
        handlers = ap (λ l. l.handlers) here ∙ ap (λ hs. hs ++ hdlr ∷ []) m.handlers;
        priority = ap (λ l. l.prio) here ∙ m.priority;
        same_trigger = ap (λ l. trigger l.attr) here ∙ m.same_trigger;
        shared = λ f. ap (λ l. is_exclusive l.attr || is_exclusive attr) here ∙ m.shared f;
        other = other;
        tree = m.tree;
        ctrlrs = m.ctrlrs;
        ctrlr_que = m.ctrlr_que;
      }

-- Why a registration stops at an assertion: the number is the `max_irq` of a controller, which is the
-- number behind its last one; a line in the tree has the priority that this one, without a handler, has
-- from before; there is no memory; or the line has a controller that no longer answers to its number.
abbrev pub Stopped : Answers → IrqInfo → ℕ → Type 0
Stopped answers inf irq =
    ((c : ℕ) × (has c inf.ctrlr_que ≡ true) × ((inf.ctrlrs c).max_irq ≡ irq))
    ⊎ (((is_empty (inf.irqs irq).handlers ≡ true)
          × (e : ℕ) × (has e inf.prio_que ≡ true)
          × ((inf.irqs e).prio ≡ (inf.irqs irq).prio))
        ⊎ ((answers.entry ≡ false)
            ⊎ ((is_empty (inf.irqs irq).handlers ≡ false)
                × (c : ℕ) × (has c inf.ctrlr_que ≡ true)
                × ((inf.irqs irq).ctrlr ≢ some c))))

-- Why it is refused, with which error.
abbrev pub Refused : Answers → IrqInfo → ℕ → ℕ → ℕ → Errno → Type 0
Refused answers inf irq attr prio rc =
    ((nr_irqs ≤ irq) × (rc ≡ einval))
    ⊎ ((((c : ℕ)
            → has c inf.ctrlr_que ≡ true
            → (irq < (inf.ctrlrs c).min_irq) ⊎ ((inf.ctrlrs c).max_irq < irq))
          × (rc ≡ enoent))
        ⊎ ((c : ℕ) × (has c inf.ctrlr_que ≡ true)
            × ((inf.ctrlrs c).min_irq ≤ irq)
            × (irq < (inf.ctrlrs c).max_irq)
            × LineRefuses answers inf irq attr prio c rc))

abbrev pub RegisterOutcome :
    Answers → IrqInfo → ℕ → ℕ → ℕ → Handler → Option (Rc (Unit {0}) × IrqInfo) → Type 0
RegisterOutcome answers inf irq attr prio hdlr none = Stopped answers inf irq
RegisterOutcome answers inf irq attr prio hdlr (some (fail rc, after)) =
    Unchanged inf after × Refused answers inf irq attr prio rc
RegisterOutcome answers inf irq attr prio hdlr (some (done _, after)) =
    Registered inf irq attr prio hdlr after

module _ (answers : Answers) (inf : IrqInfo) (h : IsConsistent inf) (irq attr prio c : ℕ)
    (below : irq < nr_irqs) (hdlr : Handler) (in_que : has c inf.ctrlr_que ≡ true)
    (range : ((inf.ctrlrs c).min_irq ≤ irq) × (irq < (inf.ctrlrs c).max_irq)) where
  other_ctrlr :
      (mid : IrqInfo) (m : Prepared inf irq attr prio c mid)
      → (m.at == c) ≡ false
      → Stopped answers inf irq
  other_ctrlr mid m q = elim (Bool-cases (is_empty (inf.irqs irq).handlers)) [
    | inl e ↦ absurd (ground (arith, q, m.new_at e))
    | inr e ↦ inr (
        inr (
          inr (
            e,
            c,
            in_que,
            λ same.
                let at : m.at ≡ c = ap (value_or 0) (sym (m.old_at e) ∙ same) in
                ground (arith, q, at),
          )))
  ]

  same_line :
      (mid : IrqInfo) (m : Prepared inf irq attr prio c mid)
      → set_line irq (record (mid.irqs irq) { handlers = (mid.irqs irq).handlers ++ hdlr ∷ [] }) mid
        ≡ added inf h irq attr prio c below hdlr mid m
  unfolding added with_handler
  same_line mid m =
      ap (λ l. set_line irq (record l { handlers = l.handlers ++ hdlr ∷ [] }) mid) m.here

  add_at-Outcome :
      (mid : IrqInfo) (m : Prepared inf irq attr prio c mid)
      → RegisterOutcome answers inf irq attr prio hdlr (add_at answers c irq hdlr mid m.at)
  unfolding add_at
  add_at-Outcome mid m = elim (Bool-cases (m.at == c)) [
    | inl q ↦ elim (Bool-cases answers.entry) [
      | inl e ↦
          rw (q, e)
            (subst (Registered inf irq attr prio hdlr) (sym (same_line mid m))
              (added-Registered inf h irq attr prio c below hdlr mid m))
      | inr e ↦ rw (q, e) (inr (inr (inl refl)))
    ]
    | inr q ↦ rw q (other_ctrlr mid m q)
  ]

  add_handler-Outcome :
      (r : Option (Rc (Unit {0}) × IrqInfo))
      → PreparedOutcome answers inf irq attr prio c r
      → RegisterOutcome answers inf irq attr prio hdlr (r >>= add_handler answers c irq hdlr)
  unfolding add_handler
  add_handler-Outcome none p = inr (inl p)
  add_handler-Outcome (some (fail rc, after)) p =
      (p.0, inr (inr (c, in_que, range.0, range.1, p.1)))
  add_handler-Outcome (some (done _, mid)) m =
      subst (RegisterOutcome answers inf irq attr prio hdlr)
        (sym (
          ap (λ l. l.ctrlr >>= add_at answers c irq hdlr mid) m.here
          ∙ ap (λ o. o >>= add_at answers c irq hdlr mid) m.ctrlr))
        (add_at-Outcome mid m)

module _ (answers : Answers) (contract : Inserts answers) (inf : IrqInfo) (h : IsConsistent inf)
    (irq attr prio : ℕ) (hdlr : Handler) where
  nothing_done : Unchanged inf inf
  nothing_done = record {
    consistent = h;
    irqs = refl;
    ctrlrs = refl;
    ctrlr_que = refl;
    tree = λ p. refl;
  }

  register_at-Outcome :
      (r : Option (Option ℕ))
      → irq < nr_irqs
      → Found inf.ctrlrs irq inf.ctrlr_que r
      → RegisterOutcome answers inf irq attr prio hdlr
          (r >>= register_at answers irq attr prio hdlr inf)
  unfolding register_at
  register_at-Outcome none below f = inl f
  register_at-Outcome (some none) below f = (nothing_done, inr (inl (f, refl)))
  register_at-Outcome (some (some c)) below f =
      add_handler-Outcome answers inf h irq attr prio c below hdlr f.0 (f.1, f.2) _
        (prepare_line-PreparedOutcome answers contract inf h irq attr prio c below (h.valid c f.0))

  -- Registering a handler, where the lines are consistent and RB_INSERT finds a line that compares
  -- equal or adds the line: if it succeeds, the line has the handler behind those it had, the priority
  -- and the trigger that were asked for, and is in the tree, the other lines and all controllers, so
  -- also their counts of handlers, are as before, and the lines are consistent. If it is refused, the
  -- lines and controllers are as before, and the error fits: the number is out of range, or no
  -- controller has it, or the line or the controller refuses it. It stops at an assertion only if the
  -- number is the `max_irq` of a controller, or the line has no handler and another one in the tree has
  -- the priority that this one has from before, or there is no memory, or the line is in use with a
  -- controller other than one that has the number.
  pub irq_register_handler-Outcome :
      RegisterOutcome answers inf irq attr prio hdlr
        (irq_register_handler answers irq attr prio hdlr inf)
  unfolding irq_register_handler
  irq_register_handler-Outcome = elim (Bool-cases (leb nr_irqs irq)) [
    | inl e ↦ rw e (nothing_done, inl (ground arith, refl))
    | inr e ↦
        rw e (register_at-Outcome _ (ground arith) (find_ctrlr-Found inf.ctrlrs irq inf.ctrlr_que))
  ]
