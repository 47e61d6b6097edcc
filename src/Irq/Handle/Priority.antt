-- ===== src/Irq/Handle/Priority.antt =====
-- The order in which `irq_handle_irq` of kern/irq.c looks at the lines.
use risc_v_workshop.Prelude.{
  ℕ, ◌<◌, ◌≡◌, ◌⊎◌, ◌∙◌, refl, true, false, has, has-append, sym, subst, arith, inl, inr, some,
  List, [], ◌∷◌, ◌++◌, All, All-append, All-map, done, fail, esrch,
}
use risc_v_workshop.Irq.{Answers, IrqInfo, IrqLine, place_before, irq_line_cmp}
use risc_v_workshop.Irq.Handle.{reversed, irq_handle_irq}
use risc_v_workshop.Irq.Handle.Borrow.{IsLive}
use risc_v_workshop.Irq.Handle.Served.{Served, IsPending, irq_handle_irq-Scanned}

-- the lines in the order of the tree: each one before those that follow
abbrev pub InOrder : IrqInfo → List ℕ → Type 0
InOrder inf [] = Unit
InOrder inf (i ∷ rest) =
    All (λ j. irq_line_cmp (inf.irqs i) (inf.irqs j) ≡ place_before) rest × InOrder inf rest

abbrev Rising : IrqInfo → List ℕ → Type 0
Rising inf [] = Unit
Rising inf (i ∷ rest) = All (λ j. (inf.irqs i).prio < (inf.irqs j).prio) rest × Rising inf rest

cmp-lt : (key ent : IrqLine) → irq_line_cmp key ent ≡ place_before → ent.prio < key.prio
unfolding irq_line_cmp
cmp-lt key ent e = ground (arith, e)

Rising-snoc :
    (inf : IrqInfo) (x : ℕ) (xs : List ℕ)
    → Rising inf xs
    → All (λ i. (inf.irqs i).prio < (inf.irqs x).prio) xs
    → Rising inf (xs ++ x ∷ [])
Rising-snoc inf x [] r h = (tt, tt)
Rising-snoc inf x (y ∷ ys) r h =
    (All-append _ ys (x ∷ []) r.0 (h.0, tt), Rising-snoc inf x ys r.1 h.1)

All-reversed : (P : ℕ → Type 0) (xs : List ℕ) → All P xs → All P (reversed xs)
All-reversed P [] h = tt
All-reversed P (x ∷ xs) h = All-append P (reversed xs) (x ∷ []) (All-reversed P xs h.1) (h.0, tt)

reversed-Rising : (inf : IrqInfo) (lines : List ℕ) → InOrder inf lines → Rising inf (reversed lines)
reversed-Rising inf [] h = tt
reversed-Rising inf (i ∷ rest) h =
    Rising-snoc inf i (reversed rest) (reversed-Rising inf rest h.1)
      (All-reversed _ rest (All-map _ _ rest (λ j e. cmp-lt (inf.irqs i) (inf.irqs j) e) h.0))

Rising-split :
    (inf : IrqInfo) (passed : List ℕ) (i : ℕ) (rest : List ℕ)
    → Rising inf (passed ++ i ∷ rest)
    → All (λ j. (inf.irqs i).prio < (inf.irqs j).prio) rest
Rising-split inf [] i rest r = r.0
Rising-split inf (p ∷ passed) i rest r = Rising-split inf passed i rest r.1

has-reversed : (p : ℕ) (xs : List ℕ) → has p (reversed xs) ≡ has p xs
unfolding has
has-reversed p [] = refl
has-reversed p (x ∷ xs) = ground (arith, has-append p (reversed xs) (x ∷ []), has-reversed p xs)

All-init : (P : ℕ → Type 0) (xs ys : List ℕ) → All P (xs ++ ys) → All P xs × All P ys
All-init P [] ys h = (tt, h)
All-init P (x ∷ xs) ys h = let t = All-init P xs ys h.1 in ((h.0, t.0), t.1)

All-forward : (P : ℕ → Type 0) (xs : List ℕ) → All P (reversed xs) → All P xs
All-forward P [] h = tt
All-forward P (x ∷ xs) h =
    let t = All-init P (reversed xs) (x ∷ []) h in (t.1.0, All-forward P xs t.0)

-- line `j` is the one served, is not pending, or has a higher priority
abbrev pub Yields : Answers → IrqInfo → ℕ → ℕ → Type 0
Yields answers inf i j =
    (j ≡ i) ⊎ IsPending answers inf j false ⊎ ((inf.irqs i).prio < (inf.irqs j).prio)

has_middle : (passed : List ℕ) (i : ℕ) (rest : List ℕ) → has i (passed ++ i ∷ rest) ≡ true
unfolding has
has_middle [] i rest = ground arith
has_middle (x ∷ passed) i rest = ground (arith, has_middle passed i rest)

-- Where interrupts are off, every line in the tree is in use, the operations of its controller are
-- there, those to mask a line too, and the tree is in the order of `irq_line_cmp`: either no line is
-- pending and the result is ESRCH, or a line of the tree that is pending is served, and each other line
-- of the tree is not pending or has a higher priority. So the pending line of the lowest priority is
-- served.
pub irq_handle_irq-lowest :
    (answers : Answers) (inf : IrqInfo)
    → All (IsLive inf) inf.prio_que
    → InOrder inf inf.prio_que
    → (All (λ j. IsPending answers inf j false) inf.prio_que
        × (irq_handle_irq answers inf ≡ some (fail esrch, inf)))
      ⊎ ((i : ℕ) × (c : ℕ) × (after : IrqInfo) × (has i inf.prio_que ≡ true)
          × ((inf.irqs i).ctrlr ≡ some c)
          × (answers.is_pending inf.events c (inf.irqs i).irq (inf.irqs i).prio ≡ true)
          × Served answers inf i c after
          × (irq_handle_irq answers inf ≡ some (done tt, after))
          × All (Yields answers inf i) inf.prio_que)
irq_handle_irq-lowest answers inf live order = elim (irq_handle_irq-Scanned answers inf live) [
  | inl (idle, result) ↦ inl (All-forward _ inf.prio_que idle, result)
  | inr (passed, i, rest, c, after, split, idle, at, pending, serving, result) ↦
      let higher =
        Rising-split inf passed i rest
          (subst (Rising inf) (sym split) (reversed-Rising inf inf.prio_que order)) in
      let member : has i inf.prio_que ≡ true =
        sym (has-reversed i inf.prio_que)
        ∙ subst (λ xs. has i xs ≡ true) split (has_middle passed i rest) in
      let yields : All (Yields answers inf i) (passed ++ i ∷ rest) =
        All-append (Yields answers inf i) passed (i ∷ rest)
          (All-map _ _ passed (λ j n. inr (inl n)) idle)
          (inl refl, All-map _ _ rest (λ j l. inr (inr l)) higher) in
      inr (
        i,
        c,
        after,
        member,
        at,
        pending,
        serving,
        result,
        All-forward _ inf.prio_que (subst (All (Yields answers inf i)) split yields),
      )
]
