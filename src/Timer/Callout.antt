-- ===== src/Timer/Callout.antt =====
-- The callout queue of kern/timer.c: where an entry is linked, cancelling, and who is called.
use risc_v_workshop.Prelude.{
  ℕ, ◌≡◌, ◌≢◌, ◌⊎◌, inl, inr, refl, ap, arith, true, false, Option, none, some, List, [], ◌∷◌, ◌++◌,
  All, Rc, done, fail, enoent, ◌==◌, Bool-cases,
}
use risc_v_workshop.Klib.Queue.{Ascending, last_of, add_sort_iff, add_sort-perm, add_sort_last}
use mathlib.Core.List.{Perm}
use risc_v_workshop.Timer.{
  CallOutEnt, SystemTimer, expires_before, expire_at, tim_callout_add, cancel_loop,
  tim_callout_cancel,
}

before_asym : (a b : CallOutEnt) → expires_before a b ≡ true → expires_before b a ≡ false
unfolding expires_before
before_asym a b h = ground arith

before_trans :
    (a b c : CallOutEnt)
    → expires_before b a ≡ false
    → expires_before c b ≡ false
    → expires_before c a ≡ false
unfolding expires_before
before_trans a b c h g = ground arith

-- the entry that a successful `tim_callout_add` links
abbrev pub new_entry : ℕ → ℕ → ℕ → ℕ → SystemTimer → CallOutEnt
new_entry address ms callout private timer = record {
  address = address;
  expire = expire_at timer.curtime ms;
  callout = callout;
  private = private;
}

-- where a successful call puts an entry into the queue `x ∷ rest`
abbrev pub Added : CallOutEnt → CallOutEnt → List CallOutEnt → List CallOutEnt → Type 0
Added new x rest after =
    let last = last_of expires_before x rest in
    ((expires_before last new ≡ false) × Ascending expires_before after)
    ⊎ ((expires_before last new ≡ true)
        × ¬ Ascending expires_before after
        × ((front : List CallOutEnt) × (x ∷ rest ≡ front ++ last ∷ [])
            × (after ≡ front ++ new ∷ last ∷ [])))

-- Adding a callout to a queue in ascending order that is not empty adds the new entry and no other. If
-- it does not expire later than the last one, the queue is in ascending order again. If it expires
-- later than the last one, it is put directly before the last, behind all others, and the queue is not
-- in ascending order.
pub callout_add-Added :
    (address ms callout private : ℕ) (timer : SystemTimer) (x : CallOutEnt) (rest : List CallOutEnt)
    → timer.head ≡ x ∷ rest
    → Ascending expires_before (x ∷ rest)
    → Perm
        (tim_callout_add (done address) ms callout private timer).1.head
        (new_entry address ms callout private timer ∷ x ∷ rest)
      × Added
          (new_entry address ms callout private timer)
          x
          rest
          (tim_callout_add (done address) ms callout private timer).1.head
unfolding tim_callout_add
callout_add-Added address ms callout private timer x rest e a =
    let new = new_entry address ms callout private timer in
    let behind = last_of expires_before x rest in
    let sorted = add_sort_iff expires_before before_asym before_trans new x rest a in
    rw e (
      add_sort-perm expires_before new (x ∷ rest),
      elim (Bool-cases (expires_before behind new)) [
        | inl late ↦ inr (
          late,
          (λ s. absurd (ground (arith, late, sorted.0 s))),
          add_sort_last expires_before before_asym before_trans new x rest a late,
        )
        | inr fits ↦ inl (fits, sorted.1 fits)
      ],
    )

-- no entry of the queue has the address
abbrev pub Absent : ℕ → List CallOutEnt → Type 0
Absent address = All (λ e. e.address ≢ address)

-- what cancelling an address does to a queue
pub record Cancelled (address : ℕ) (xs ys : List CallOutEnt) : Type 0 where
  pub front : List CallOutEnt
  pub entry : CallOutEnt
  pub back : List CallOutEnt
  pub found : entry.address ≡ address
  pub first : Absent address front
  pub was : xs ≡ front ++ entry ∷ back
  pub is : ys ≡ front ++ back

abbrev LoopOutcome : ℕ → List CallOutEnt → Option (List CallOutEnt) → Type 0
LoopOutcome address xs none = Absent address xs
LoopOutcome address xs (some ys) = Cancelled address xs ys

cancel_loop-Outcome :
    (address : ℕ) (xs : List CallOutEnt) → LoopOutcome address xs (cancel_loop address xs)
unfolding cancel_loop
cancel_loop-Outcome address [] = tt
cancel_loop-Outcome address (cur ∷ rest) = elim (Bool-cases (cur.address == address)) [
  | inl e ↦
      rw (e, LoopOutcome)
        (record {
          front = [];
          entry = cur;
          back = rest;
          found = ground arith;
          first = tt;
          was = refl;
          is = refl;
        })
  | inr e ↦
      rw (e, LoopOutcome)
        (later (cancel_loop address rest) (cancel_loop-Outcome address rest) (ground arith))
]
  where
    later :
        (o : Option (List CallOutEnt))
        → LoopOutcome address rest o
        → cur.address ≢ address
        → LoopOutcome address (cur ∷ rest) (elim o [ none ↦ none | some r ↦ some (cur ∷ r) ])
    later none h d = (d, h)
    later (some r) h d = record {
      front = cur ∷ h.front;
      entry = h.entry;
      back = h.back;
      found = h.found;
      first = (d, h.first);
      was = ap (λ l. cur ∷ l) h.was;
      is = ap (λ l. cur ∷ l) h.is;
    }

abbrev pub CancelOutcome : ℕ → SystemTimer → Rc (Unit {0}) × SystemTimer → Type 0
CancelOutcome address timer (done _, after) =
    Cancelled address timer.head after.head × (after.curtime ≡ timer.curtime)
CancelOutcome address timer (fail enoent, after) = (after ≡ timer) × Absent address timer.head
CancelOutcome address timer (fail _, after) = ⊥

-- Cancelling an address takes the first entry at that address out of the queue and keeps the others in
-- their order; it fails, with ENOENT and without a change, exactly if no entry has the address. The
-- clock stays as it is.
pub callout_cancel-Outcome :
    (address : ℕ) (timer : SystemTimer)
    → CancelOutcome address timer (tim_callout_cancel address timer)
unfolding tim_callout_cancel
callout_cancel-Outcome address timer =
    go (cancel_loop address timer.head) (cancel_loop-Outcome address timer.head)
  where
    go :
        (o : Option (List CallOutEnt))
        → LoopOutcome address timer.head o
        → CancelOutcome address timer (elim o [
          | none ↦ (fail enoent, timer)
          | some rest ↦ (done tt, record timer { head = rest })
        ])
    go none h = (refl, h)
    go (some rest) h = (h, refl)
