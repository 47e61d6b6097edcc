-- ===== src/Sched/Next.antt =====
-- `sched_thread_del` and `get_next_thread` of kern/sched-queue.c: the next thread is the first one of
-- the highest priority.
use native.Mathlib.Decide.{ℕ_discrete}
use risc_v_workshop.Prelude.{
  ℕ, suc, ◌-◌, ◌<◌, ◌≡◌, ◌≢◌, ◌⊎◌, inl, inr, refl, ap, sym, ◌∙◌, subst, arith, Bool, Bool-cases,
  true, false, not, Option, none, some, List, ◌∷◌, ◌==◌, if◌then◌else◌, is_empty, remove, update,
  update_same, update_at, update_other, Ensures, Ensures-bind, List-cases,
}
use risc_v_workshop.Klib.Bitops.{bitops_clr, bitops_ffs}
use risc_v_workshop.Klib.Bitops.Bit.{isset_bounds, isset_zero, isset_first, isset_before}
use risc_v_workshop.Klib.Bitops.Maps.{bitops_ffs-Finds_map, FirstIn, Zero}
use risc_v_workshop.Sched.{
  Sched, Thread, sched_prio_nr, is_runable, modify, sched_thread_del, get_next_thread, take_from,
}
use risc_v_workshop.Sched.Counts.{count, count-remove, count_first, remove_first}
use risc_v_workshop.Sched.Ready.{Ready, expected, clr_if}
use risc_v_workshop.Sched.Change.{requeued, is_empty-remove}

-- Taking a thread out keeps the ready queue well formed.
pub sched_thread_del-Ready : (t : ℕ) (s : Sched) → Ready s → Ready (sched_thread_del t s)
unfolding sched_thread_del
sched_thread_del-Ready t s r =
    let q = (s.thread t).cur_prio in
    let xs = remove t (s.que q) in
    requeued s t q (record (s.thread t) { linked = false }) xs
      (if is_empty xs then bitops_clr q s.bitmap else s.bitmap) r refl refl (λ l. absurd (cc))
      (λ i. elim (Bool-cases (is_empty xs)) [
        | inl e ↦ rw e (isset_bounds q i s.bitmap r.words).1
        | inr e ↦ rw e (r.words i)
      ])
      (clr_if s.bitmap s.que q xs r.mapped (r.valid t) (is_empty-remove t (s.que q)))
      (λ u.
        let left = count-remove u t (s.que q) in
        let before = r.queued q u (r.valid t) in
        elim (ℕ_discrete t u) [
          | yes e ↦
              rw (update_at s.thread t u (record (s.thread t) { linked = false }) e)
                (ground (arith, left, before))
          | no d ↦
              rw (update_other s.thread t u (record (s.thread t) { linked = false }) d)
                (ground (arith, left, before))
        ])

-- What taking the next thread means: nothing is linked, or the first thread of the lowest number of a
-- queue that is not empty is taken out.
pub record Picked (s : Sched) (t : ℕ) (after : Sched) : Type 0 where
  pub ready : Ready after
  pub was_linked : (s.thread t).linked ≡ true
  pub now_free : (after.thread t).linked ≡ false
  pub state : is_runable (after.thread t).state ≡ true
  pub same_state : (after.thread t).state ≡ (s.thread t).state
  pub same_out : (after.thread t).switched_out ≡ (s.thread t).switched_out
  pub rest : List ℕ
  pub first : s.que (s.thread t).cur_prio ≡ t ∷ rest
  pub left : after.que (s.thread t).cur_prio ≡ rest
  pub others : (p : ℕ) → p ≢ (s.thread t).cur_prio → after.que p ≡ s.que p
  pub highest : (p : ℕ) → p < (s.thread t).cur_prio → is_empty (s.que p) ≡ true
  pub same_current : after.current ≡ s.current
  pub same_idle : after.idle_threads after.cpu ≡ s.idle_threads s.cpu
  pub unmoved : (u : ℕ) → t ≢ u → after.thread u ≡ s.thread u

abbrev pub PickedOutcome : Sched → Option ℕ × Sched → Type 0
PickedOutcome s (none, after) =
    (after ≡ s) × ((p : ℕ) → p < sched_prio_nr → is_empty (s.que p) ≡ true)
PickedOutcome s (some t, after) = Picked s t after

none_set : (b c : Bool) → b ≡ not c → b ≡ false → c ≡ true
none_set b true m z = refl
none_set b false m z = absurd (cc)

some_set : (b c : Bool) → b ≡ not c → b ≡ true → c ≡ false
some_set b false m z = refl
some_set b true m z = absurd (cc)

-- the state that `take_from` leaves when it takes `t` out of the queue `q`
abbrev taken : Sched → ℕ → ℕ → List ℕ → Sched
taken s t q rest = record (modify t (λ th. record th { linked = false }) s) {
  que = update s.que q rest;
  bitmap = if is_empty rest then bitops_clr q s.bitmap else s.bitmap;
}

-- a thread that is in a queue is linked and has the queue's priority
in_queue :
    (t q n : ℕ) (th : Thread) → suc n ≡ expected th q → (th.linked ≡ true) × (th.cur_prio ≡ q)
in_queue t q n th h = ground arith

taken-Picked :
    (s : Sched) (q t : ℕ) (rest : List ℕ)
    → Ready s
    → q < sched_prio_nr
    → s.que q ≡ t ∷ rest
    → ((p : ℕ) → p < q → is_empty (s.que p) ≡ true)
    → Picked s t (taken s t q rest)
unfolding sched_thread_del
taken-Picked s q t rest r below e higher = record {
  ready =
      subst (λ p. Ready (taken s t p rest)) own.1
        (subst (λ xs. Ready (taken s t (s.thread t).cur_prio xs)) gone
          (sched_thread_del-Ready t s r));
  was_linked = own.0;
  now_free = ap (λ th. th.linked) (update_same s.thread t (record (s.thread t) { linked = false }));
  state =
      ap (λ th. is_runable th.state)
        (update_same s.thread t (record (s.thread t) { linked = false }))
      ∙ r.runable t own.0;
  same_state =
      ap (λ th. th.state) (update_same s.thread t (record (s.thread t) { linked = false }));
  same_out =
      ap (λ th. th.switched_out) (update_same s.thread t (record (s.thread t) { linked = false }));
  rest = rest;
  first = rw own.1 e;
  left = update_at s.que q _ rest (sym own.1);
  others = λ p d. update_other s.que q p rest (λ h. d (sym h ∙ sym own.1));
  highest = λ p h. higher p (omega (arith, own.1));
  same_current = refl;
  same_idle = refl;
  unmoved = λ u d. update_other s.thread t u _ d;
}
  where
    counted : count t (t ∷ rest) ≡ suc (count t rest)
    counted = count_first t rest

    own : ((s.thread t).linked ≡ true) × ((s.thread t).cur_prio ≡ q)
    own =
        in_queue t q (count t rest) (s.thread t)
          (sym counted ∙ ap (count t) (sym e) ∙ r.queued q t below)

    gone : remove t (s.que (s.thread t).cur_prio) ≡ rest
    gone = rw (own.1, e) (remove_first t rest)

-- On a well-formed ready queue, taking the next thread fails no assertion. It gives none, and changes
-- nothing, exactly if all queues are empty. Else it gives the first thread of the first queue, by
-- priority, that is not empty; that thread is runnable, and it has left its queue; the other queues are
-- as before, and the ready queue is well formed.
pub get_next_thread-Picked : (s : Sched) → Ready s → Ensures (PickedOutcome s) (get_next_thread s)
unfolding get_next_thread take_from
get_next_thread-Picked s r =
    Ensures-bind _ _ (bitops_ffs s.bitmap 32 8) _
      (bitops_ffs-Finds_map 8 s.bitmap (inl refl) r.words 32 (omega arith)) found
  where
    found :
        (idx : ℕ)
        → ((idx ≡ 0) × Zero s.bitmap 0 4) ⊎ FirstIn s.bitmap 64 0 4 idx
        → Ensures (PickedOutcome s) (take_from s idx)
    found idx (inl (e, z)) =
        rw e (refl, λ p h. none_set _ _ (r.mapped p h) (isset_zero s.bitmap 4 p z h))
    found idx (inr f) =
        let positive : (idx == 0) ≡ false = ground (arith, f.result) in
        let below : idx - 1 < sched_prio_nr = omega (arith, f.result, f.below, f.inside) in
        let full = some_set _ _ (r.mapped (idx - 1) below) (isset_first s.bitmap 4 idx f) in
        elim (List-cases (s.que (idx - 1))) [
          | inl e ↦ let bad : is_empty (s.que (idx - 1)) ≡ true = rw e refl in absurd (cc)
          | inr (t, rest, e) ↦
              let picked = taken-Picked s (idx - 1) t rest r below e (λ p h.
                none_set _ _ (r.mapped p (omega arith)) (isset_before s.bitmap 4 idx p f h)) in
              rw (positive, e, r.runable t picked.was_linked) picked
        ]
