-- ===== src/Sched/Switch.antt =====
-- `sched_schedule` of kern/sched-queue.c: which thread runs next, and what becomes of the one that ran.
use native.Mathlib.Decide.{ℕ_discrete}
use risc_v_workshop.Prelude.{
  ℕ, ◌<◌, ◌≡◌, ◌≢◌, ◌⊎◌, inl, inr, refl, ap, sym, ◌∙◌, subst, arith, Bool, true, false, Option,
  none, some, List, [], ◌∷◌, ◌++◌, ◌==◌, if◌then◌else◌, is_empty, update_all, update_same,
  update_other, Ensures, Ensures-bind, Ensures-map,
}
use risc_v_workshop.Sched.{
  Sched, Thread, sched_prio_nr, is_run, set_active, set_delayed, get_next_thread, switch_to,
  sched_schedule, dispatch, ti_dispatch_disabled, ti_clr_delay_dispatch, ti_set_preempt_active,
  ti_clr_preempt_active,
}
use risc_v_workshop.Sched.Counts.{count_empty}
use risc_v_workshop.Sched.Ready.{Ready, expected}
use risc_v_workshop.Sched.Change.{IsPlain, plain-Ready}
use risc_v_workshop.Sched.Next.{PickedOutcome, get_next_thread-Picked}
use risc_v_workshop.Sched.Resume.{
  Entered, Switched, running_free, active_IsPlain, switch_to-Switched,
}

-- The thread that is to run: the first of the highest priority, or the idle thread `i` if there is none.
abbrev pub IsChosen : ℕ → Sched → ℕ → Type 0
IsChosen i s next =
    (((p : ℕ) → p < sched_prio_nr → is_empty (s.que p) ≡ true) × (next ≡ i))
    ⊎ ((rest : List ℕ) × (s.que (s.thread next).cur_prio ≡ next ∷ rest)
        × ((p : ℕ) → p < (s.thread next).cur_prio → is_empty (s.que p) ≡ true))

-- The thread that runs is marked as running if it ran before or had been switched out; a new thread has
-- the state it had.
abbrev pub Runs : Sched → Sched → Type 0
Runs s after =
    (((s.current ≡ after.current) ⊎ ((s.thread after.current).switched_out ≡ true))
      × (is_run (after.thread after.current).state ≡ true))
    ⊎ ((s.current ≢ after.current)
        × ((s.thread after.current).switched_out ≡ false)
        × ((after.thread after.current).state ≡ (s.thread after.current).state))

-- What a call of the scheduler leaves, where `i` is this processor's idle thread.
pub record Scheduled (i : ℕ) (s after : Sched) : Type 0 where
  pub ready : Ready after
  pub runs : Runs s after
  pub free : (after.thread after.current).linked ≡ false
  pub chosen : IsChosen i s after.current
  pub ahead : List ℕ
  pub back :
      s.current ≢ after.current → after.que (s.thread s.current).cur_prio ≡ ahead ++ s.current ∷ []

delayed_IsPlain : (b : Bool) → IsPlain (set_delayed b)
delayed_IsPlain b = record {
  same_linked = λ t. refl;
  same_prio = λ t. refl;
  same_state = λ t. refl;
  same_out = λ t. refl;
}

not_expected : (t : Thread) (q : ℕ) → expected t q ≡ 0 → t.cur_prio ≡ q → t.linked ≡ false
not_expected t q h e = ground arith

module _ (i : ℕ) (s : Sched) (running : is_run (s.thread s.current).state ≡ true)
    (refs : ((s.thread s.current).refs == 0) ≡ false) (r : Ready s) where
  -- the thread that ran, while it is being replaced
  abbrev leaving : Thread
  leaving = set_delayed false (set_active true (s.thread s.current))

  module _ (next : ℕ) (picked : Sched) (ready : Ready picked) (same : picked.current ≡ s.current)
      (kept : picked.thread s.current ≡ set_active true (s.thread s.current))
      (free : (picked.thread next).linked ≡ false)
      (same_state : (picked.thread next).state ≡ (s.thread next).state)
      (same_out : (picked.thread next).switched_out ≡ (s.thread next).switched_out)
      (chosen : IsChosen i s next) where
    abbrev cleared : Sched
    cleared = ti_clr_delay_dispatch picked

    cleared-Ready : Ready cleared
    cleared-Ready =
        plain-Ready picked picked.current (set_delayed false) (delayed_IsPlain false) ready

    cleared_thread : cleared.thread cleared.current ≡ leaving
    cleared_thread =
        update_same picked.thread picked.current (set_delayed false (picked.thread picked.current))
        ∙ ap (λ c. set_delayed false (picked.thread c)) same
        ∙ ap (set_delayed false) kept

    enters :
        picked.current ≢ next
        → (after : Sched) → after.current ≡ next
        → Entered next cleared after
        → Runs s after
    enters d after e entered =
        let its = update_other picked.thread picked.current next _ d in
        let out = ap (λ th. th.switched_out) its ∙ same_out in
        let state = ap (λ th. th.state) its ∙ same_state in
        subst
          (λ c.
            (((s.current ≡ c) ⊎ ((s.thread c).switched_out ≡ true))
              × (is_run (after.thread c).state ≡ true))
            ⊎ ((s.current ≢ c)
                × ((s.thread c).switched_out ≡ false)
                × ((after.thread c).state ≡ (s.thread c).state)))
          (sym e)
          (elim entered [
            | inl (old, runs) ↦ inl (inr (sym out ∙ old), runs)
            | inr (new, keeps) ↦ inr ((λ q. d (same ∙ q)), sym out ∙ new, keeps ∙ state)
          ])

    goes_on : Ensures (Scheduled i s) (
        if picked.current == next
        then some (ti_clr_preempt_active cleared)
        else switch_to next cleared)
    goes_on = elim (ℕ_discrete picked.current next) [
      | yes e ↦
          let stays : (picked.current == next) ≡ true = ground arith in
          let last : (ti_clr_preempt_active cleared).thread picked.current
              ≡ set_active false (cleared.thread picked.current) =
            update_same cleared.thread picked.current _ in
          rw stays (record {
            ready =
                plain-Ready cleared picked.current (set_active false) (active_IsPlain false)
                  cleared-Ready;
            runs = inl (
              inl (sym same),
              ap (λ th. is_run th.state) last ∙ ap (λ th. is_run th.state) cleared_thread ∙ running,
            );
            free =
                ap (λ th. th.linked) last
                ∙ ap (λ th. th.linked) cleared_thread
                ∙ running_free s.current s r running;
            chosen = subst (IsChosen i s) (sym e) chosen;
            ahead = [];
            back = λ d. absurd (d (sym same));
          })
      | no d ↦
          let moves : (picked.current == next) ≡ false = ground arith in
          rw moves (
            Ensures-map (Switched cleared.current next cleared) (Scheduled i s)
              (switch_to next cleared)
              (λ after w. record {
                ready = w.ready;
                runs = enters d after w.current w.entered;
                free = subst (λ c. (after.thread c).linked ≡ false) (sym w.current) w.free;
                chosen = subst (IsChosen i s) (sym w.current) chosen;
                ahead = cleared.que (cleared.thread cleared.current).cur_prio;
                back = λ n.
                    subst
                      (λ q.
                        after.que q
                        ≡ cleared.que (cleared.thread cleared.current).cur_prio ++ s.current ∷ [])
                      (ap (λ th. th.cur_prio) cleared_thread)
                      (subst
                        (λ c.
                          after.que (cleared.thread cleared.current).cur_prio
                          ≡ cleared.que (cleared.thread cleared.current).cur_prio ++ c ∷ [])
                        same w.back);
              })
              (switch_to-Switched next cleared cleared-Ready
                (ap (λ th. is_run th.state) cleared_thread ∙ running)
                (ap (λ th. th.refs == 0) cleared_thread ∙ refs) still_free d))
    ]
      where
        still_free : (cleared.thread next).linked ≡ false
        still_free =
            update_all (λ v th. (picked.thread v).linked ≡ false → th.linked ≡ false) picked.thread
              picked.current _ next (λ h. h) (λ h. h) free

  module _ (idle : s.idle_threads s.cpu ≡ some i) where
    abbrev busy : Sched
    busy = ti_set_preempt_active s

    busy-Ready : Ready busy
    busy-Ready = plain-Ready s s.current (set_active true) (active_IsPlain true) r

    busy_current : busy.thread s.current ≡ set_active true (s.thread s.current)
    busy_current = update_same s.thread s.current _

    busy_prio : (t : ℕ) → (busy.thread t).cur_prio ≡ (s.thread t).cur_prio
    busy_prio t =
        update_all (λ v th. th.cur_prio ≡ (s.thread v).cur_prio) s.thread s.current _ t refl refl

    busy_state : (t : ℕ) → (busy.thread t).state ≡ (s.thread t).state
    busy_state t =
        update_all (λ v th. th.state ≡ (s.thread v).state) s.thread s.current _ t refl refl

    busy_out : (t : ℕ) → (busy.thread t).switched_out ≡ (s.thread t).switched_out
    busy_out t =
        update_all (λ v th. th.switched_out ≡ (s.thread v).switched_out) s.thread s.current _ t refl
          refl

    -- with all queues empty no thread is linked
    none_linked :
        (t : ℕ)
        → ((p : ℕ) → p < sched_prio_nr → is_empty (s.que p) ≡ true)
        → (busy.thread t).linked ≡ false
    none_linked t empty =
        let below = busy-Ready.valid t in
        let none_there = count_empty t (s.que (busy.thread t).cur_prio) (empty _ below) in
        not_expected (busy.thread t) _
          (sym (busy-Ready.queued (busy.thread t).cur_prio t below) ∙ none_there) refl

    other : (t : ℕ) → (busy.thread t).linked ≡ true → t ≢ s.current
    other t l e =
        let linked : (busy.thread s.current).linked ≡ true =
          subst (λ u. (busy.thread u).linked ≡ true) e l in
        let free : (busy.thread s.current).linked ≡ false =
          ap (λ th. th.linked) busy_current ∙ running_free s.current s r running in
        absurd (cc)

    dispatch-Scheduled :
        (f : Option ℕ) (picked : Sched)
        → PickedOutcome busy (f, picked)
        → Ensures (Scheduled i s) (dispatch (f, picked))
    unfolding dispatch
    dispatch-Scheduled none picked (e, empty) =
        subst (λ z. Ensures (Scheduled i s) (dispatch (none, z))) (sym e)
          (rw (idle, dispatch)
            (goes_on i busy busy-Ready refl busy_current (none_linked i empty) (busy_state i)
              (busy_out i) (inl (empty, refl))))
    dispatch-Scheduled (some t) picked p =
        goes_on t picked p.ready p.same_current
          (p.unmoved s.current (other t p.was_linked) ∙ busy_current) p.now_free
          (p.same_state ∙ busy_state t) (p.same_out ∙ busy_out t)
          (inr (
            p.rest,
            subst (λ q. s.que q ≡ t ∷ p.rest) (busy_prio t) p.first,
            subst (λ q. (u : ℕ) → u < q → is_empty (s.que u) ≡ true) (busy_prio t) p.highest,
          ))

    -- The scheduler, called where dispatching is enabled, by a thread that runs and has references, on
    -- a well-formed ready queue, and with an idle thread registered, fails no assertion. It chooses the
    -- first thread of the highest priority that has one, or else the idle thread. That thread is now
    -- the current one and in no queue. It is marked as running if it is the caller or has been switched
    -- out before; else, if it is new, it has the state it had. The thread that ran before, if it is
    -- another, is the last of the queue of its priority, and the ready queue is well formed.
    pub schedule-Scheduled :
        ti_dispatch_disabled s ≡ false → Ensures (Scheduled i s) (sched_schedule s)
    unfolding sched_schedule
    schedule-Scheduled enabled = rw enabled (
        Ensures-bind (PickedOutcome busy) (Scheduled i s) (get_next_thread busy) dispatch
          (get_next_thread-Picked busy busy-Ready) (λ o. dispatch-Scheduled o.0 o.1))
