-- ===== src/Sched/Woken.antt =====
-- `sched_schedule` of kern/sched-queue.c, called by a thread that was woken on its way to sleep: it is
-- runnable, and already back in the ready queue.
use native.Mathlib.Decide.{dec_lt}
use risc_v_workshop.Prelude.{
  ℕ, ◌<◌, ◌≡◌, refl, ap, sym, ◌∙◌, subst, arith, true, false, Option, none, some, List, ◌∷◌, ◌==◌,
  is_empty, update_all, update_same, update_at, Ensures, Ensures-bind,
}
use risc_v_workshop.Sched.{
  Sched, is_runable, set_active, set_delayed, get_next_thread, sched_schedule, dispatch,
  ti_dispatch_disabled, ti_clr_delay_dispatch, ti_set_preempt_active, ti_clr_preempt_active,
}
use risc_v_workshop.Sched.Ready.{Ready}
use risc_v_workshop.Sched.Change.{plain-Ready}
use risc_v_workshop.Sched.Resume.{active_IsPlain}
use risc_v_workshop.Sched.Next.{Picked, PickedOutcome, get_next_thread-Picked}

-- The thread goes on running, marked as runnable instead of running, and no queue holds it.
pub record Stranded (s after : Sched) : Type 0 where
  pub current : after.current ≡ s.current
  pub state : is_runable (after.thread s.current).state ≡ true
  pub free : (after.thread s.current).linked ≡ false

first_of : (x y : ℕ) (xs ys : List ℕ) → x ∷ xs ≡ y ∷ ys → x ≡ y
first_of x y xs ys e = cc

module _ (s : Sched) (r : Ready s) (rest : List ℕ)
    (first : s.que (s.thread s.current).cur_prio ≡ s.current ∷ rest)
    (highest : (p : ℕ) → p < (s.thread s.current).cur_prio → is_empty (s.que p) ≡ true) where
  abbrev busy : Sched
  busy = ti_set_preempt_active s

  busy_prio : (t : ℕ) → (busy.thread t).cur_prio ≡ (s.thread t).cur_prio
  busy_prio t =
      update_all (λ v th. th.cur_prio ≡ (s.thread v).cur_prio) s.thread s.current _ t refl refl

  full : (p t : ℕ) (ts : List ℕ) → s.que p ≡ t ∷ ts → is_empty (s.que p) ≡ false
  full p t ts e = rw e refl

  same_thread : (t : ℕ) (after : Sched) → Picked busy t after → t ≡ s.current
  same_thread t after p =
      let its = subst (λ q. s.que q ≡ t ∷ p.rest) (busy_prio t) p.first in
      let above =
        subst (λ q. (u : ℕ) → u < q → is_empty (s.que u) ≡ true) (busy_prio t) p.highest in
      elim (dec_lt (s.thread t).cur_prio (s.thread s.current).cur_prio) [
        | yes less ↦ let a = highest _ less in let b = full _ t p.rest its in absurd (cc)
        | no l ↦ elim (dec_lt (s.thread s.current).cur_prio (s.thread t).cur_prio) [
          | yes more ↦ let a = above _ more in let b = full _ s.current rest first in absurd (cc)
          | no m ↦
              let same : (s.thread t).cur_prio ≡ (s.thread s.current).cur_prio = omega arith in
              first_of t s.current p.rest rest (sym its ∙ ap s.que same ∙ first)
        ]
      ]

  dispatch-Stranded :
      (f : Option ℕ) (picked : Sched)
      → PickedOutcome busy (f, picked)
      → Ensures (Stranded s) (dispatch (f, picked))
  unfolding dispatch
  dispatch-Stranded none picked (e, empty) =
      let a = empty _ (r.valid s.current) in let b = full _ s.current rest first in absurd (cc)
  dispatch-Stranded (some t) picked p =
      let mine = same_thread t picked p in
      let stays : (picked.current == t) ≡ true =
        let h : picked.current ≡ t = p.same_current ∙ sym mine in ground arith in
      rw stays (record {
        current = p.same_current;
        state = ap (λ th. is_runable th.state) (last mine) ∙ p.state;
        free = ap (λ th. th.linked) (last mine) ∙ p.now_free;
      })
    where
      cleared : Sched
      cleared = ti_clr_delay_dispatch picked

      last :
          t ≡ s.current
          → (ti_clr_preempt_active cleared).thread s.current
            ≡ set_active false (set_delayed false (picked.thread t))
      last mine =
          subst
            (λ c.
              (ti_clr_preempt_active cleared).thread c
              ≡ set_active false (set_delayed false (picked.thread t)))
            mine
            (let here : picked.current ≡ t = p.same_current ∙ sym mine in
              update_at cleared.thread picked.current t _ here
              ∙ ap (set_active false) (update_same picked.thread picked.current _)
              ∙ ap (λ c. set_active false (set_delayed false (picked.thread c))) here)

  -- A thread that is first in line on its processor when it calls the scheduler, because it was woken
  -- after it had queued itself to sleep, gets the processor back without being marked as running: it
  -- is still marked as runnable, and it is in no queue. Dispatching is enabled and the ready queue well
  -- formed.
  pub schedule-Stranded : ti_dispatch_disabled s ≡ false → Ensures (Stranded s) (sched_schedule s)
  unfolding sched_schedule
  schedule-Stranded enabled = rw enabled (
      Ensures-bind (PickedOutcome busy) (Stranded s) (get_next_thread busy) dispatch
        (get_next_thread-Picked busy
          (plain-Ready s s.current (set_active true) (active_IsPlain true) r))
        (λ o. dispatch-Stranded o.0 o.1))
