-- ===== src/Sched/Resume.antt =====
-- `switch_to` of the scheduler, kern/sched-queue.c: going from the thread that runs to another.
use risc_v_workshop.Prelude.{
  ℕ, ◌≡◌, ◌≢◌, ◌⊎◌, sym, if◌then◌else◌, some, inl, inr, refl, ap, ◌∙◌, subst, Bool, Bool-cases,
  true, false, [], ◌∷◌, ◌++◌, ◌==◌, update, update_same, update_other, Ensures, Ensures-bind,
}
use risc_v_workshop.Sched.{
  Sched, ThrState, run, runable, dormant, wait, exit, dead, is_runable, is_run, modify, set_state,
  set_active, set_out, sched_thread_add, switch_to, resume,
}
use risc_v_workshop.Sched.Ready.{Ready}
use risc_v_workshop.Sched.Change.{Ready-modify, IsPlain, plain-Ready}
use risc_v_workshop.Sched.Add.{Linked, sched_thread_add-Linked}

-- A thread that was switched out before is marked as running; a new thread has the state it had.
abbrev pub Entered : ℕ → Sched → Sched → Type 0
Entered next s after =
    (((s.thread next).switched_out ≡ true) × (is_run (after.thread next).state ≡ true))
    ⊎ (((s.thread next).switched_out ≡ false) × ((after.thread next).state ≡ (s.thread next).state))

-- The processor has gone from `prev`, which was running, to `next`.
pub record Switched (prev next : ℕ) (s after : Sched) : Type 0 where
  pub ready : Ready after
  pub current : after.current ≡ next
  pub entered : Entered next s after
  pub free : (after.thread next).linked ≡ false
  pub back : after.que (s.thread prev).cur_prio ≡ s.que (s.thread prev).cur_prio ++ prev ∷ []
  pub others : (p : ℕ) → p ≢ (s.thread prev).cur_prio → after.que p ≡ s.que p

pub running_free :
    (t : ℕ) (s : Sched) → Ready s → is_run (s.thread t).state ≡ true → (s.thread t).linked ≡ false
running_free t s r h = elim (Bool-cases (s.thread t).linked) [
  | inl l ↦ absurd (both (s.thread t).state h (r.runable t l))
  | inr f ↦ f
]
  where
    both : (st : ThrState) → is_run st ≡ true → is_runable st ≡ true → ⊥
    both run a b = absurd (cc)
    both runable a b = absurd (cc)
    both dormant a b = absurd (cc)
    both wait a b = absurd (cc)
    both exit a b = absurd (cc)
    both dead a b = absurd (cc)

current-Ready : (s : Sched) (t : ℕ) → Ready s → Ready (record s { current = t })
current-Ready s t r = record {
  words = r.words;
  mapped = r.mapped;
  queued = r.queued;
  runable = r.runable;
  valid = r.valid;
}

pub active_IsPlain : (b : Bool) → IsPlain (set_active b)
active_IsPlain b = record {
  same_linked = λ t. refl;
  same_prio = λ t. refl;
  same_state = λ t. refl;
  same_out = λ t. refl;
}

cpu_IsPlain : (c : ℕ) → IsPlain (λ t. record t { cpu = c })
cpu_IsPlain c = record {
  same_linked = λ t. refl;
  same_prio = λ t. refl;
  same_state = λ t. refl;
  same_out = λ t. refl;
}

-- the state that `switch_to` leaves to the next thread
abbrev taken_up : ℕ → ℕ → Sched → Sched
taken_up prev next left = record (modify prev set_out left) { current = next }

taken_up-Ready : (prev next : ℕ) (left : Sched) → Ready left → Ready (taken_up prev next left)
taken_up-Ready prev next left r = current-Ready (modify prev set_out left) next (
    Ready-modify left prev set_out r
      (record { linked = refl; cur_prio = refl; runable = r.runable prev }))

taken_up_thread :
    (prev next : ℕ) (left : Sched)
    → prev ≢ next
    → (taken_up prev next left).thread next ≡ left.thread next
taken_up_thread prev next left d = update_other left.thread prev next _ d

resume-Ready :
    (cur : Sched) → Ready cur → (cur.thread cur.current).linked ≡ false → Ready (resume cur)
unfolding resume
resume-Ready cur r free = plain-Ready _ cur.current _ (active_IsPlain false) (
    Ready-modify located cur.current (set_state run)
      (plain-Ready cur cur.current _ (cpu_IsPlain cur.cpu) r)
      (record {
        linked = refl;
        cur_prio = refl;
        runable = λ l.
            let f : (located.thread cur.current).linked ≡ false =
              ap (λ th. th.linked) (update_same cur.thread cur.current _) ∙ free in
            absurd (cc);
      }))
  where
    located : Sched
    located = modify cur.current (λ t. record t { cpu = cur.cpu }) cur

resume_thread :
    (cur : Sched)
    → (resume cur).thread cur.current
      ≡ set_active false (set_state run (record (cur.thread cur.current) { cpu = cur.cpu }))
unfolding resume
resume_thread cur =
    let c = cur.current in
    let first = update_same cur.thread c (record (cur.thread c) { cpu = cur.cpu }) in
    let located = update cur.thread c (record (cur.thread c) { cpu = cur.cpu }) in
    let second = update_same located c (set_state run (located c)) in
    update_same (update located c (set_state run (located c))) c _
    ∙ ap (set_active false) (second ∙ ap (set_state run) first)

same_current : (cur : Sched) → (resume cur).current ≡ cur.current
unfolding resume
same_current cur = refl

either :
    (P : Sched → Type 0) (b : Bool) (x y : Sched)
    → (b ≡ true → P x)
    → (b ≡ false → P y)
    → Ensures P (if b then some x else some y)
either P true x y p q = p refl
either P false x y p q = q refl

same_que : (cur : Sched) (p : ℕ) → (resume cur).que p ≡ cur.que p
unfolding resume
same_que cur p = refl

pub switch_to-Switched :
    (next : ℕ) (s : Sched)
    → Ready s
    → is_run (s.thread s.current).state ≡ true
    → ((s.thread s.current).refs == 0) ≡ false
    → (s.thread next).linked ≡ false
    → s.current ≢ next
    → Ensures (Switched s.current next s) (switch_to next s)
unfolding switch_to
switch_to-Switched next s r running refs free d = rw running (
    Ensures-bind (Linked s.current stopped) _ (sched_thread_add s.current stopped) _
      (sched_thread_add-Linked s.current stopped
        (Ready-modify s s.current (set_state runable) r
          (record { linked = refl; cur_prio = refl; runable = λ l. refl }))
        (ap (λ th. th.refs == 0) same ∙ refs)
        (ap (λ th. th.linked) same ∙ running_free s.current s r running)
        (ap (λ th. is_runable th.state) same))
      (λ left l.
        let same_next =
          update_other s.thread s.current next (set_state runable (s.thread s.current)) d in
        let unlinked : (left.thread next).linked ≡ false =
          l.unmoved next d ∙ ap (λ th. th.linked) same_next ∙ free in
        let cur = taken_up s.current next left in
        let its = taken_up_thread s.current next left d in
        let cur_free : (cur.thread next).linked ≡ false = ap (λ th. th.linked) its ∙ unlinked in
        let back : left.que (s.thread s.current).cur_prio
            ≡ s.que (s.thread s.current).cur_prio ++ s.current ∷ [] =
          subst (λ q. left.que q ≡ s.que q ++ s.current ∷ []) prio l.last in
        let out = l.same_out next d ∙ ap (λ th. th.switched_out) same_next in
        either (Switched s.current next s) (left.thread next).switched_out (resume cur) cur
          (λ old. record {
            ready = resume-Ready cur (taken_up-Ready s.current next left l.ready) cur_free;
            current = same_current cur;
            entered = inl (sym out ∙ old, ap (λ th. is_run th.state) (resume_thread cur));
            free = ap (λ th. th.linked) (resume_thread cur) ∙ cur_free;
            back = same_que cur _ ∙ back;
            others = λ p n. same_que cur p ∙ l.others p (λ e. n (e ∙ prio));
          })
          (λ new. record {
            ready = taken_up-Ready s.current next left l.ready;
            current = refl;
            entered = inr (
              sym out ∙ new,
              ap (λ th. th.state) its ∙ l.same_state next d ∙ ap (λ th. th.state) same_next,
            );
            free = cur_free;
            back = back;
            others = λ p n. l.others p (λ e. n (e ∙ prio));
          })))
  where
    stopped : Sched
    stopped = modify s.current (set_state runable) s

    same : stopped.thread s.current ≡ set_state runable (s.thread s.current)
    same = update_same s.thread s.current _

    prio : (stopped.thread s.current).cur_prio ≡ (s.thread s.current).cur_prio
    prio = ap (λ th. th.cur_prio) same
