-- ===== src/Sched/Add.antt =====
-- `sched_thread_add` of kern/sched-queue.c.
use native.Mathlib.Decide.{ℕ_discrete}
use risc_v_workshop.Prelude.{
  ℕ, ◌+◌, ◌-◌, ◌≡◌, ◌≢◌, inl, inr, refl, ap, sym, ◌∙◌, subst, arith, Bool, Bool-cases, true, false,
  not, ◌||◌, none, some, [], ◌∷◌, ◌++◌, ◌==◌, if◌then◌else◌, is_empty, update_all, update_same,
  update_at, update_other, Ensures,
}
use risc_v_workshop.Klib.Bitops.{bitops_set}
use risc_v_workshop.Klib.Bitops.Bit.{isset_bounds}
use risc_v_workshop.Sched.{
  Sched, Thread, is_runable, modify, sched_thread_add, link_thread, thr_ref_inc, thr_ref_dec,
}
use risc_v_workshop.Sched.Counts.{count-append, is_empty-append}
use risc_v_workshop.Sched.Ready.{Ready, set_if}
use risc_v_workshop.Sched.Change.{requeued, IsPlain, plain-Ready}

-- The thread is at the end of the queue of its priority.
pub record Linked (t : ℕ) (s after : Sched) : Type 0 where
  pub ready : Ready after
  pub last : after.que (s.thread t).cur_prio ≡ s.que (s.thread t).cur_prio ++ t ∷ []
  pub others : (p : ℕ) → p ≢ (s.thread t).cur_prio → after.que p ≡ s.que p
  pub linked : (after.thread t).linked ≡ true
  pub state : is_runable (after.thread t).state ≡ true
  pub unmoved : (u : ℕ) → t ≢ u → (after.thread u).linked ≡ (s.thread u).linked
  pub same_state : (u : ℕ) → t ≢ u → (after.thread u).state ≡ (s.thread u).state
  pub same_out : (u : ℕ) → t ≢ u → (after.thread u).switched_out ≡ (s.thread u).switched_out

pub link_thread-Linked :
    (t : ℕ) (s : Sched)
    → Ready s
    → (s.thread t).linked ≡ false
    → is_runable (s.thread t).state ≡ true
    → Linked t s (link_thread t s)
unfolding link_thread
link_thread-Linked t s r free ok =
    let q = (s.thread t).cur_prio in
    let new : Thread = record (s.thread t) { linked = true } in
    let xs = s.que q ++ t ∷ [] in
    record {
      ready =
          requeued s t q new xs (if is_empty (s.que q) then bitops_set q s.bitmap else s.bitmap) r
            refl refl (λ l. ok)
            (λ i. elim (Bool-cases (is_empty (s.que q))) [
              | inl e ↦ rw e (isset_bounds q i s.bitmap r.words).0
              | inr e ↦ rw e (r.words i)
            ])
            (set_if s.bitmap s.que q xs r.mapped (r.valid t) (is_empty-append t (s.que q)))
            (λ u.
              let more = count-append u t (s.que q) in
              let before = r.queued q u (r.valid t) in
              elim (ℕ_discrete t u) [
                | yes e ↦
                    rw (update_at s.thread t u new e)
                      (ground (arith, more, r.queued q t (r.valid t), before))
                | no d ↦ rw (update_other s.thread t u new d) (ground (arith, more, before))
              ]);
      last = update_same s.que q xs;
      others = λ p d. update_other s.que q p xs (λ e. d (sym e));
      linked = ap (λ th. th.linked) (update_same s.thread t new);
      state = ap (λ th. is_runable th.state) (update_same s.thread t new) ∙ ok;
      unmoved = λ u d. ap (λ th. th.linked) (update_other s.thread t u new d);
      same_state = λ u d. ap (λ th. th.state) (update_other s.thread t u new d);
      same_out = λ u d. ap (λ th. th.switched_out) (update_other s.thread t u new d);
    }

pub plain-Linked :
    (t u : ℕ) (f : Thread → Thread) (s after : Sched)
    → IsPlain f
    → Linked t s after
    → Linked t s (modify u f after)
plain-Linked t u f s after p l = record {
  ready = plain-Ready after u f p l.ready;
  last = l.last;
  others = l.others;
  linked =
      update_all (λ v th. (after.thread v).linked ≡ true → th.linked ≡ true) after.thread u _ t
        (λ h. p.same_linked (after.thread u) ∙ h) (λ h. h) l.linked;
  state =
      update_all (λ v th. is_runable (after.thread v).state ≡ true → is_runable th.state ≡ true)
        after.thread u _ t (λ h. ap is_runable (p.same_state (after.thread u)) ∙ h) (λ h. h)
        l.state;
  unmoved = λ v d.
      update_all (λ v th. th.linked ≡ (after.thread v).linked) after.thread u _ v
        (p.same_linked (after.thread u)) refl
      ∙ l.unmoved v d;
  same_state = λ v d.
      update_all (λ v th. th.state ≡ (after.thread v).state) after.thread u _ v
        (p.same_state (after.thread u)) refl
      ∙ l.same_state v d;
  same_out = λ v d.
      update_all (λ v th. th.switched_out ≡ (after.thread v).switched_out) after.thread u _ v
        (p.same_out (after.thread u)) refl
      ∙ l.same_out v d;
}

pub inc_IsPlain : IsPlain (λ t. record t { refs = t.refs + 1 })
inc_IsPlain = record {
  same_linked = λ t. refl;
  same_prio = λ t. refl;
  same_state = λ t. refl;
  same_out = λ t. refl;
}

pub dec_IsPlain : IsPlain (λ t. record t { refs = t.refs - 1 })
dec_IsPlain = record {
  same_linked = λ t. refl;
  same_prio = λ t. refl;
  same_state = λ t. refl;
  same_out = λ t. refl;
}

delay_IsPlain : IsPlain (λ t. record t { dispatch_delayed = true })
delay_IsPlain = record {
  same_linked = λ t. refl;
  same_prio = λ t. refl;
  same_state = λ t. refl;
  same_out = λ t. refl;
}

-- the tests of `sched_thread_add`
pub add_branches :
    (P : Sched → Type 0) (s x y : Sched) (gone linked ok here : Bool)
    → gone ≡ false
    → linked ≡ false
    → ok ≡ true
    → P x
    → P y
    → Ensures P (
        if gone then some s else if linked || not ok then none else if here then some x else some y)
add_branches P s x y gone linked ok true g l o px py = rw (g, l, o) px
add_branches P s x y gone linked ok false g l o px py = rw (g, l, o) py

-- Adding a thread that is runnable, linked nowhere and not about to go fails no assertion. It puts the
-- thread at the end of the queue of its priority, leaves the other queues alone, and keeps the ready
-- queue well formed. The thread stays runnable, and which other threads are linked does not change.
pub sched_thread_add-Linked :
    (t : ℕ) (s : Sched)
    → Ready s
    → ((s.thread t).refs == 0) ≡ false
    → (s.thread t).linked ≡ false
    → is_runable (s.thread t).state ≡ true
    → Ensures (Linked t s) (sched_thread_add t s)
unfolding sched_thread_add
sched_thread_add-Linked t s r refs free ok =
    add_branches (Linked t s) s _ _ _ _ _ ((s.thread t).cpu == s.cpu) refs free ok
      (plain-Linked t s.current _ s _ delay_IsPlain queued) queued
  where
    same : (thr_ref_inc t s).thread t ≡ record (s.thread t) { refs = (s.thread t).refs + 1 }
    same = update_same s.thread t _

    linked : Linked t (thr_ref_inc t s) (link_thread t (thr_ref_inc t s))
    linked =
        link_thread-Linked t (thr_ref_inc t s) (plain-Ready s t _ inc_IsPlain r)
          (ap (λ th. th.linked) same ∙ free) (ap (λ th. is_runable th.state) same ∙ ok)

    prio : ((thr_ref_inc t s).thread t).cur_prio ≡ (s.thread t).cur_prio
    prio = ap (λ th. th.cur_prio) same

    queued : Linked t s (thr_ref_dec t (link_thread t (thr_ref_inc t s)))
    queued = plain-Linked t t _ s _ dec_IsPlain (record {
      ready = linked.ready;
      last =
          subst (λ q. (link_thread t (thr_ref_inc t s)).que q ≡ s.que q ++ t ∷ []) prio linked.last;
      others = λ p d. linked.others p (λ e. d (e ∙ prio));
      linked = linked.linked;
      state = linked.state;
      unmoved = λ u d. linked.unmoved u d ∙ ap (λ th. th.linked) (update_other s.thread t u _ d);
      same_state =
          λ u d. linked.same_state u d ∙ ap (λ th. th.state) (update_other s.thread t u _ d);
      same_out =
          λ u d. linked.same_out u d ∙ ap (λ th. th.switched_out) (update_other s.thread t u _ d);
    })
