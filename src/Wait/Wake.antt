-- ===== src/Wait/Wake.antt =====
-- Waking one thread, in kern/wqueue.c.
use native.Mathlib.Decide.{ℕ_discrete}
use risc_v_workshop.Prelude.{
  ℕ, ◌+◌, ◌-◌, ◌≡◌, ◌≢◌, refl, ap, ◌∙◌, arith, true, false, Option, none, some, ◌==◌, Ensures,
  Ensures-bind, update_all, update_at, update_other, update_same,
}
use risc_v_workshop.Sched.{
  Sched, runable, modify, set_state, is_runable, thr_ref_inc, thr_ref_dec, link_thread,
  sched_thread_add,
}
use risc_v_workshop.Sched.Ready.{Ready}
use risc_v_workshop.Sched.Change.{Ready-modify, plain-Ready}
use risc_v_workshop.Sched.Add.{
  Linked, sched_thread_add-Linked, add_branches, plain-Linked, inc_IsPlain, dec_IsPlain,
}
use risc_v_workshop.Wait.{wake_thread}

abbrev pub SameRefs : Sched → Sched → Type 0
SameRefs s after = (u : ℕ) → (after.thread u).refs ≡ (s.thread u).refs

link_refs : (t : ℕ) (s : Sched) → SameRefs s (link_thread t s)
unfolding link_thread
link_refs t s u = update_all (λ v th. th.refs ≡ (s.thread v).refs) s.thread t _ u refl refl

queued_refs : (t : ℕ) (s : Sched) → SameRefs s (thr_ref_dec t (link_thread t (thr_ref_inc t s)))
queued_refs t s u =
    let linked = link_thread t (thr_ref_inc t s) in
    elim (ℕ_discrete t u) [
      | yes e ↦
          ap (λ th. th.refs)
            (update_at linked.thread t u
              (record (linked.thread t) { refs = (linked.thread t).refs - 1 }) e)
          ∙ ap (λ n. n - 1)
              (link_refs t (thr_ref_inc t s) t
                ∙ ap (λ th. th.refs)
                    (update_same s.thread t (record (s.thread t) { refs = (s.thread t).refs + 1 })))
          ∙ omega (arith, ap (λ v. (s.thread v).refs) e)
      | no d ↦
          ap (λ th. th.refs) (update_other linked.thread t u _ d)
          ∙ link_refs t (thr_ref_inc t s) u
          ∙ ap (λ th. th.refs) (update_other s.thread t u _ d)
    ]

add_refs :
    (t : ℕ) (s : Sched)
    → ((s.thread t).refs == 0) ≡ false
    → (s.thread t).linked ≡ false
    → is_runable (s.thread t).state ≡ true
    → Ensures (SameRefs s) (sched_thread_add t s)
unfolding sched_thread_add
add_refs t s refs free ok =
    add_branches (SameRefs s) s _ _ _ _ _ ((s.thread t).cpu == s.cpu) refs free ok
      (λ u.
        update_all (λ v th. th.refs ≡ (s.thread v).refs)
          (thr_ref_dec t (link_thread t (thr_ref_inc t s))).thread s.current _ u
          (queued_refs t s s.current) (queued_refs t s u))
      (queued_refs t s)

Ensures-and :
    (P Q : Sched → Type 0) (o : Option Sched)
    → Ensures P o
    → Ensures Q o
    → Ensures (λ a. P a × Q a) o
Ensures-and P Q none p q = p
Ensures-and P Q (some a) p q = (p, q)

-- a thread that sleeps: it is in no ready queue and has a reference
pub record IsAsleep (t : ℕ) (s : Sched) : Type 0 where
  pub free : (s.thread t).linked ≡ false
  pub refs : ((s.thread t).refs == 0) ≡ false

-- Thread `t` has been put into the ready queue.
pub record Woken (t : ℕ) (s after : Sched) : Type 0 where
  pub ready : Ready after
  pub linked : (after.thread t).linked ≡ true
  pub unmoved : (u : ℕ) → t ≢ u → (after.thread u).linked ≡ (s.thread u).linked
  pub same_refs : SameRefs s after

pub wake_thread-Woken :
    (t : ℕ) (s : Sched) → Ready s → IsAsleep t s → Ensures (Woken t s) (wake_thread t s)
unfolding wake_thread
wake_thread-Woken t s r a =
    Ensures-bind (λ x. Linked t begun x × SameRefs begun x) (Woken t s) (sched_thread_add t begun) _
      (Ensures-and (Linked t begun) (SameRefs begun) (sched_thread_add t begun)
        (sched_thread_add-Linked t begun ready refs free (ap (λ th. is_runable th.state) same))
        (add_refs t begun refs free (ap (λ th. is_runable th.state) same)))
      (λ x h.
        let many : ((x.thread t).refs == 1) ≡ false =
          ap (λ n. n == 1) (h.1 t ∙ ap (λ th. th.refs) same) ∙ ground (arith, a.refs) in
        let kept =
          plain-Linked t t (λ th. record th { refs = th.refs - 1 }) begun x dec_IsPlain h.0 in
        rw many (record {
          ready = kept.ready;
          linked = kept.linked;
          unmoved = λ u d. kept.unmoved u d ∙ ap (λ th. th.linked) (untouched u d);
          same_refs = dropped x h.1;
        }))
  where
    counted : Sched
    counted = thr_ref_inc t s

    begun : Sched
    begun = modify t (set_state runable) counted

    same : begun.thread t ≡ set_state runable (record (s.thread t) { refs = (s.thread t).refs + 1 })
    same = update_same counted.thread t _ ∙ ap (set_state runable) (update_same s.thread t _)

    refs : ((begun.thread t).refs == 0) ≡ false
    refs = ap (λ th. th.refs == 0) same ∙ ground arith

    free : (begun.thread t).linked ≡ false
    free = ap (λ th. th.linked) same ∙ a.free

    ready : Ready begun
    ready =
        Ready-modify counted t (set_state runable) (plain-Ready s t _ inc_IsPlain r)
          (record { linked = refl; cur_prio = refl; runable = λ l. refl })

    untouched : (u : ℕ) → t ≢ u → begun.thread u ≡ s.thread u
    untouched u d = update_other counted.thread t u _ d ∙ update_other s.thread t u _ d

    dropped : (x : Sched) → SameRefs begun x → SameRefs s (thr_ref_dec t x)
    dropped x f u = elim (ℕ_discrete t u) [
      | yes e ↦
          ap (λ th. th.refs)
            (update_at x.thread t u (record (x.thread t) { refs = (x.thread t).refs - 1 }) e)
          ∙ ap (λ n. n - 1) (f t ∙ ap (λ th. th.refs) same)
          ∙ omega (arith, ap (λ v. (s.thread v).refs) e)
      | no d ↦
          ap (λ th. th.refs) (update_other x.thread t u _ d)
          ∙ f u
          ∙ ap (λ th. th.refs) (untouched u d)
    ]
