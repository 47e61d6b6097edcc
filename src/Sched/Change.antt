-- ===== src/Sched/Change.antt =====
-- Changes of one thread, or of one queue and its threads, that keep the ready queue well formed.
use native.Mathlib.Decide.{ℕ_discrete}
use risc_v_workshop.Prelude.{
  ℕ, ◌^◌, ◌<◌, ◌≡◌, ◌≢◌, refl, ap, sym, ◌∙◌, subst, arith, true, not, List, [], ◌∷◌, is_empty,
  remove, update, update_all, update_at, update_other,
}
use risc_v_workshop.Klib.Bitops.{bitops_isset}
use risc_v_workshop.Sched.{Sched, Thread, sched_prio_nr, is_runable, modify}
use risc_v_workshop.Sched.Counts.{count}
use risc_v_workshop.Sched.Ready.{Ready, expected}

-- what a change of a thread must keep
pub record Keeps (old new : Thread) : Type 0 where
  pub linked : new.linked ≡ old.linked
  pub cur_prio : new.cur_prio ≡ old.cur_prio
  pub runable : old.linked ≡ true → is_runable new.state ≡ true

pub Ready-modify :
    (s : Sched) (t : ℕ) (f : Thread → Thread)
    → Ready s
    → Keeps (s.thread t) (f (s.thread t))
    → Ready (modify t f s)
Ready-modify s t f r k = record {
  words = r.words;
  mapped = r.mapped;
  queued = λ p u h.
      update_all (λ u th. count u (s.que p) ≡ expected th p) s.thread t (f (s.thread t)) u
        (rw (k.linked, k.cur_prio) (r.queued p t h)) (r.queued p u h);
  runable = λ u.
      update_all (λ u th. th.linked ≡ true → is_runable th.state ≡ true) s.thread t (f (s.thread t))
        u (λ l. k.runable (sym k.linked ∙ l)) (r.runable u);
  valid = λ u.
      update_all (λ u th. th.cur_prio < sched_prio_nr) s.thread t (f (s.thread t)) u
        (rw k.cur_prio (r.valid t)) (r.valid u);
}

elsewhere :
    (old new : Thread) (p q n : ℕ)
    → old.cur_prio ≡ q
    → new.cur_prio ≡ q
    → q ≢ p
    → n ≡ expected old p
    → n ≡ expected new p
elsewhere old new p q n e f d h = ground arith

pub is_empty-remove : (t : ℕ) (xs : List ℕ) → is_empty xs ≡ true → is_empty (remove t xs) ≡ true
unfolding remove
is_empty-remove t [] h = refl
is_empty-remove t (x ∷ xs) h = absurd (cc)

-- One thread changes, and with it the queue of its priority.
pub requeued :
    (s : Sched) (t q : ℕ) (new : Thread) (xs : List ℕ) (map : ℕ → ℕ)
    → Ready s
    → (s.thread t).cur_prio ≡ q
    → new.cur_prio ≡ q
    → (new.linked ≡ true → is_runable new.state ≡ true)
    → ((i : ℕ) → map i < 2 ^ 64)
    → ((p : ℕ) → p < sched_prio_nr → bitops_isset p map ≡ not (is_empty (update s.que q xs p)))
    → ((u : ℕ) → count u xs ≡ expected (update s.thread t new u) q)
    → Ready (record s { thread = update s.thread t new; que = update s.que q xs; bitmap = map })
requeued s t q new xs map r e n ok words mapped counted = record {
  words = words;
  mapped = mapped;
  queued = λ p u h. elim (ℕ_discrete q p) [
    | yes same ↦
        rw (update_at s.que q p xs same)
          (subst (λ z. count u xs ≡ expected (update s.thread t new u) z) same (counted u))
    | no d ↦ rw (update_other s.que q p xs d) (
        update_all (λ u th. count u (s.que p) ≡ expected th p) s.thread t new u
          (elsewhere (s.thread t) new p q _ e n d (r.queued p t h)) (r.queued p u h))
  ];
  runable = λ u.
      update_all (λ u th. th.linked ≡ true → is_runable th.state ≡ true) s.thread t new u ok
        (r.runable u);
  valid = λ u.
      update_all (λ u th. th.cur_prio < sched_prio_nr) s.thread t new u
        (omega (arith, n, e, r.valid t)) (r.valid u);
}

-- A change of a thread that the ready queue does not depend on.
pub record IsPlain (f : Thread → Thread) : Type 0 where
  pub same_linked : (t : Thread) → (f t).linked ≡ t.linked
  pub same_prio : (t : Thread) → (f t).cur_prio ≡ t.cur_prio
  pub same_state : (t : Thread) → (f t).state ≡ t.state
  pub same_out : (t : Thread) → (f t).switched_out ≡ t.switched_out

pub plain-Ready :
    (s : Sched) (u : ℕ) (f : Thread → Thread) → IsPlain f → Ready s → Ready (modify u f s)
plain-Ready s u f p r = Ready-modify s u f r (record {
  linked = p.same_linked (s.thread u);
  cur_prio = p.same_prio (s.thread u);
  runable = λ l. ap is_runable (p.same_state (s.thread u)) ∙ r.runable u l;
})
