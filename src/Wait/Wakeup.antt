-- ===== src/Wait/Wakeup.antt =====
-- Waking the threads of a wait queue, in kern/wqueue.c.
use risc_v_workshop.Prelude.{
  ℕ, ◌≡◌, ◌≢◌, refl, ap, sym, ◌∙◌, true, false, List, [], ◌∷◌, ◌==◌, All, All-map, All-and, Ensures,
  Ensures-bind,
}
use mathlib.Core.List.{map}
use risc_v_workshop.Sched.{Sched}
use risc_v_workshop.Sched.Ready.{Ready}
use risc_v_workshop.Wait.{WqueReason, WqueEntry, wake_thread, wakeup_loop, wque_wakeup}
use risc_v_workshop.Wait.Wake.{IsAsleep, Woken, wake_thread-Woken}

-- no two entries are of the same thread
abbrev pub Distinct : List WqueEntry → Type 0
Distinct [] = Unit
Distinct (e ∷ es) = All (λ f. e.thr ≢ f.thr) es × Distinct es

abbrev pub tell : WqueReason → WqueEntry → WqueEntry
tell reason e = record e { reason = reason }

-- All threads of the entries `es` are awake.
pub record AllWoken (reason : WqueReason) (es : List WqueEntry) (s : Sched)
    (r : List WqueEntry × List WqueEntry × Sched) : Type 0 where
  pub woken : r.0 ≡ map (tell reason) es
  pub left : r.1 ≡ []
  pub ready : Ready r.2
  pub linked : All (λ e. (r.2.thread e.thr).linked ≡ true) es
  pub unmoved : (u : ℕ) → All (λ e. e.thr ≢ u) es → (r.2.thread u).linked ≡ (s.thread u).linked

still-IsAsleep :
    (t u : ℕ) (s after : Sched) → Woken t s after → t ≢ u → IsAsleep u s → IsAsleep u after
still-IsAsleep t u s after w d a = record {
  free = w.unmoved u d ∙ a.free;
  refs = ap (λ n. n == 0) (w.same_refs u) ∙ a.refs;
}

module _ (reason : WqueReason) where
  wakeup_loop-AllWoken :
      (es : List WqueEntry) (s : Sched)
      → Ready s
      → All (λ e. IsAsleep e.thr s) es
      → Distinct es
      → Ensures (AllWoken reason es s) (wakeup_loop reason false es s)
  unfolding wakeup_loop
  wakeup_loop-AllWoken [] s r a d = record {
    woken = refl;
    left = refl;
    ready = r;
    linked = tt;
    unmoved = λ u h. refl;
  }
  wakeup_loop-AllWoken (e ∷ es) s r a d =
      rw (a.0.refs, wakeup_loop)
        (Ensures-bind (Woken e.thr s) (AllWoken reason (e ∷ es) s) (wake_thread e.thr s) _
          (wake_thread-Woken e.thr s r a.0)
          (λ after w.
            Ensures-bind (AllWoken reason es after) (AllWoken reason (e ∷ es) s)
              (wakeup_loop reason false es after) _
              (wakeup_loop-AllWoken es after w.ready
                (All-map _ _ es (λ f p. still-IsAsleep e.thr f.thr s after w p.1 p.0)
                  (All-and _ _ es a.1 d.0))
                d.1)
              (λ o h. record {
                woken = ap (λ l. tell reason e ∷ l) h.woken;
                left = h.left;
                ready = h.ready;
                linked = (
                  h.unmoved e.thr (All-map _ _ es (λ f p q. p (sym q)) d.0) ∙ w.linked,
                  h.linked,
                );
                unmoved = λ u n. h.unmoved u n.1 ∙ w.unmoved u n.0;
              })))

  -- Waking a queue whose policy is to wake all, of threads that sleep, each with one entry, fails no
  -- assertion on a well-formed ready queue. It empties the queue and gives every entry the reason; all
  -- the threads are then in the ready queue, which is well formed, and which other threads are in it
  -- does not change.
  pub wakeup_all-AllWoken :
      (es : List WqueEntry) (s : Sched)
      → Ready s
      → All (λ e. IsAsleep e.thr s) es
      → Distinct es
      → Ensures
          (λ r. AllWoken reason es s (r.0, r.1.que, r.2))
          (wque_wakeup (record { que = es; wake_one = false }) reason s)
  unfolding wque_wakeup
  wakeup_all-AllWoken es s r a d =
      Ensures-bind (AllWoken reason es s) _ (wakeup_loop reason false es s) _
        (wakeup_loop-AllWoken es s r a d) (λ o h. h)

  abbrev OneWoken :
      WqueEntry → List WqueEntry → Sched → List WqueEntry × List WqueEntry × Sched → Type 0
  OneWoken e es s r = (r.0 ≡ tell reason e ∷ []) × (r.1 ≡ es) × Woken e.thr s r.2

  wakeup_loop-one :
      (e : WqueEntry) (es : List WqueEntry) (s : Sched)
      → Ready s
      → IsAsleep e.thr s
      → Ensures (OneWoken e es s) (wakeup_loop reason true (e ∷ es) s)
  unfolding wakeup_loop
  wakeup_loop-one e es s r a =
      rw (a.refs, wakeup_loop)
        (Ensures-bind (Woken e.thr s) (OneWoken e es s) (wake_thread e.thr s) _
          (wake_thread-Woken e.thr s r a) (λ after w. (refl, refl, w)))

  -- Waking a queue whose policy is to wake one wakes the thread of the first entry only: that entry gets
  -- the reason and leaves the queue, the others stay. The thread sleeps and the ready queue is well
  -- formed; afterwards it is in the ready queue.
  pub wakeup_one-Woken :
      (e : WqueEntry) (es : List WqueEntry) (s : Sched)
      → Ready s
      → IsAsleep e.thr s
      → Ensures
          (λ r. (r.0 ≡ tell reason e ∷ []) × (r.1.que ≡ es) × Woken e.thr s r.2)
          (wque_wakeup (record { que = e ∷ es; wake_one = true }) reason s)
  unfolding wque_wakeup
  wakeup_one-Woken e es s r a =
      Ensures-bind (OneWoken e es s) _ (wakeup_loop reason true (e ∷ es) s) _
        (wakeup_loop-one e es s r a) (λ o h. h)
