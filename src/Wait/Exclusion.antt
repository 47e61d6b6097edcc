-- ===== src/Wait/Exclusion.antt =====
-- kern/mutex.c as steps of many threads: each step runs under the mutex's lock. A thread that finds the
-- mutex taken queues itself and sleeps; when it runs again it starts the loop of `mutex_lock` anew.
use risc_v_workshop.Prelude.{
  ℕ, ◌+◌, ◌≤◌, ◌≡◌, ◌↔◌, refl, ap, subst, inl, inr, Bool-cases, arith, true, Option, none, some,
  List, [], ◌∷◌, ◌++◌, length, has, remove, length-remove, Rc, done, fail, eagain, ◌==◌, ◌>>=◌,
}
use risc_v_workshop.Sched.{Sched}
use risc_v_workshop.Wait.{
  WqueEntry, WaitQueue, released, waiting, Mutex, mutex_init, lock_mutex_common, mutex_unlock,
  wque_wakeup,
}

-- `holders` are the threads whose last call of `mutex_lock` or `mutex_try_lock` succeeded and that have
-- not called `mutex_unlock` since.
pub record System : Type 0 where
  pub mtx : Mutex
  pub sched : Sched
  pub holders : List ℕ

-- enque_wque_entry of the thread's entry
abbrev pub queue_entry : ℕ → Mutex → Mutex
queue_entry t mtx = record mtx {
  wque = record mtx.wque { que = mtx.wque.que ++ record { thr = t; reason = waiting } ∷ [] };
}

pub data Step (s : System) : System → Type 0 where
  acquire :
      (t : ℕ) {m : Mutex}
      → lock_mutex_common s.mtx ≡ (done tt, m)
      → Step s (record s { mtx = m; holders = t ∷ s.holders })
  -- `mutex_try_lock` gives up, `mutex_lock` goes to sleep
  give_up : {m : Mutex} → lock_mutex_common s.mtx ≡ (fail eagain, m) → Step s (record s { mtx = m })
  sleep :
      (t : ℕ) {m : Mutex}
      → lock_mutex_common s.mtx ≡ (fail eagain, m)
      → Step s (record s { mtx = queue_entry t m })
  -- only a holder unlocks
  release :
      (t : ℕ) {m : Mutex} {woken : List WqueEntry} {sched : Sched}
      → has t s.holders ≡ true
      → mutex_unlock s.mtx s.sched ≡ some (woken, m, sched)
      → Step s (record { mtx = m; sched = sched; holders = remove t s.holders })
  -- the scheduler and the other threads go on
  others : (sched : Sched) → Step s (record s { sched = sched })

pub data Reach (start : Sched) : System → Type 0 where
  begin : Reach start (record { mtx = mutex_init; sched = start; holders = [] })
  later : {s t : System} → Reach start s → Step s t → Reach start t

abbrev IsBalanced : System → Type 0
IsBalanced s = s.mtx.resources + length s.holders ≡ 1

-- what trying to take the mutex does
abbrev LockOutcome : Mutex → Rc (Unit {0}) × Mutex → Type 0
LockOutcome mtx (done _, m) = m.resources + 1 ≡ mtx.resources
LockOutcome mtx (fail eagain, m) = (m ≡ mtx) × (mtx.resources ≡ 0)
LockOutcome mtx (fail _, m) = ⊥

lock_mutex_common-Outcome : (mtx : Mutex) → LockOutcome mtx (lock_mutex_common mtx)
unfolding lock_mutex_common
lock_mutex_common-Outcome mtx = elim (Bool-cases (mtx.resources == 0)) [
  | inl e ↦ rw (e, LockOutcome) (refl, ground arith)
  | inr e ↦ rw (e, LockOutcome) (ground arith)
]

-- a result, if there is one, has the property
abbrev IfSome {ℓ} : {A : Type ℓ} → (A → Type 0) → Option A → Type 0
IfSome P none = Unit
IfSome P (some a) = P a

unlocked :
    (mtx : Mutex) (o : Option (List WqueEntry × WaitQueue × Sched))
    → IfSome
        (λ (r : List WqueEntry × Mutex × Sched). r.1.resources ≡ mtx.resources + 1)
        (o >>= λ (woken, wque, after).
          some (woken, record { owner = none; wque = wque; resources = mtx.resources + 1 }, after))
unlocked mtx none = tt
unlocked mtx (some (woken, wque, after)) = refl

unlock_resources :
    (mtx m : Mutex) (s sched : Sched) (woken : List WqueEntry)
    → mutex_unlock mtx s ≡ some (woken, m, sched)
    → m.resources ≡ mtx.resources + 1
unfolding mutex_unlock
unlock_resources mtx m s sched woken e =
    subst (IfSome (λ (r : List WqueEntry × Mutex × Sched). r.1.resources ≡ mtx.resources + 1)) e
      (unlocked mtx (wque_wakeup mtx.wque released s))

Step-IsBalanced : (s t : System) → Step s t → IsBalanced s → IsBalanced t
Step-IsBalanced s _ (acquire t e) b =
    let taken = subst (LockOutcome s.mtx) e (lock_mutex_common-Outcome s.mtx) in
    omega (arith, taken, b)
Step-IsBalanced s _ (give_up e) b =
    let same = subst (LockOutcome s.mtx) e (lock_mutex_common-Outcome s.mtx) in
    omega (arith, ap (λ m. m.resources) same.0, b)
Step-IsBalanced s _ (sleep t e) b =
    let same = subst (LockOutcome s.mtx) e (lock_mutex_common-Outcome s.mtx) in
    omega (arith, ap (λ m. m.resources) same.0, b)
Step-IsBalanced s _ (release t h e) b =
    omega (arith, unlock_resources _ _ _ _ _ e, length-remove t s.holders h, b)
Step-IsBalanced s _ (others sched) b = b

Reach-IsBalanced : (start : Sched) (s : System) → Reach start s → IsBalanced s
Reach-IsBalanced start _ begin = refl
Reach-IsBalanced start _ (later {s} {t} r step) =
    Step-IsBalanced s t step (Reach-IsBalanced start s r)

apart : (o : Rc (Unit {0})) → o ≡ done tt → o ≡ fail eagain → ⊥
apart o p q = absurd (cc)

-- In every state that any threads reach from a fresh mutex, where only a holder unlocks, at most one
-- thread holds it; it can be taken exactly if none does, by the same call that else fails with EAGAIN
-- and changes nothing.
pub mutex_exclusion :
    (start : Sched) (s : System)
    → Reach start s
    → (length s.holders ≤ 1)
      × ((length s.holders ≡ 0) ↔ ((lock_mutex_common s.mtx).0 ≡ done tt))
      × ((length s.holders ≡ 1) ↔ (lock_mutex_common s.mtx ≡ (fail eagain, s.mtx)))
unfolding lock_mutex_common
mutex_exclusion start s r =
    let b = Reach-IsBalanced start s r in
    elim (Bool-cases (s.mtx.resources == 0)) [
      | inl e ↦ rw e (
        omega arith,
        ((λ h. ground arith), (λ h. absurd (apart _ h refl))),
        ((λ h. refl), (λ h. ground arith)),
      )
      | inr e ↦ rw e (
        omega arith,
        ((λ h. refl), (λ h. ground arith)),
        ((λ h. ground arith), (λ h. absurd (apart _ refl (ap (λ o. o.0) h)))),
      )
    ]
