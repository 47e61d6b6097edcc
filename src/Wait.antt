-- ===== src/Wait.antt =====
-- Wait queues and mutexes: `wque_wakeup` of kern/wqueue.c, and kern/mutex.c without its sleeping loop.
-- An entry stands on the stack of the thread that sleeps; waking it returns it with its reason.
pub mod Wake
pub mod Wakeup
pub mod Exclusion
mod Tests
use risc_v_workshop.Prelude.{
  ℕ, zero, suc, ◌+◌, ◌-◌, Bool, true, false, not, Option, none, some, List, [], ◌∷◌, ◌++◌, ◌==◌,
  if◌then◌else◌, ◌>>=◌, Rc, done, fail, eagain,
}
use risc_v_workshop.Sched.{
  Sched, runable, modify, set_state, thr_ref_inc, thr_ref_dec, sched_thread_add,
}

-- WQUE_WAIT to WQUE_DELIVEV
pub data WqueReason : Type 0 where
  waiting released destroyed timeout deliver_event : WqueReason

pub record WqueEntry : Type 0 where
  pub thr : ℕ
  pub reason : WqueReason

-- `wake_one` is WQUE_WAKEFLAG_ONE
pub record WaitQueue : Type 0 where
  pub que : List WqueEntry
  pub wake_one : Bool

-- the body of the loop of `wque_wakeup` for a thread that has references
unfoldable pub wake_thread : ℕ → Sched → Option Sched
wake_thread thr s =
    sched_thread_add thr (modify thr (set_state runable) (thr_ref_inc thr s)) >>= λ added.
    if (added.thread thr).refs == 1 then none else some (thr_ref_dec thr added)

-- the entries that are woken, those that stay, and the scheduler
unfoldable pub wakeup_loop :
    WqueReason → Bool → List WqueEntry → Sched → Option (List WqueEntry × List WqueEntry × Sched)
unfolding wake_thread
wakeup_loop reason wake_one [] s = some ([], [], s)
wakeup_loop reason wake_one (ent ∷ rest) s =
    let told : WqueEntry = record ent { reason = reason } in
    let others = λ (after : Sched).
      wakeup_loop reason wake_one rest after >>= λ (woken, left, last).
      some (told ∷ woken, left, last) in
    elim ((s.thread ent.thr).refs == 0) [
      | true ↦ others s
      | false ↦ wake_thread ent.thr s >>= λ after. elim wake_one [
        | true ↦ some (told ∷ [], rest, after)
        | false ↦ others after
      ]
    ]

unfoldable pub wque_wakeup :
    WaitQueue → WqueReason → Sched → Option (List WqueEntry × WaitQueue × Sched)
unfolding wakeup_loop
wque_wakeup wque reason s = wakeup_loop reason wque.wake_one wque.que s >>= λ (woken, left, after).
    some (woken, record wque { que = left }, after)

pub record Mutex : Type 0 where
  pub owner : Option ℕ
  pub wque : WaitQueue
  pub resources : ℕ

abbrev pub mutex_init : Mutex
mutex_init = record { owner = none; wque = record { que = []; wake_one = false }; resources = 1 }

unfoldable pub lock_mutex_common : Mutex → Rc (Unit {0}) × Mutex
lock_mutex_common mtx =
    if mtx.resources == 0
    then (fail eagain, mtx)
    else (done tt, record mtx { resources = mtx.resources - 1 })

unfoldable pub mutex_try_lock : Mutex → Rc (Unit {0}) × Mutex
unfolding lock_mutex_common
mutex_try_lock mtx = lock_mutex_common mtx

unfoldable pub mutex_unlock : Mutex → Sched → Option (List WqueEntry × Mutex × Sched)
unfolding wque_wakeup
mutex_unlock mtx s = wque_wakeup mtx.wque released s >>= λ (woken, wque, after).
    some (woken, record { owner = none; wque = wque; resources = mtx.resources + 1 }, after)
