-- ===== src/Wait/Tests.antt =====
-- Two threads that sleep on a queue, and a mutex that one thread holds.
use risc_v_workshop.Prelude.{
  ℕ, ◌≡◌, ◌≤◌, ◌↔◌, refl, arith, false, [], ◌∷◌, length, All, Ensures, done, fail, eagain,
}
use risc_v_workshop.Sched.{run}
use risc_v_workshop.Sched.Tests.{start, start-Ready}
use risc_v_workshop.Wait.{WqueEntry, waiting, released, wque_wakeup, lock_mutex_common, mutex_init}
use risc_v_workshop.Wait.Wake.{IsAsleep}
use risc_v_workshop.Wait.Wakeup.{AllWoken, Distinct, wakeup_all-AllWoken}
use risc_v_workshop.Wait.Exclusion.{System, Reach, begin, later, acquire, mutex_exclusion}

abbrev entry_of : ℕ → WqueEntry
entry_of t = record { thr = t; reason = waiting }

two-IsAsleep : All (λ e. IsAsleep e.thr (start run)) (entry_of 2 ∷ entry_of 3 ∷ [])
two-IsAsleep = (record { free = refl; refs = refl }, (record { free = refl; refs = refl }, tt))

two-Distinct : Distinct (entry_of 2 ∷ entry_of 3 ∷ [])
two-Distinct = (((λ e. omega arith), tt), (tt, tt))

wakeup_all-AllWoken_example :
    Ensures
      (λ r. AllWoken released (entry_of 2 ∷ entry_of 3 ∷ []) (start run) (r.0, r.1.que, r.2))
      (wque_wakeup
        (record { que = entry_of 2 ∷ entry_of 3 ∷ []; wake_one = false })
        released
        (start run))
wakeup_all-AllWoken_example =
    wakeup_all-AllWoken released (entry_of 2 ∷ entry_of 3 ∷ []) (start run) (start-Ready run)
      two-IsAsleep two-Distinct

-- thread 2 has taken the mutex
abbrev held : System
held = record { mtx = record mutex_init { resources = 0 }; sched = start run; holders = 2 ∷ [] }

held_reached : Reach (start run) held
unfolding lock_mutex_common
held_reached = later begin (acquire 2 refl)

mutex_exclusion_example :
    (length held.holders ≤ 1)
    × ((length held.holders ≡ 0) ↔ ((lock_mutex_common held.mtx).0 ≡ done tt))
    × ((length held.holders ≡ 1) ↔ (lock_mutex_common held.mtx ≡ (fail eagain, held.mtx)))
mutex_exclusion_example = mutex_exclusion (start run) held held_reached
