-- ===== src/Timer/Tests.antt =====
-- A timer with two callouts, and runs of the operations of kern/timer.c on it.
use risc_v_workshop.Prelude.{
  ℕ, ◌+◌, ◌*◌, ◌≤◌, ◌<◌, ◌≡◌, ◌⊎◌, refl, arith, [], ◌∷◌, done, Ensures, ◌%◌,
}
use risc_v_workshop.Klib.Queue.{Ascending}
use risc_v_workshop.Timer.{
  Ktimespec, CallOutEnt, SystemTimer, expires_before, calloutent_cmp, expire_at, tim_callout_add,
  tim_callout_cancel, advance, tim_update_walltime, timer_ns_per_sec,
}
use risc_v_workshop.Timer.Walltime.{nanoseconds, IsNormal, expire_at_lem}
use risc_v_workshop.Timer.Callout.{
  Added, callout_add-Added, callout_cancel-Outcome, CancelOutcome, new_entry,
}
use mathlib.Core.List.{Perm}
use risc_v_workshop.Timer.Run.{Ran, update_walltime-Ran}

abbrev at : ℕ → ℕ → Ktimespec
at s n = record { tv_sec = s; tv_nsec = n }

abbrev entry : ℕ → Ktimespec → CallOutEnt
entry a t = record { address = a; expire = t; callout = 7; private = 0 }

abbrev two_entries : SystemTimer
two_entries = record { curtime = at 5 0; head = entry 64 (at 6 0) ∷ entry 128 (at 8 500) ∷ [] }

two_entries-Ascending : Ascending expires_before two_entries.head
unfolding expires_before calloutent_cmp
two_entries-Ascending = (refl, tt)

expire_at_lem_example :
    ((500000000 + 600 % 1000 * 1000000 < timer_ns_per_sec)
      × (nanoseconds (expire_at (at 5 500000000) 600)
          ≡ nanoseconds (at 5 500000000) + 600 * 1000000)
      × IsNormal (expire_at (at 5 500000000) 600))
    ⊎ ((timer_ns_per_sec ≤ 500000000 + 600 % 1000 * 1000000)
        × (nanoseconds (expire_at (at 5 500000000) 600)
            ≡ nanoseconds (at 5 500000000) + 600 * 1000000 + timer_ns_per_sec)
        × (timer_ns_per_sec ≤ (expire_at (at 5 500000000) 600).tv_nsec))
expire_at_lem_example = expire_at_lem (at 5 500000000) 600 (omega arith)

callout_add-Added_example :
    Perm
      (tim_callout_add (done 192) 4000 7 0 two_entries).1.head
      (new_entry 192 4000 7 0 two_entries ∷ entry 64 (at 6 0) ∷ entry 128 (at 8 500) ∷ [])
    × Added
        (new_entry 192 4000 7 0 two_entries)
        (entry 64 (at 6 0))
        (entry 128 (at 8 500) ∷ [])
        (tim_callout_add (done 192) 4000 7 0 two_entries).1.head
callout_add-Added_example =
    callout_add-Added 192 4000 7 0 two_entries (entry 64 (at 6 0)) (entry 128 (at 8 500) ∷ []) refl
      two_entries-Ascending

callout_cancel-Outcome_example : CancelOutcome 128 two_entries (tim_callout_cancel 128 two_entries)
callout_cancel-Outcome_example = callout_cancel-Outcome 128 two_entries

update_walltime-Ran_example :
    Ensures
      (Ran (advance (at 5 0) (at 2 0)) two_entries.head)
      (tim_update_walltime (λ e t. t) 3 (at 2 0) two_entries)
update_walltime-Ran_example =
    update_walltime-Ran (λ e t. t) (λ e t. refl) 3 (at 2 0) two_entries two_entries-Ascending
      (omega arith)
