-- ===== src/Timer/Walltime.antt =====
-- The clock of kern/timer.c: `tim_update_walltime` adds exactly, `tim_callout_add` does not.
use risc_v_workshop.Prelude.{ℕ, ◌+◌, ◌*◌, ◌%◌, ◌≤◌, ◌<◌, ◌≡◌, ◌⊎◌, arith}
use risc_v_workshop.Timer.{Ktimespec, timer_ns_per_sec, advance, expire_at}

-- a time in nanoseconds
abbrev pub nanoseconds : Ktimespec → ℕ
nanoseconds t = t.tv_sec * timer_ns_per_sec + t.tv_nsec

abbrev pub IsNormal : Ktimespec → Type 0
IsNormal t = t.tv_nsec < timer_ns_per_sec

-- The clock moves by exactly the time given, whatever nanoseconds either has, and ends with fewer than
-- a second's worth of nanoseconds.
pub advance_exact :
    (now ld : Ktimespec)
    → (nanoseconds (advance now ld) ≡ nanoseconds now + nanoseconds ld) × IsNormal (advance now ld)
unfolding advance
advance_exact now ld = ground arith

-- From a normal time, the expiry of a callout is never early. It is exact and normal as long as the
-- nanoseconds do not carry. If they carry it is one second late, and its nanoseconds are a second or
-- more.
pub expire_at_lem :
    (now : Ktimespec) (ms : ℕ)
    → IsNormal now
    → ((now.tv_nsec + ms % 1000 * 1000000 < timer_ns_per_sec)
        × (nanoseconds (expire_at now ms) ≡ nanoseconds now + ms * 1000000)
        × IsNormal (expire_at now ms))
      ⊎ ((timer_ns_per_sec ≤ now.tv_nsec + ms % 1000 * 1000000)
          × (nanoseconds (expire_at now ms) ≡ nanoseconds now + ms * 1000000 + timer_ns_per_sec)
          × (timer_ns_per_sec ≤ (expire_at now ms).tv_nsec))
unfolding expire_at
expire_at_lem now ms h = ground arith
