-- ===== src/Timer/Run.antt =====
-- Which callouts kern/timer.c calls when the clock moves.
use risc_v_workshop.Prelude.{
  ℕ, zero, suc, ◌≤◌, ◌<◌, ◌≡◌, ◌⊎◌, inl, inr, refl, ap, arith, true, false, Option, none, some,
  List, [], ◌∷◌, ◌++◌, length, All, Bool-cases, Ensures,
}
use risc_v_workshop.Klib.Queue.{Ascending}
use risc_v_workshop.Timer.{
  Ktimespec, CallOutEnt, SystemTimer, calloutent_cmp, expires_before, is_due, invoke_callout,
  advance, tim_update_walltime,
}

-- the time `t` has come at `now`
abbrev pub HasCome : Ktimespec → Ktimespec → Type 0
HasCome now t = (t.tv_sec < now.tv_sec) ⊎ ((t.tv_sec ≡ now.tv_sec) × (t.tv_nsec ≤ now.tv_nsec))

-- the time `t` is still ahead at `now`
abbrev pub IsAhead : Ktimespec → Ktimespec → Type 0
IsAhead now t = (now.tv_sec < t.tv_sec) ⊎ ((t.tv_sec ≡ now.tv_sec) × (now.tv_nsec < t.tv_nsec))

is_due-true : (now : Ktimespec) (e : CallOutEnt) → is_due now e ≡ true → HasCome now e.expire
unfolding is_due
is_due-true now e h = ground arith

is_due-false : (now : Ktimespec) (e : CallOutEnt) → is_due now e ≡ false → IsAhead now e.expire
unfolding is_due
is_due-false now e h = ground arith

IsAhead-later :
    (now : Ktimespec) (a b : CallOutEnt)
    → expires_before b a ≡ false
    → IsAhead now a.expire
    → IsAhead now b.expire
unfolding expires_before calloutent_cmp
IsAhead-later now a b h g = ground arith

IsAhead-All :
    (now : Ktimespec) (x : CallOutEnt) (xs : List CallOutEnt)
    → Ascending expires_before (x ∷ xs)
    → IsAhead now x.expire
    → All (λ e. IsAhead now e.expire) (x ∷ xs)
IsAhead-All now x [] a h = (h, tt)
IsAhead-All now x (y ∷ ys) a h = (h, IsAhead-All now y ys a.1 (IsAhead-later now x y a.0 h))

Ascending-rest :
    (x : CallOutEnt) (xs : List CallOutEnt)
    → Ascending expires_before (x ∷ xs)
    → Ascending expires_before xs
Ascending-rest x [] a = tt
Ascending-rest x (y ∷ ys) a = a.1

-- a run at `now` over the queue `xs`: what was called, and the timer it leaves
pub record Ran (now : Ktimespec) (xs : List CallOutEnt) (r : List CallOutEnt × SystemTimer)
    : Type 0 where
  pub split : xs ≡ r.0 ++ r.1.head
  pub clock : r.1.curtime ≡ now
  pub called : All (λ e. HasCome now e.expire) r.0
  pub left : All (λ e. IsAhead now e.expire) r.1.head

module _ (call : CallOutEnt → SystemTimer → SystemTimer)
    (quiet : (e : CallOutEnt) (t : SystemTimer) → call e t ≡ t) where
  invoke_runs :
      (fuel : ℕ) (now : Ktimespec) (xs : List CallOutEnt)
      → Ascending expires_before xs
      → length xs < fuel
      → Ensures (Ran now xs) (invoke_callout call fuel (record { curtime = now; head = xs }))
  unfolding invoke_callout
  invoke_runs zero now xs a h = absurd (omega arith)
  invoke_runs (suc fuel) now [] a h = record { split = refl; clock = refl; called = tt; left = tt }
  invoke_runs (suc fuel) now (x ∷ xs) a h = elim (Bool-cases (is_due now x)) [
    | inr e ↦
        rw (e, invoke_callout)
          (record {
            split = refl;
            clock = refl;
            called = tt;
            left = IsAhead-All now x xs a (is_due-false now x e);
          })
    | inl e ↦
        rw (e, invoke_callout, quiet x)
          (more (invoke_callout call fuel (record { curtime = now; head = xs }))
            (is_due-true now x e) (invoke_runs fuel now xs (Ascending-rest x xs a) (omega arith)))
  ]
    where
      more :
          (o : Option (List CallOutEnt × SystemTimer))
          → HasCome now x.expire
          → Ensures (Ran now xs) o
          → Ensures
              (Ran now (x ∷ xs))
              (elim o [ none ↦ none | some (called, last) ↦ some (x ∷ called, last) ])
      more none d r = r
      more (some (called, last)) d r = record {
        split = ap (λ l. x ∷ l) r.split;
        clock = r.clock;
        called = (d, r.called);
        left = r.left;
      }

  -- When the clock moves, the callouts whose time has come are called, in the order of the queue, and
  -- leave it; the entries that stay are the rest of the queue, and the time of each is still ahead. The
  -- queue is in ascending order, the callouts themselves leave the timer alone, and the fuel exceeds
  -- the length of the queue.
  pub update_walltime-Ran :
      (fuel : ℕ) (diff : Ktimespec) (timer : SystemTimer)
      → Ascending expires_before timer.head
      → length timer.head < fuel
      → Ensures
          (Ran (advance timer.curtime diff) timer.head)
          (tim_update_walltime call fuel diff timer)
  unfolding tim_update_walltime
  update_walltime-Ran fuel diff timer a h =
      invoke_runs fuel (advance timer.curtime diff) timer.head a h
