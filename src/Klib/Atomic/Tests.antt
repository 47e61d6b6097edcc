-- ===== src/Klib/Atomic/Tests.antt =====
-- A counter of 5 that another processor raises to 6 between the first read and the first attempt.
use risc_v_workshop.Prelude.{ℕ, ◌≡◌, refl, some, List, [], ◌∷◌, Ensures}
use risc_v_workshop.Klib.Atomic.{
  refcnt_inc_if_valid, add32, atomic_add_fetch_unless, unless_loop, atomic_try_cmpxchg_fetch,
  atomic_cmpxchg_fetch,
}
use risc_v_workshop.Klib.Atomic.Unless.{UnlessOutcome, refcnt_inc_if_valid-Outcome}

abbrev other_increments : List ℕ
other_increments = 6 ∷ 6 ∷ []

refcnt_inc_if_valid-Outcome_example :
    Ensures
      (UnlessOutcome (λ cur. add32 cur 1) 0 other_increments)
      (refcnt_inc_if_valid 5 other_increments)
refcnt_inc_if_valid-Outcome_example = refcnt_inc_if_valid-Outcome 5 [] 6 []

retried : refcnt_inc_if_valid 5 other_increments ≡ some (6, some 7)
unfolding refcnt_inc_if_valid atomic_add_fetch_unless unless_loop atomic_try_cmpxchg_fetch
    atomic_cmpxchg_fetch
retried = refl
