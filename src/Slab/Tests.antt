-- ===== src/Slab/Tests.antt =====
-- Caches with three objects to a slab: one is taken from slab 1 with one free, all are taken from slab 2,
-- and none is taken from slab 3.
use risc_v_workshop.Prelude.{
  ℕ, ◌+◌, ◌<◌, ◌^◌, ◌≡◌, refl, subst, arith, Bool-cases, inl, inr, true, false, ◌==◌, if◌then◌else◌,
  none, some, List, [], ◌∷◌, has, length, Distinct, done, fail, enomem, Ensures, ◌>>=◌, ap,
  value_or,
}
use risc_v_workshop.Slab.{
  Slab, KmemCache, Supply, slab_kmem_cache_grow, add_objects, link_grown, slab_kmem_cache_alloc,
  slab_kmem_cache_free, slab_kmem_cache_reap, slab_kmem_cache_destroy, choose_slab, reserve_object,
  alloc_slab_obj, unlink_slab, free_slab_obj, requeue_slab,
}
use risc_v_workshop.Slab.Invariant.{IsSound, IsConsistent}
use risc_v_workshop.Slab.Grow.{AllocOutcome, IsFresh}
use risc_v_workshop.Slab.Alloc.{slab_kmem_cache_alloc-Outcome}
use risc_v_workshop.Slab.Held.{Released}
use risc_v_workshop.Slab.Free.{slab_kmem_cache_free-Released}
use risc_v_workshop.Slab.Reap.{
  Reaped, DestroyOutcome, slab_kmem_cache_reap-Reaped, slab_kmem_cache_destroy-Outcome,
}
use risc_v_workshop.Slab.Races.{alloc_in_free-Fails, free_in_free-Fails}

abbrev some_slabs : ℕ → Slab
some_slabs s =
    if s == 1
    then record { objects = 1 ∷ []; count = 2 }
    else if s == 2
    then record { objects = []; count = 3 }
    else record { objects = 2 ∷ 1 ∷ 0 ∷ []; count = 0 }

abbrev some_cache : List ℕ → List ℕ → List ℕ → KmemCache
some_cache partial full free = record {
  limits = 1;
  slab_count = length partial + length full + length free;
  objs_per_slab = 3;
  on_slab = false;
  partial = partial;
  full = full;
  free = free;
  slabs = some_slabs;
}

slab_1-IsSound : IsSound 3 (some_slabs 1)
unfolding has
slab_1-IsSound = record { together = refl; once = (refl, tt); indices = (omega arith, tt) }

slab_2-IsSound : IsSound 3 (some_slabs 2)
slab_2-IsSound = record { together = refl; once = tt; indices = tt }

slab_3-IsSound : IsSound 3 (some_slabs 3)
unfolding has
slab_3-IsSound = record {
  together = refl;
  once = (refl, (refl, (refl, tt)));
  indices = (omega arith, (omega arith, (omega arith, tt)));
}

abbrev Only : ℕ → List ℕ → Type 0
Only s xs = (t : ℕ) → has t xs ≡ true → s ≡ t

Only-none : (s : ℕ) → Only s []
unfolding has
Only-none s t e = absurd (ground arith)

Only-one : (s : ℕ) → Only s (s ∷ [])
unfolding has
Only-one s t e = ground arith

some_cache-IsConsistent :
    (partial full free : List ℕ)
    → Only 1 partial
    → Only 2 full
    → Only 3 free
    → Distinct partial
    → Distinct full
    → Distinct free
    → length partial + length full + length free < 2 ^ 64
    → IsConsistent (some_cache partial full free)
some_cache-IsConsistent partial full free p f e once_p once_f once_e small = record {
  some_objects = omega arith;
  fits = omega arith;
  partial_once = once_p;
  full_once = once_f;
  free_once = once_e;
  partly = λ s h.
      subst (λ t. (0 < (some_slabs t).count) × ((some_slabs t).count < 3)) (p s h)
        (omega arith, omega arith);
  filled = λ s h. subst (λ t. (some_slabs t).count ≡ 3) (f s h) refl;
  unused = λ s h. subst (λ t. (some_slabs t).count ≡ 0) (e s h) refl;
  sound = λ s h. elim (Bool-cases (has s partial)) [
    | inl h_p ↦ subst (λ t. IsSound 3 (some_slabs t)) (p s h_p) slab_1-IsSound
    | inr n_p ↦ elim (Bool-cases (has s full)) [
      | inl h_f ↦ subst (λ t. IsSound 3 (some_slabs t)) (f s h_f) slab_2-IsSound
      | inr n_f ↦ subst (λ t. IsSound 3 (some_slabs t)) (e s (ground arith)) slab_3-IsSound
    ]
  ];
  counted = omega (arith, small);
}

mixed_cache-IsConsistent : IsConsistent (some_cache (1 ∷ []) (2 ∷ []) (3 ∷ []))
unfolding has
mixed_cache-IsConsistent =
    some_cache-IsConsistent (1 ∷ []) (2 ∷ []) (3 ∷ []) (Only-one 1) (Only-one 2) (Only-one 3)
      (refl, tt) (refl, tt) (refl, tt) (omega arith)

full_cache-IsConsistent : IsConsistent (some_cache [] (2 ∷ []) [])
unfolding has
full_cache-IsConsistent =
    some_cache-IsConsistent [] (2 ∷ []) [] (Only-none 1) (Only-one 2) (Only-none 3) tt (refl, tt) tt
      (omega arith)

idle_cache-IsConsistent : IsConsistent (some_cache [] [] (3 ∷ []))
unfolding has
idle_cache-IsConsistent =
    some_cache-IsConsistent [] [] (3 ∷ []) (Only-none 1) (Only-none 2) (Only-one 3) tt tt (refl, tt)
      (omega arith)

-- The page 7 for a slab with its information apart, and three control blocks.
abbrev enough_supply : Supply
enough_supply = record { page = some 7; info = true; bufctls = 3 }

-- a page, but one control block too few
abbrev short_supply : Supply
short_supply = record { page = some 7; info = true; bufctls = 2 }

enough_supply-IsFresh : IsFresh (some_cache [] (2 ∷ []) []) enough_supply
unfolding has
enough_supply-IsFresh s e = let seven : 7 ≡ s = ap (value_or 8) e in ground (arith, seven)

alloc_grows :
    Ensures
      (λ r. r.0 ≡ done (7, 2))
      (slab_kmem_cache_alloc (some_cache [] (2 ∷ []) []) enough_supply)
unfolding slab_kmem_cache_alloc choose_slab slab_kmem_cache_grow add_objects link_grown
    reserve_object alloc_slab_obj has
alloc_grows = refl

alloc_short :
    slab_kmem_cache_alloc (some_cache [] (2 ∷ []) []) short_supply
    ≡ some (fail enomem, some_cache [] (2 ∷ []) [])
unfolding slab_kmem_cache_alloc choose_slab slab_kmem_cache_grow add_objects
alloc_short = refl

slab_kmem_cache_alloc-Outcome_example :
    Ensures
      (AllocOutcome (some_cache [] (2 ∷ []) []))
      (slab_kmem_cache_alloc (some_cache [] (2 ∷ []) []) enough_supply)
slab_kmem_cache_alloc-Outcome_example =
    slab_kmem_cache_alloc-Outcome (some_cache [] (2 ∷ []) []) full_cache-IsConsistent enough_supply
      enough_supply-IsFresh

slab_kmem_cache_free-Released_example :
    Ensures
      (Released (some_cache (1 ∷ []) (2 ∷ []) (3 ∷ [])) 2 1)
      (slab_kmem_cache_free 2 1 (some_cache (1 ∷ []) (2 ∷ []) (3 ∷ [])))
unfolding has
slab_kmem_cache_free-Released_example =
    slab_kmem_cache_free-Released (some_cache (1 ∷ []) (2 ∷ []) (3 ∷ [])) mixed_cache-IsConsistent 2
      1 refl

slab_kmem_cache_reap-Reaped_example :
    Reaped false
      (some_cache (1 ∷ []) (2 ∷ []) (3 ∷ []))
      (slab_kmem_cache_reap false (some_cache (1 ∷ []) (2 ∷ []) (3 ∷ [])))
slab_kmem_cache_reap-Reaped_example =
    slab_kmem_cache_reap-Reaped false (some_cache (1 ∷ []) (2 ∷ []) (3 ∷ []))
      mixed_cache-IsConsistent

slab_kmem_cache_destroy-Outcome_example :
    Ensures
      (DestroyOutcome (some_cache [] [] (3 ∷ [])))
      (slab_kmem_cache_destroy (some_cache [] [] (3 ∷ [])))
slab_kmem_cache_destroy-Outcome_example =
    slab_kmem_cache_destroy-Outcome (some_cache [] [] (3 ∷ [])) idle_cache-IsConsistent

alloc_in_free-Fails_example :
    (opened : KmemCache) × (reserved : KmemCache) × (unlink_slab 2 (some_cache [] (2 ∷ []) [])
      ≡ some opened)
    × (choose_slab opened opened.partial opened.free ≡ some (2, opened))
    × (reserve_object 2 opened ≡ some reserved)
    × (alloc_slab_obj 2 reserved ≡ none)
unfolding has
alloc_in_free-Fails_example =
    alloc_in_free-Fails (some_cache [] (2 ∷ []) []) full_cache-IsConsistent 2 0 refl refl refl
      (omega arith)

free_in_free-Fails_example :
    (last : KmemCache) × ((unlink_slab 1 (some_cache (1 ∷ []) (2 ∷ []) (3 ∷ []))
        >>= unlink_slab 1
        >>= free_slab_obj 1 0
        >>= free_slab_obj 1 2
        >>= requeue_slab 1)
      ≡ some last)
    × (requeue_slab 1 last ≡ none)
unfolding has
free_in_free-Fails_example =
    free_in_free-Fails (some_cache (1 ∷ []) (2 ∷ []) (3 ∷ [])) mixed_cache-IsConsistent 1 0 2 refl
      refl refl refl (omega arith)
