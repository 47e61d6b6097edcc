-- ===== src/Slab/Reap.antt =====
-- Giving free slabs back: `slab_kmem_cache_reap` and `slab_kmem_cache_destroy` of kern/page-slab.c.
use risc_v_workshop.Prelude.{
  ℕ, suc, ◌+◌, ◌≤◌, ◌<◌, ◌%◌, ◌^◌, ◌≡◌, ◌⊎◌, ap, refl, subst, arith, Bool, Bool-cases, inl, inr,
  true, false, leb, List, [], ◌∷◌, ◌++◌, has, length, is_empty, Distinct, has-append, sub64,
  Ensures,
}
use risc_v_workshop.Slab.{
  KmemCache, kmem_cache_is_busy, reap_loop, slab_kmem_cache_reap, destroy_loop,
  slab_kmem_cache_destroy,
}
use risc_v_workshop.Slab.Invariant.{IsConsistent, is_held}

-- What is left of the free queue: with force nothing, and otherwise no more than the limit asks for,
-- unless the queue was to be left as it is.
abbrev pub IsEnough : Bool → ℕ → List ℕ → List ℕ × ℕ → Type 0
IsEnough true limits free r = r.0 ≡ []
IsEnough false limits free r = ((r.0 ≡ []) ⊎ (r.1 ≤ limits)) × ((r.0 ≡ free) ⊎ (limits ≤ r.1))

record Left (force : Bool) (limits others : ℕ) (free : List ℕ) (r : List ℕ × ℕ) : Type 0 where
  counted : r.1 ≡ (others + length r.0) % 2 ^ 64
  once : Distinct r.0
  taken : (gone : List ℕ) × gone ++ r.0 ≡ free
  enough : IsEnough force limits free r

-- one slab less than more than the limit
not_below :
    (limits others slab_count : ℕ) (rest : List ℕ) (r : List ℕ × ℕ)
    → slab_count ≡ (others + suc (length rest)) % 2 ^ 64
    → limits < slab_count
    → r.1 ≡ (others + length r.0) % 2 ^ 64
    → r.0 ≡ rest
    → limits ≤ r.1
not_below limits others slab_count rest r e more counted same =
    omega (arith, e, more, counted, ap length same)

reap_loop-Left :
    (force : Bool) (limits others : ℕ) (free : List ℕ) (slab_count : ℕ)
    → slab_count ≡ (others + length free) % 2 ^ 64
    → Distinct free
    → Left force limits others free (reap_loop force limits free slab_count)
unfolding reap_loop
reap_loop-Left true limits others [] slab_count e d = record {
  counted = e;
  once = d;
  taken = ([], refl);
  enough = refl;
}
reap_loop-Left false limits others [] slab_count e d = record {
  counted = e;
  once = d;
  taken = ([], refl);
  enough = (inl refl, inl refl);
}
reap_loop-Left true limits others (s ∷ rest) slab_count e d =
    let l = reap_loop-Left true limits others rest (sub64 slab_count 1) (omega (arith, e)) d.1 in
    record {
      counted = l.counted;
      once = l.once;
      taken = (s ∷ l.taken.0, ap (λ xs. s ∷ xs) l.taken.1);
      enough = l.enough;
    }
reap_loop-Left false limits others (s ∷ rest) slab_count e d =
    let l = reap_loop-Left false limits others rest (sub64 slab_count 1) (omega (arith, e)) d.1 in
    elim (Bool-cases (leb slab_count limits)) [
      | inl q ↦ rw q (record {
        counted = e;
        once = d;
        taken = ([], refl);
        enough = (inr (ground (arith, q)), inl refl);
      })
      | inr q ↦ rw q (record {
        counted = l.counted;
        once = l.once;
        taken = (s ∷ l.taken.0, ap (λ xs. s ∷ xs) l.taken.1);
        enough = (
          l.enough.0,
          inr (elim l.enough.1 [
            | inl same ↦
                not_below limits others slab_count rest _ e (ground (arith, q)) l.counted same
            | inr above ↦ above
          ]),
        );
      })
    ]

-- The other queues are left alone, and so is which objects are out. `gone` are the slabs given back, the
-- first in the free queue first.
pub record Reaped (force : Bool) (before after : KmemCache) : Type 0 where
  pub consistent : IsConsistent after
  pub partial : after.partial ≡ before.partial
  pub full : after.full ≡ before.full
  pub held : (s i : ℕ) → is_held after s i ≡ is_held before s i
  pub gone : (slabs : List ℕ) × slabs ++ after.free ≡ before.free
  pub enough : IsEnough force before.limits before.free (after.free, after.slab_count)

module _ (force : Bool) (cache : KmemCache) (h : IsConsistent cache) where
  left :
      Left force cache.limits
        (length cache.partial + length cache.full)
        cache.free
        (reap_loop force cache.limits cache.free cache.slab_count)
  left =
      reap_loop-Left force cache.limits (length cache.partial + length cache.full) cache.free
        cache.slab_count h.counted h.free_once

  was_free :
      (s : ℕ)
      → has s (reap_loop force cache.limits cache.free cache.slab_count).0 ≡ true
      → has s cache.free ≡ true
  was_free s e =
      subst (λ xs. has s xs ≡ true) left.taken.1
        (ground (
          arith,
          has-append s left.taken.0 (reap_loop force cache.limits cache.free cache.slab_count).0,
          e,
        ))

  -- Giving free slabs back to the page allocator keeps consistent queues consistent and leaves the
  -- slabs in use and the objects that are out alone. The slabs given back are the first ones of the
  -- free queue, in its order. With force no free slab is left. Otherwise none is left or the cache has
  -- no more slabs than its limit, and the queue is as it was or the cache has no fewer slabs than its
  -- limit.
  pub slab_kmem_cache_reap-Reaped : Reaped force cache (slab_kmem_cache_reap force cache)
  unfolding slab_kmem_cache_reap
  slab_kmem_cache_reap-Reaped = record {
    consistent = record {
      some_objects = h.some_objects;
      fits = h.fits;
      partial_once = h.partial_once;
      full_once = h.full_once;
      free_once = left.once;
      partly = h.partly;
      filled = h.filled;
      unused = λ s e. h.unused s (was_free s e);
      sound = λ s e. h.sound s (ground (arith, was_free s));
      counted = left.counted;
    };
    partial = refl;
    full = refl;
    held = λ s i. refl;
    gone = left.taken;
    enough = left.enough;
  }

-- A cache in use is left as it is; of the others no slab is left.
pub record DestroyOutcome (before after : KmemCache) : Type 0 where
  pub consistent : IsConsistent after
  pub busy : kmem_cache_is_busy before ≡ true → after ≡ before
  pub idle : kmem_cache_is_busy before ≡ false → ((after.free ≡ []) × (after.slab_count ≡ 0))

empty-eq : {A : Type 0} (xs : List A) → is_empty xs ≡ true → xs ≡ []
empty-eq [] e = refl
empty-eq (x ∷ xs) e = absurd (ground arith)

-- without slabs in use, and without free ones, a cache has none
no_slabs :
    (cache : KmemCache)
    → IsConsistent cache
    → kmem_cache_is_busy cache ≡ false
    → cache.free ≡ []
    → cache.slab_count ≡ 0
no_slabs cache h e f = omega (
  arith,
  h.counted,
  ap length (empty-eq cache.partial (ground arith)),
  ap length (empty-eq cache.full (ground arith)),
  ap length f,
)

unchanged-DestroyOutcome :
    (cache : KmemCache)
    → IsConsistent cache
    → (kmem_cache_is_busy cache ≡ true) ⊎ (cache.free ≡ [])
    → DestroyOutcome cache cache
unchanged-DestroyOutcome cache h why = record {
  consistent = h;
  busy = λ b. refl;
  idle = λ b. elim why [ inl busy ↦ absurd (ground arith) | inr f ↦ (f, no_slabs cache h b f) ];
}

module _ (cache : KmemCache) (h : IsConsistent cache) where
  reaped : Reaped true cache (slab_kmem_cache_reap true cache)
  reaped = slab_kmem_cache_reap-Reaped true cache h

  emptied : is_empty (slab_kmem_cache_reap true cache).free ≡ true
  emptied = ap is_empty reaped.enough

  still_idle :
      kmem_cache_is_busy cache ≡ false
      → kmem_cache_is_busy (slab_kmem_cache_reap true cache) ≡ false
  unfolding slab_kmem_cache_reap
  still_idle b = b

  -- Destroying a cache with consistent queues ends, and leaves them consistent. A cache with an object
  -- in use is left as it is; otherwise no slab is left, and none is counted.
  pub slab_kmem_cache_destroy-Outcome :
      Ensures (DestroyOutcome cache) (slab_kmem_cache_destroy cache)
  unfolding slab_kmem_cache_destroy destroy_loop
  slab_kmem_cache_destroy-Outcome = elim (Bool-cases (is_empty cache.free)) [
    | inl e ↦ rw e (unchanged-DestroyOutcome cache h (inr (empty-eq cache.free e)))
    | inr e ↦ elim (Bool-cases (kmem_cache_is_busy cache)) [
      | inl b ↦ rw (e, b) (unchanged-DestroyOutcome cache h (inl b))
      | inr b ↦
          rw (e, b, emptied)
            (record {
              consistent = reaped.consistent;
              busy = λ a. absurd (ground arith);
              idle = λ a. (
                reaped.enough,
                no_slabs (slab_kmem_cache_reap true cache) reaped.consistent (still_idle b)
                    reaped.enough,
              );
            })
    ]
  ]
