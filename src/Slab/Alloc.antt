-- ===== src/Slab/Alloc.antt =====
-- What `slab_kmem_cache_alloc` of kern/page-slab.c does.
use risc_v_workshop.Prelude.{
  ℕ, ◌≡◌, sym, refl, subst, arith, Bool-cases, inl, inr, not, ◌&&◌, Option, none, some, List, [],
  ◌∷◌, Rc, done, fail, enomem, Ensures, ◌>>=◌,
}
use risc_v_workshop.Slab.{
  Slab, KmemCache, Supply, slab_kmem_cache_grow, choose_slab, slab_kmem_cache_alloc, grown_at,
  grow_from, take_object, take_grown, take_chosen,
}
use risc_v_workshop.Slab.Invariant.{IsSound, IsConsistent}
use risc_v_workshop.Slab.Grow.{
  partial-IsTaking, free-IsTaking, free-held, HasAll, add_objects-HasAll, grown_cache,
  grown-IsTaking, grown-held, linked, AllocOutcome, IsFresh, take_all,
}

-- A cache that grows gets the page that it was given, with all objects free.
abbrev GrowOutcome : KmemCache → Option ℕ → Rc (ℕ × Slab) → Type 0
GrowOutcome cache page (fail rc) = rc ≡ enomem
GrowOutcome cache page (done (s, sinfo)) =
    (page ≡ some s) × IsSound cache.objs_per_slab sinfo × (sinfo.count ≡ 0)

grown_at-GrowOutcome :
    (cache : KmemCache) (kaddr : ℕ) (objects : Option (List ℕ))
    → HasAll cache.objs_per_slab objects
    → GrowOutcome cache (some kaddr) (grown_at kaddr objects).0
unfolding grown_at
grown_at-GrowOutcome cache kaddr none h = refl
grown_at-GrowOutcome cache kaddr (some objects) h =
    (refl, record { together = omega (arith, h.0); once = h.1; indices = h.2 }, refl)

grow-GrowOutcome :
    (cache : KmemCache) (supply : Supply) (page : Option ℕ)
    → GrowOutcome cache page (grow_from cache supply page).0
unfolding grow_from
grow-GrowOutcome cache supply none = refl
grow-GrowOutcome cache supply (some kaddr) =
    elim (Bool-cases (not cache.on_slab && not supply.info)) [
      | inl e ↦ rw e refl
      | inr e ↦ rw e (
          grown_at-GrowOutcome cache kaddr _
            (add_objects-HasAll cache.objs_per_slab cache.on_slab supply.bufctls))
    ]

module _ (cache : KmemCache) (h : IsConsistent cache) where
  take_grown-Outcome :
      (supply : Supply) (r : Rc (ℕ × Slab))
      → cache.partial ≡ []
      → cache.free ≡ []
      → IsFresh cache supply
      → GrowOutcome cache supply.page r
      → Ensures (AllocOutcome cache) (take_grown cache r)
  unfolding take_grown take_object grown_cache
  take_grown-Outcome supply (fail rc) e f fresh g = (g, refl, e, f)
  take_grown-Outcome supply (done (s, sinfo)) e f fresh g =
      let out = fresh s g.0 in
      let grown =
        take_all cache (grown_cache cache h s sinfo) s refl (grown-held cache h s sinfo out g.1 g.2)
          (grown-IsTaking cache h s sinfo out g.1 g.2) in
      subst (λ m. Ensures (AllocOutcome cache) (m >>= take_object s))
        (sym (linked cache h s sinfo out)) grown

  take_chosen-Outcome :
      (supply : Supply) (partial free : List ℕ)
      → cache.partial ≡ partial
      → cache.free ≡ free
      → IsFresh cache supply
      → Ensures (AllocOutcome cache) (take_chosen cache supply (choose_slab cache partial free))
  unfolding take_chosen choose_slab take_object slab_kmem_cache_grow
  take_chosen-Outcome supply (s ∷ rest) free e f fresh =
      take_all cache cache s refl (λ p j. refl) (partial-IsTaking cache h s rest e)
  take_chosen-Outcome supply [] (s ∷ rest) e f fresh =
      take_all cache (record cache { partial = s ∷ []; free = rest }) s refl
        (free-held cache h s rest e f) (free-IsTaking cache h s rest e f)
  take_chosen-Outcome supply [] [] e f fresh =
      take_grown-Outcome supply (grow_from cache supply supply.page).0 e f fresh
        (grow-GrowOutcome cache supply supply.page)

  -- Allocating from a cache whose queues are consistent fails no assertion, where a page that it may
  -- get is in none of its queues. If it succeeds the object was free and has an index below the number
  -- of objects of a slab; it alone is out now besides those that were, and the queues are consistent.
  -- It fails only with ENOMEM, only if no slab had a free object, and then the cache is as it was.
  pub slab_kmem_cache_alloc-Outcome :
      (supply : Supply)
      → IsFresh cache supply
      → Ensures (AllocOutcome cache) (slab_kmem_cache_alloc cache supply)
  unfolding slab_kmem_cache_alloc
  slab_kmem_cache_alloc-Outcome supply fresh =
      take_chosen-Outcome supply cache.partial cache.free refl refl fresh
