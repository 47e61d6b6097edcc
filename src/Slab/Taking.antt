-- ===== src/Slab/Taking.antt =====
-- A cache from whose slab an object is taken, and what `reserve_object` and `alloc_slab_obj` of
-- kern/page-slab.c leave of it.
use native.Mathlib.Decide.{ℕ_discrete}
use risc_v_workshop.Prelude.{
  ℕ, ◌+◌, ◌<◌, ◌%◌, ◌^◌, ◌≡◌, ◌≢◌, sym, subst, arith, Bool, true, false, not, ◌&&◌, ◌||◌, ltb, ◌==◌,
  List, [], ◌∷◌, ◌++◌, has, remove, length, length-append, length-remove, Distinct, ne_of_has,
  has-append, has-remove, Distinct-remove, Distinct-snoc, add64,
}
use risc_v_workshop.Slab.{Slab, KmemCache, is_linked}
use risc_v_workshop.Slab.Invariant.{IsSound, IsConsistent, is_held}

-- A cache from whose slab `s` an object is about to be taken: no object of it need be in use yet.
pub record IsTaking (cache : KmemCache) (s : ℕ) : Type 0 where
  pub some_objects : 0 < cache.objs_per_slab
  pub fits : cache.objs_per_slab < 2 ^ 64
  pub partial_once : Distinct cache.partial
  pub full_once : Distinct cache.full
  pub free_once : Distinct cache.free
  pub here : has s cache.partial ≡ true
  pub not_full : has s cache.full ≡ false
  pub not_free : has s cache.free ≡ false
  pub room : (cache.slabs s).count < cache.objs_per_slab
  pub partly :
      (p : ℕ)
      → s ≢ p
      → has p cache.partial ≡ true
      → (0 < (cache.slabs p).count) × ((cache.slabs p).count < cache.objs_per_slab)
  pub filled : (p : ℕ) → has p cache.full ≡ true → (cache.slabs p).count ≡ cache.objs_per_slab
  pub unused : (p : ℕ) → has p cache.free ≡ true → (cache.slabs p).count ≡ 0
  pub sound : (p : ℕ) → is_linked p cache ≡ true → IsSound cache.objs_per_slab (cache.slabs p)
  pub counted :
      cache.slab_count ≡ (length cache.partial + length cache.full + length cache.free) % 2 ^ 64

-- The object `i` of the slab `s` was free, and it alone is out now besides those that were.
pub record Taken (before : KmemCache) (s i : ℕ) (after : KmemCache) : Type 0 where
  pub consistent : IsConsistent after
  pub fresh : is_held before s i ≡ false
  pub index : i < before.objs_per_slab
  pub held : (p j : ℕ) → is_held after p j ≡ (is_held before p j || (s == p && i == j))

-- the slab afterwards
abbrev pub taken_slab : Slab → List ℕ → Slab
taken_slab sinfo rest = record { objects = rest; count = add64 sinfo.count 1 }

module _ (c : KmemCache) (s : ℕ) (t : IsTaking c s) (i : ℕ) (rest : List ℕ)
    (e : (c.slabs s).objects ≡ i ∷ rest) where
  IsSound-here : IsSound c.objs_per_slab (c.slabs s)
  IsSound-here = t.sound s (ground (arith, t.here))

  pub no_wrap : add64 (c.slabs s).count 1 ≡ (c.slabs s).count + 1
  no_wrap = omega (arith, t.room, t.fits)

  pub all_objects :
      IsSound c.objs_per_slab (record { objects = i ∷ rest; count = (c.slabs s).count })
  all_objects =
      subst (λ os. IsSound c.objs_per_slab (record { objects = os; count = (c.slabs s).count })) e
        IsSound-here

  IsSound-after : IsSound c.objs_per_slab (taken_slab (c.slabs s) rest)
  IsSound-after = record {
    together = omega (arith, all_objects.together, no_wrap);
    once = all_objects.once.1;
    indices = all_objects.indices.1;
  }

  -- the memory afterwards
  module _ (slabs : ℕ → Slab) (here : slabs s ≡ taken_slab (c.slabs s) rest)
      (other : (p : ℕ) → s ≢ p → slabs p ≡ c.slabs p) where
    slab_after : (p : ℕ) → is_linked p c ≡ true → IsSound c.objs_per_slab (slabs p)
    slab_after p h = elim (ℕ_discrete s p) [
      | yes q ↦ subst (λ r. IsSound c.objs_per_slab (slabs r)) q (rw here IsSound-after)
      | no d ↦ rw (other p d) (t.sound p h)
    ]

    elsewhere :
        {P : Type 0} (p : ℕ) (xs : List ℕ) → has s xs ≡ false → has p xs ≡ true → (s ≢ p → P) → P
    elsewhere p xs o h k = k (λ q. ne_of_has p s xs h o (sym q))

    pub more-IsConsistent :
        (c.slabs s).count + 1 ≢ c.objs_per_slab → IsConsistent (record c { slabs = slabs })
    more-IsConsistent d = record {
      some_objects = t.some_objects;
      fits = t.fits;
      partial_once = t.partial_once;
      full_once = t.full_once;
      free_once = t.free_once;
      partly = λ p h. elim (ℕ_discrete s p) [
        | yes q ↦
            subst (λ r. (0 < (slabs r).count) × ((slabs r).count < c.objs_per_slab)) q
              (rw here (omega (arith, no_wrap), omega (arith, no_wrap, t.room, d)))
        | no q ↦ rw (other p q) (t.partly p q h)
      ];
      filled = λ p h. elsewhere p c.full t.not_full h (λ q. rw (other p q) (t.filled p h));
      unused = λ p h. elsewhere p c.free t.not_free h (λ q. rw (other p q) (t.unused p h));
      sound = slab_after;
      counted = t.counted;
    }

    pub last-IsConsistent :
        (c.slabs s).count + 1 ≡ c.objs_per_slab
        → IsConsistent
            (record c { slabs = slabs; partial = remove s c.partial; full = c.full ++ s ∷ [] })
    unfolding has
    last-IsConsistent d = record {
      some_objects = t.some_objects;
      fits = t.fits;
      partial_once = Distinct-remove s c.partial t.partial_once;
      full_once = Distinct-snoc s c.full t.full_once t.not_full;
      free_once = t.free_once;
      partly = λ p h.
          let old = has-remove p s c.partial t.partial_once in
          let q : s ≢ p = ground (arith, old) in
          rw (other p q) (t.partly p q (ground (arith, old)));
      filled = λ p h. elim (ℕ_discrete s p) [
        | yes q ↦
            subst (λ r. (slabs r).count ≡ c.objs_per_slab) q (rw here (omega (arith, no_wrap, d)))
        | no q ↦ rw (other p q) (t.filled p (ground (arith, has-append p c.full (s ∷ []))))
      ];
      unused = λ p h. elsewhere p c.free t.not_free h (λ q. rw (other p q) (t.unused p h));
      sound = λ p h. slab_after p (
          ground
            (arith, t.here, has-remove p s c.partial t.partial_once, has-append p c.full (s ∷ [])));
      counted =
          omega
            (arith, t.counted, length-remove s c.partial t.here, length-append {0} c.full (s ∷ []));
    }

    -- which objects are out, whatever queue of the two the slab is in
    pub held_after :
        (queues : ℕ → Bool)
        → ((p : ℕ) → queues p ≡ (has p c.partial || has p c.full))
        → (p j : ℕ)
        → (queues p && (ltb j c.objs_per_slab && not (has j (slabs p).objects)))
          ≡ (is_held c p j || (s == p && i == j))
    unfolding has
    held_after queues same p j = elim (ℕ_discrete s p) [
      | yes q ↦
          subst
            (λ r.
              (queues r && (ltb j c.objs_per_slab && not (has j (slabs r).objects)))
              ≡ (is_held c r j || (s == r && i == j)))
            q
            (rw (same s, here, e)
              (ground (arith, t.here, all_objects.once.0, all_objects.indices.0)))
      | no q ↦ rw (same p, other p q) (ground arith)
    ]

    pub fresh_before : is_held c s i ≡ false
    unfolding has
    fresh_before = rw e (ground arith)
