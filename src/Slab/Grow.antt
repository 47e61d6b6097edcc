-- ===== src/Slab/Grow.antt =====
-- Where an allocation of kern/page-slab.c takes its object from: a slab in use, a free one or a new one.
use native.Mathlib.Decide.{ℕ_discrete}
use risc_v_workshop.Prelude.{
  ℕ, zero, suc, ◌<◌, ◌≡◌, ◌∙◌, ap, sym, refl, subst, arith, Bool, Bool-cases, inl, inr, true, false,
  ◌&&◌, ◌||◌, ltb, ◌==◌, if◌then◌else◌, Option, none, some, List, [], ◌∷◌, ◌++◌, has, length,
  length-append, All, All_lookup, All-map, update, update_same, update_other, Distinct, ne_of_has,
  has-append, Distinct-snoc, Rc, done, fail, enomem, Ensures, Ensures-bind, ◌>>=◌, add64,
}
use risc_v_workshop.Slab.{
  Slab, KmemCache, Supply, is_linked, set_slab, add_objects, link_grown, reserve_object,
  alloc_slab_obj,
}
use risc_v_workshop.Slab.Invariant.{
  none_out, IsSound, IsConsistent, is_held, not_full, not_free, free-not_full,
}
use risc_v_workshop.Slab.Taking.{IsTaking, Taken}
use risc_v_workshop.Slab.Take.{take-Taken}

Taken_from :
    (before c : KmemCache) (s i : ℕ) (after : KmemCache)
    → c.objs_per_slab ≡ before.objs_per_slab
    → ((p j : ℕ) → is_held c p j ≡ is_held before p j)
    → Taken c s i after
    → Taken before s i after
Taken_from before c s i after n same t = record {
  consistent = t.consistent;
  fresh = sym (same s i) ∙ t.fresh;
  index = subst (λ k. i < k) n t.index;
  held = λ p j. t.held p j ∙ ap (λ b. b || (s == p && i == j)) (same p j);
}

module _ (c : KmemCache) (h : IsConsistent c) (s : ℕ) (rest : List ℕ) where
  pub partial-IsTaking : c.partial ≡ s ∷ rest → IsTaking c s
  unfolding has
  partial-IsTaking e =
      let here : has s c.partial ≡ true = rw e (ground arith) in
      record {
        some_objects = h.some_objects;
        fits = h.fits;
        partial_once = h.partial_once;
        full_once = h.full_once;
        free_once = h.free_once;
        here = here;
        not_full = not_full c h s here;
        not_free = not_free c h s here;
        room = (h.partly s here).1;
        partly = λ p d m. h.partly p m;
        filled = h.filled;
        unused = h.unused;
        sound = h.sound;
        counted = h.counted;
      }

  pub free-IsTaking :
      c.partial ≡ [] → c.free ≡ s ∷ rest → IsTaking (record c { partial = s ∷ []; free = rest }) s
  unfolding has
  free-IsTaking e f =
      let here : has s c.free ≡ true = rw f (ground arith) in
      let once = subst Distinct f h.free_once in
      record {
        some_objects = h.some_objects;
        fits = h.fits;
        partial_once = (refl, tt);
        full_once = h.full_once;
        free_once = once.1;
        here = ground arith;
        not_full = free-not_full c h s here;
        not_free = once.0;
        room = omega (arith, h.unused s here, h.some_objects);
        partly = λ p d m. absurd (d (ground arith));
        filled = h.filled;
        unused = λ p m. h.unused p (rw f (ground arith));
        sound = λ p m. h.sound p (ground (arith, m, ap (has p) f));
        counted = omega (arith, h.counted, ap length e, ap length f);
      }

  pub free-held :
      c.partial ≡ []
      → c.free ≡ s ∷ rest
      → (p j : ℕ) → is_held (record c { partial = s ∷ []; free = rest }) p j ≡ is_held c p j
  unfolding has
  free-held e f p j =
      let here : has s c.free ≡ true = rw f (ground arith) in
      let sound = h.sound s (ground (arith, here)) in
      elim (ℕ_discrete s p) [
        | yes q ↦
            subst (λ r. is_held (record c { partial = s ∷ []; free = rest }) r j ≡ is_held c r j) q
              (ground (
                arith,
                none_out c.objs_per_slab (c.slabs s) sound (h.unused s here) j,
                free-not_full c h s here,
                ap (has s) e,
              ))
        | no d ↦ ground (arith, ap (has p) e)
      ]

-- a new slab
abbrev pub HasAll : ℕ → Option (List ℕ) → Type 0
HasAll n none = Unit
HasAll n (some objects) = (length objects ≡ n) × Distinct objects × All (λ i. i < n) objects

one_more :
    (n : ℕ) (b : Bool) (r : Option (List ℕ))
    → HasAll n r
    → HasAll (suc n) (r >>= λ os. if b then some (n ∷ os) else none)
unfolding has
one_more n b none h = tt
one_more n false (some os) h = tt
one_more n true (some os) h =
    let out = elim (Bool-cases (has n os)) as (λ _. has n os ≡ false) [
      | inl e ↦ absurd (omega (arith, All_lookup (λ i. i < n) n os h.2 e))
      | inr e ↦ e
    ] in
    (omega (arith, h.0), (out, h.1), (omega arith, All-map _ _ os (λ i l. omega (arith, l)) h.2))

pub add_objects-HasAll :
    (n : ℕ) (on_slab : Bool) (bufctls : ℕ) → HasAll n (add_objects n on_slab bufctls)
unfolding add_objects
add_objects-HasAll zero on_slab bufctls = (refl, tt, tt)
add_objects-HasAll (suc n) on_slab bufctls =
    one_more n (on_slab || ltb n bufctls) (add_objects n on_slab bufctls)
      (add_objects-HasAll n on_slab bufctls)

module _ (c : KmemCache) (h : IsConsistent c) (s : ℕ) (sinfo : Slab) where
  unfoldable pub grown_cache : KmemCache
  grown_cache = record (set_slab s sinfo c) {
    slab_count = add64 c.slab_count 1;
    partial = c.partial ++ s ∷ [];
  }

  pub grown-IsTaking :
      is_linked s c ≡ false
      → IsSound c.objs_per_slab sinfo
      → sinfo.count ≡ 0
      → IsTaking grown_cache s
  unfolding has grown_cache
  grown-IsTaking o sound z = record {
    some_objects = h.some_objects;
    fits = h.fits;
    partial_once = Distinct-snoc s c.partial h.partial_once (ground arith);
    full_once = h.full_once;
    free_once = h.free_once;
    here = ground (arith, has-append s c.partial (s ∷ []));
    not_full = ground arith;
    not_free = ground arith;
    room = rw (update_same c.slabs s sinfo) (omega (arith, z, h.some_objects));
    partly = λ p d m.
        rw (update_other c.slabs s p sinfo d)
          (h.partly p (ground (arith, has-append p c.partial (s ∷ []))));
    filled = λ p m.
        rw (update_other c.slabs s p sinfo (λ q. ne_of_has p s c.full m (ground arith) (sym q)))
          (h.filled p m);
    unused = λ p m.
        rw (update_other c.slabs s p sinfo (λ q. ne_of_has p s c.free m (ground arith) (sym q)))
          (h.unused p m);
    sound = λ p m. elim (ℕ_discrete s p) [
      | yes q ↦
          subst (λ r. IsSound c.objs_per_slab (update c.slabs s sinfo r)) q
            (rw (update_same c.slabs s sinfo) sound)
      | no d ↦
          rw (update_other c.slabs s p sinfo d)
            (h.sound p (ground (arith, m, has-append p c.partial (s ∷ []))))
    ];
    counted = omega (arith, h.counted, length-append {0} c.partial (s ∷ []));
  }

  pub grown-held :
      is_linked s c ≡ false
      → IsSound c.objs_per_slab sinfo
      → sinfo.count ≡ 0
      → (p j : ℕ) → is_held grown_cache p j ≡ is_held c p j
  unfolding has grown_cache
  grown-held o sound z p j = elim (ℕ_discrete s p) [
    | yes q ↦
        subst (λ r. is_held grown_cache r j ≡ is_held c r j) q
          (rw (update_same c.slabs s sinfo)
            (ground (arith, none_out c.objs_per_slab sinfo sound z j)))
    | no d ↦ rw (update_other c.slabs s p sinfo d) (ground (arith, has-append p c.partial (s ∷ [])))
  ]

  pub linked : is_linked s c ≡ false → link_grown s sinfo c ≡ some grown_cache
  unfolding link_grown grown_cache
  linked o = rw o

-- what a call of the allocator does
abbrev pub AllocOutcome : KmemCache → Rc (ℕ × ℕ) × KmemCache → Type 0
AllocOutcome cache (done (s, i), after) = Taken cache s i after
AllocOutcome cache (fail rc, after) =
    (rc ≡ enomem) × (after ≡ cache) × (cache.partial ≡ []) × (cache.free ≡ [])

-- a page from the page allocator is in no queue of the cache
abbrev pub IsFresh : KmemCache → Supply → Type 0
IsFresh cache supply = (s : ℕ) → supply.page ≡ some s → is_linked s cache ≡ false

bind_assoc :
    {A B C : Type 0} (m : Option A) (f : A → Option B) (g : B → Option C)
    → ((m >>= f) >>= g) ≡ (m >>= λ a. f a >>= g)
bind_assoc none f g = refl
bind_assoc (some a) f g = refl

pub take_all :
    (before c : KmemCache) (s : ℕ)
    → c.objs_per_slab ≡ before.objs_per_slab
    → ((p j : ℕ) → is_held c p j ≡ is_held before p j)
    → IsTaking c s
    → Ensures
        (AllocOutcome before)
        (reserve_object s c >>= λ d. alloc_slab_obj s d >>= λ (i, d). some (done (s, i), d))
take_all before c s n same t =
    subst (Ensures (AllocOutcome before))
      (bind_assoc (reserve_object s c) (alloc_slab_obj s) (λ (i, d). some (done (s, i), d)))
      (Ensures-bind (λ r. Taken c s r.0 r.1) (AllocOutcome before)
        (reserve_object s c >>= alloc_slab_obj s) (λ (i, d). some (done (s, i), d))
        (take-Taken c s t) (λ r k. Taken_from before c s r.0 r.1 n same k))
