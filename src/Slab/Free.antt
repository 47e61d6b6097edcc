-- ===== src/Slab/Free.antt =====
-- What `slab_kmem_cache_free` of kern/page-slab.c does.
use risc_v_workshop.Prelude.{
  ℕ, ◌+◌, ◌-◌, ◌≡◌, ◌≢◌, ◌∙◌, ap, sym, refl, subst, arith, Bool-cases, inl, inr, true, false, not,
  ◌&&◌, ◌||◌, ◌==◌, if◌then◌else◌, some, List, [], ◌∷◌, ◌++◌, has, remove, length, length-remove,
  update, update_same, update_other, Distinct, has-append, has-remove, Distinct-remove, Ensures,
  ◌>>=◌, sub64,
}
use risc_v_workshop.Slab.{
  Slab, KmemCache, is_linked, unlink_slab, has_link, free_slab_obj, requeue_slab,
  slab_kmem_cache_free,
}
use risc_v_workshop.Slab.Invariant.{IsConsistent, is_held}
use risc_v_workshop.Slab.Held.{
  Released, has_link-eq, released_slab, not_among, in_use, no_wrap, not_in_free, full-eq,
  partial-eq, rest-IsConsistent, idle-IsConsistent, held_after,
}

module _ (c : KmemCache) (h : IsConsistent c) (s i : ℕ) (out : is_held c s i ≡ true) where
  -- what the first two parts of the call do to the memory
  unfoldable pub counted_slabs : ℕ → Slab
  counted_slabs =
      update c.slabs s (record { objects = (c.slabs s).objects; count = sub64 (c.slabs s).count 1 })

  released_slabs : ℕ → Slab
  released_slabs =
      update counted_slabs s
        (record { objects = i ∷ (counted_slabs s).objects; count = (counted_slabs s).count })

  pub counted_here :
      counted_slabs s ≡ record { objects = (c.slabs s).objects; count = sub64 (c.slabs s).count 1 }
  unfolding counted_slabs
  counted_here = update_same c.slabs s _

  released_here : released_slabs s ≡ released_slab (c.slabs s) i
  unfolding released_slabs
  released_here =
      update_same counted_slabs s _
      ∙ ap (λ x. put_back x) counted_here
      ∙ ap (λ k. counted_as k) (no_wrap c h s i out)
    where
      put_back : Slab → Slab
      put_back x = record { objects = i ∷ x.objects; count = x.count }

      counted_as : ℕ → Slab
      counted_as k = record { objects = i ∷ (c.slabs s).objects; count = k }

  released_other : (p : ℕ) → s ≢ p → released_slabs p ≡ c.slabs p
  unfolding released_slabs counted_slabs
  released_other p d = update_other counted_slabs s p _ d ∙ update_other c.slabs s p _ d

  pub not_linked_then :
      (partial full : List ℕ)
      → ((p : ℕ) → has p partial ≡ (has p c.partial && not (s == p)))
      → ((p : ℕ) → has p full ≡ (has p c.full && not (s == p)))
      → is_linked s (record c { partial = partial; full = full }) ≡ false
  not_linked_then partial full a b = ground (arith, a s, b s, (not_in_free c h s i out))

  count_left : (released_slabs s).count ≡ (c.slabs s).count - 1
  count_left = ap (λ x. x.count) released_here

  module _ (partial full : List ℕ) where
    put_back_step :
        free_slab_obj s i (record c { slabs = counted_slabs; partial = partial; full = full })
        ≡ some (record c { slabs = released_slabs; partial = partial; full = full })
    unfolding free_slab_obj released_slabs
    put_back_step =
        let no_link : has_link i (counted_slabs s).objects ≡ false =
          subst (λ x. has_link i x.objects ≡ false) (sym counted_here)
            (has_link-eq i (c.slabs s).objects (not_among c h s i out)) in
        rw no_link

    requeue_rest :
        (c.slabs s).count - 1 ≢ 0
        → requeue_slab s (record c { slabs = released_slabs; partial = partial; full = full })
          ≡ some (record c { slabs = released_slabs; partial = partial; full = full })
    unfolding requeue_slab
    requeue_rest z =
        let left : ((released_slabs s).count == 0) ≡ false = ground (arith, count_left) in rw left

    requeue_idle :
        (c.slabs s).count - 1 ≡ 0
        → is_linked s (record c { partial = partial; full = full }) ≡ false
        → requeue_slab s (record c { slabs = released_slabs; partial = partial; full = full })
          ≡ some (record c {
            slabs = released_slabs;
            partial = partial;
            full = full;
            free = c.free ++ s ∷ [];
          })
    unfolding requeue_slab
    requeue_idle z o =
        let left : ((released_slabs s).count == 0) ≡ true = ground (arith, count_left) in
        rw (left, o)

  -- the whole call, from what its first part leaves
  module _ (partial full : List ℕ) (partial_once : Distinct partial) (full_once : Distinct full)
      (partial_rest : (p : ℕ) → has p partial ≡ (has p c.partial && not (s == p)))
      (full_rest : (p : ℕ) → has p full ≡ (has p c.full && not (s == p)))
      (one_less : length partial + length full + 1 ≡ length c.partial + length c.full) where
    free_rest :
        (c.slabs s).count - 1 ≢ 0
        → unlink_slab s c
          ≡ some (record c { slabs = counted_slabs; partial = partial ++ s ∷ []; full = full })
        → Ensures (Released c s i) (slab_kmem_cache_free s i c)
    unfolding slab_kmem_cache_free has
    free_rest z e =
        subst (Ensures (Released c s i))
          (sym (
            ap (λ m. m >>= λ d. free_slab_obj s i d >>= requeue_slab s) e
            ∙ ap (λ m. m >>= requeue_slab s) (put_back_step (partial ++ s ∷ []) full)
            ∙ requeue_rest (partial ++ s ∷ []) full z))
          (record {
            consistent =
                (rest-IsConsistent c h s i out) partial full released_slabs partial_once full_once
                  partial_rest full_rest one_less released_here released_other z;
            held =
                (held_after c h s i out) partial full released_slabs partial_once full_once
                  partial_rest full_rest one_less released_here released_other
                  (λ p. has p (partial ++ s ∷ []) || has p full)
                  (λ p d. ground (arith, has-append p partial (s ∷ [])))
                  (inl (ground (arith, has-append s partial (s ∷ []))));
          })

    free_idle :
        (c.slabs s).count - 1 ≡ 0
        → unlink_slab s c
          ≡ some (record c { slabs = counted_slabs; partial = partial; full = full })
        → Ensures (Released c s i) (slab_kmem_cache_free s i c)
    unfolding slab_kmem_cache_free has
    free_idle z e =
        subst (Ensures (Released c s i))
          (sym (
            ap (λ m. m >>= λ d. free_slab_obj s i d >>= requeue_slab s) e
            ∙ ap (λ m. m >>= requeue_slab s) (put_back_step partial full)
            ∙ requeue_idle partial full z (not_linked_then partial full partial_rest full_rest)))
          (record {
            consistent =
                (idle-IsConsistent c h s i out) partial full released_slabs partial_once full_once
                  partial_rest full_rest one_less released_here released_other z;
            held =
                (held_after c h s i out) partial full released_slabs partial_once full_once
                  partial_rest full_rest one_less released_here released_other
                  (λ p. has p partial || has p full) (λ p d. refl) (inr z);
          })

    free_from :
        (unlink_slab s c ≡ (
          if sub64 (c.slabs s).count 1 == 0
          then some (record c { slabs = counted_slabs; partial = partial; full = full })
          else some (record c { slabs = counted_slabs; partial = partial ++ s ∷ []; full = full })))
        → Ensures (Released c s i) (slab_kmem_cache_free s i c)
    free_from e = elim (Bool-cases (sub64 (c.slabs s).count 1 == 0)) [
      | inl z ↦ free_idle (ground (arith, (no_wrap c h s i out))) (e ∙ (rw z))
      | inr z ↦ free_rest (ground (arith, (no_wrap c h s i out))) (e ∙ (rw z))
    ]

  pub used : ((c.slabs s).count == 0) ≡ false
  used = ground (arith, (in_use c h s i out))

  -- Releasing an object that is out, to a cache whose queues are consistent, fails no assertion; the
  -- queues are consistent afterwards, that object is no longer out and exactly the others are as
  -- before.
  pub slab_kmem_cache_free-Released : Ensures (Released c s i) (slab_kmem_cache_free s i c)
  unfolding unlink_slab counted_slabs
  slab_kmem_cache_free-Released = elim (Bool-cases ((c.slabs s).count == c.objs_per_slab)) [
    | inl e ↦
        let partial_rest : (p : ℕ) → has p c.partial ≡ (has p c.partial && not (s == p)) =
          λ p. ground (arith, (partial-eq c h s i out), e) in
        let full_rest : (p : ℕ) → has p (remove s c.full) ≡ (has p c.full && not (s == p)) =
          λ p. ground (arith, has-remove p s c.full h.full_once) in
        free_from c.partial (remove s c.full) h.partial_once (Distinct-remove s c.full h.full_once)
          partial_rest full_rest
          (omega (arith, length-remove s c.full (ground (arith, (full-eq c h s i out)))))
          (rw (used, e, not_linked_then c.partial (remove s c.full) partial_rest full_rest))
    | inr e ↦
        let partial_rest : (p : ℕ)
            → has p (remove s c.partial) ≡ (has p c.partial && not (s == p)) =
          λ p. ground (arith, has-remove p s c.partial h.partial_once) in
        let full_rest : (p : ℕ) → has p c.full ≡ (has p c.full && not (s == p)) =
          λ p. ground (arith, (full-eq c h s i out), e) in
        free_from (remove s c.partial) c.full (Distinct-remove s c.partial h.partial_once)
          h.full_once partial_rest full_rest
          (omega (arith, length-remove s c.partial (ground (arith, (partial-eq c h s i out)))))
          (rw (used, e, not_linked_then (remove s c.partial) c.full partial_rest full_rest))
  ]
