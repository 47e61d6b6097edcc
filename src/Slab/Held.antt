-- ===== src/Slab/Held.antt =====
-- A cache with an object out, and its queues without the slab of the object, as `slab_kmem_cache_free`
-- of kern/page-slab.c leaves them.
use native.Mathlib.Decide.{ℕ_discrete}
use risc_v_workshop.Prelude.{
  ℕ, ◌+◌, ◌-◌, ◌≤◌, ◌<◌, ◌≡◌, ◌≢◌, ◌⊎◌, sym, refl, subst, arith, Bool, Bool-cases, inl, inr, true,
  false, not, ◌&&◌, ◌||◌, ltb, ◌==◌, List, [], ◌∷◌, ◌++◌, has, length, length-append, Distinct,
  ne_of_has, has-append, Distinct-snoc, sub64,
}
use risc_v_workshop.Slab.{Slab, KmemCache, is_linked, has_link}
use risc_v_workshop.Slab.Invariant.{
  none_out, IsSound, IsConsistent, is_held, not_full, not_free, full-not_free,
}

-- The object is free, and the others are out as before.
pub record Released (before : KmemCache) (s i : ℕ) (after : KmemCache) : Type 0 where
  pub consistent : IsConsistent after
  pub held : (p j : ℕ) → is_held after p j ≡ (is_held before p j && not (s == p && i == j))

pub has_link-eq : (i : ℕ) (xs : List ℕ) → has i xs ≡ false → has_link i xs ≡ false
unfolding has
has_link-eq i [] h = refl
has_link-eq i (x ∷ xs) h = ground (arith, has_link-eq i xs)

abbrev pub released_slab : Slab → ℕ → Slab
released_slab sinfo i = record { objects = i ∷ sinfo.objects; count = sinfo.count - 1 }

-- an object that is out
module _ (c : KmemCache) (h : IsConsistent c) (s i : ℕ) (out : is_held c s i ≡ true) where
  queued : (has s c.partial || has s c.full) ≡ true
  queued = ground arith

  index : i < c.objs_per_slab
  index = ground arith

  pub not_among : has i (c.slabs s).objects ≡ false
  not_among = ground arith

  IsSound-here : IsSound c.objs_per_slab (c.slabs s)
  IsSound-here = h.sound s (ground (arith, queued))

  pub in_use : (0 < (c.slabs s).count) × ((c.slabs s).count ≤ c.objs_per_slab)
  in_use = elim (Bool-cases (has s c.partial)) [
    | inl e ↦ let b = h.partly s e in (b.0, omega (arith, b))
    | inr e ↦
        let b = h.filled s (ground (arith, queued)) in
        (omega (arith, b, h.some_objects), omega (arith, b))
  ]

  pub no_wrap : sub64 (c.slabs s).count 1 ≡ (c.slabs s).count - 1
  no_wrap = omega (arith, in_use, h.fits)

  IsSound-after : IsSound c.objs_per_slab (released_slab (c.slabs s) i)
  IsSound-after = record {
    together = omega (arith, IsSound-here.together, in_use);
    once = (not_among, IsSound-here.once);
    indices = (index, IsSound-here.indices);
  }

  pub not_in_free : has s c.free ≡ false
  not_in_free = elim (Bool-cases (has s c.partial)) [
    | inl e ↦ not_free c h s e
    | inr e ↦ full-not_free c h s (ground (arith, queued))
  ]

  -- In which of the two queues it is shows in the count.
  pub full-eq : has s c.full ≡ ((c.slabs s).count == c.objs_per_slab)
  full-eq = elim (Bool-cases (has s c.full)) [
    | inl e ↦ ground (arith, e, h.filled s e)
    | inr e ↦ let b = h.partly s (ground (arith, queued)) in ground (arith, e, b)
  ]

  pub partial-eq : has s c.partial ≡ not ((c.slabs s).count == c.objs_per_slab)
  partial-eq = elim (Bool-cases (has s c.partial)) [
    | inl e ↦ ground (arith, not_full c h s e, full-eq)
    | inr e ↦ ground (arith, queued, full-eq)
  ]

  -- The slab taken out of the two queues, and the memory afterwards.
  module _ (partial full : List ℕ) (slabs : ℕ → Slab) (partial_once : Distinct partial)
      (full_once : Distinct full)
      (partial_rest : (p : ℕ) → has p partial ≡ (has p c.partial && not (s == p)))
      (full_rest : (p : ℕ) → has p full ≡ (has p c.full && not (s == p)))
      (one_less : length partial + length full + 1 ≡ length c.partial + length c.full)
      (here : slabs s ≡ released_slab (c.slabs s) i)
      (other : (p : ℕ) → s ≢ p → slabs p ≡ c.slabs p) where
    IsSound-all : (p : ℕ) → is_linked p c ≡ true → IsSound c.objs_per_slab (slabs p)
    IsSound-all p l = elim (ℕ_discrete s p) [
      | yes q ↦ subst (λ r. IsSound c.objs_per_slab (slabs r)) q (rw here IsSound-after)
      | no d ↦ rw (other p d) (h.sound p l)
    ]

    out_of : (p : ℕ) → (s == p) ≡ false → s ≢ p
    out_of p q = ground arith

    pub rest-IsConsistent :
        (c.slabs s).count - 1 ≢ 0
        → IsConsistent (record c { slabs = slabs; partial = partial ++ s ∷ []; full = full })
    unfolding has
    rest-IsConsistent z = record {
      some_objects = h.some_objects;
      fits = h.fits;
      partial_once = Distinct-snoc s partial partial_once (ground (arith, partial_rest s));
      full_once = full_once;
      free_once = h.free_once;
      partly = λ p m. elim (ℕ_discrete s p) [
        | yes q ↦
            subst (λ r. (0 < (slabs r).count) × ((slabs r).count < c.objs_per_slab)) q
              (rw here (omega (arith, z), omega (arith, in_use)))
        | no d ↦
            rw (other p d)
              (h.partly p (ground (arith, has-append p partial (s ∷ []), partial_rest p)))
      ];
      filled = λ p m.
          let d : s ≢ p = ground (arith, full_rest p) in
          rw (other p d) (h.filled p (ground (arith, full_rest p)));
      unused = λ p m.
          let d = ne_of_has p s c.free m not_in_free in
          rw (other p (λ q. d (sym q))) (h.unused p m);
      sound = λ p m.
          IsSound-all p
            (ground (arith, has-append p partial (s ∷ []), partial_rest p, full_rest p, queued));
      counted = omega (arith, h.counted, one_less, length-append {0} partial (s ∷ []));
    }

    pub idle-IsConsistent :
        (c.slabs s).count - 1 ≡ 0
        → IsConsistent
            (record c { slabs = slabs; partial = partial; full = full; free = c.free ++ s ∷ [] })
    unfolding has
    idle-IsConsistent z = record {
      some_objects = h.some_objects;
      fits = h.fits;
      partial_once = partial_once;
      full_once = full_once;
      free_once = Distinct-snoc s c.free h.free_once not_in_free;
      partly = λ p m.
          let d : s ≢ p = ground (arith, partial_rest p) in
          rw (other p d) (h.partly p (ground (arith, partial_rest p)));
      filled = λ p m.
          let d : s ≢ p = ground (arith, full_rest p) in
          rw (other p d) (h.filled p (ground (arith, full_rest p)));
      unused = λ p m. elim (ℕ_discrete s p) [
        | yes q ↦ subst (λ r. (slabs r).count ≡ 0) q (rw here z)
        | no d ↦ rw (other p d) (h.unused p (ground (arith, has-append p c.free (s ∷ []))))
      ];
      sound = λ p m.
          IsSound-all p
            (ground (arith, has-append p c.free (s ∷ []), partial_rest p, full_rest p, queued));
      counted = omega (arith, h.counted, one_less, length-append {0} c.free (s ∷ []));
    }

    -- With no object in use left none is out, so the queues need not say which of the two it is.
    pub held_after :
        (queues : ℕ → Bool)
        → ((p : ℕ) → s ≢ p → queues p ≡ (has p partial || has p full))
        → (queues s ≡ true) ⊎ ((c.slabs s).count - 1 ≡ 0)
        → (p j : ℕ)
        → (queues p && (ltb j c.objs_per_slab && not (has j (slabs p).objects)))
          ≡ (is_held c p j && not (s == p && i == j))
    unfolding has
    held_after queues same kept_or_idle p j = elim (ℕ_discrete s p) [
      | yes q ↦
          subst
            (λ r.
              (queues r && (ltb j c.objs_per_slab && not (has j (slabs r).objects)))
              ≡ (is_held c r j && not (s == r && i == j)))
            q
            (rw here (elim kept_or_idle [
              | inl in_queue ↦ ground (arith, in_queue, queued)
              | inr z ↦ ground (
                arith,
                none_out c.objs_per_slab (released_slab (c.slabs s) i) IsSound-after z j,
                queued,
              )
            ]))
      | no d ↦ rw (same p d, other p d) (ground (arith, partial_rest p, full_rest p))
    ]
