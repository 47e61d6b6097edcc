-- ===== src/Slab/Take.antt =====
-- Taking an object from a slab that has one: `reserve_object` and `alloc_slab_obj` of kern/page-slab.c.
use risc_v_workshop.Prelude.{
  ℕ, ◌≡◌, ◌≢◌, ◌∙◌, ap, sym, refl, subst, arith, Bool-cases, inl, inr, true, false, ◌||◌, ◌==◌,
  Option, some, List, [], ◌∷◌, ◌++◌, List-cases, has, remove, length, update, update_same,
  update_other, has-append, has-remove, Ensures, ◌>>=◌, add64,
}
use risc_v_workshop.Slab.{Slab, KmemCache, set_slab, reserve_object, alloc_slab_obj}
use risc_v_workshop.Slab.Taking.{
  IsTaking, Taken, taken_slab, no_wrap, all_objects, more-IsConsistent, last-IsConsistent,
  held_after, fresh_before,
}

module _ (c : KmemCache) (s : ℕ) where
  unfoldable pub counted_slab : Slab
  counted_slab = record { objects = (c.slabs s).objects; count = add64 (c.slabs s).count 1 }

  pub reserve_more :
      (add64 (c.slabs s).count 1 == c.objs_per_slab) ≡ false
      → reserve_object s c ≡ some (set_slab s counted_slab c)
  unfolding reserve_object counted_slab
  reserve_more h = rw h

  pub reserve_last :
      (add64 (c.slabs s).count 1 == c.objs_per_slab) ≡ true
      → has s c.partial ≡ true
      → reserve_object s c
        ≡ some (record (set_slab s counted_slab c) {
          partial = remove s c.partial;
          full = c.full ++ s ∷ [];
        })
  unfolding reserve_object counted_slab
  reserve_last h m = rw (h, m)

  pub take_object :
      (i : ℕ) (rest : List ℕ)
      → (c.slabs s).objects ≡ i ∷ rest
      → alloc_slab_obj s c
        ≡ some (i, set_slab s (record { objects = rest; count = (c.slabs s).count }) c)
  unfolding alloc_slab_obj
  take_object i rest e = rw (e, alloc_slab_obj)

Ensures-of {ℓ} :
    {A : Type ℓ} (P : A → Type 0) {m : Option A} {a : A} → m ≡ some a → P a → Ensures P m
Ensures-of P e h = subst (Ensures P) (sym e) h

-- taking from a slab with room
module _ (c : KmemCache) (s : ℕ) (t : IsTaking c s) (i : ℕ) (rest : List ℕ)
    (e : (c.slabs s).objects ≡ i ∷ rest) where
  counted_slabs : ℕ → Slab
  counted_slabs = update c.slabs s (counted_slab c s)

  taken_slabs : ℕ → Slab
  unfolding counted_slabs
  taken_slabs = update counted_slabs s (record { objects = rest; count = (counted_slabs s).count })

  counted_here : counted_slabs s ≡ counted_slab c s
  unfolding counted_slabs
  counted_here = update_same c.slabs s (counted_slab c s)

  taken_here : taken_slabs s ≡ taken_slab (c.slabs s) rest
  unfolding taken_slabs counted_slab
  taken_here = update_same counted_slabs s _ ∙ ap (λ x. taken_count x) counted_here
    where
      taken_count : Slab → Slab
      taken_count x = record { objects = rest; count = x.count }

  taken_other : (p : ℕ) → s ≢ p → taken_slabs p ≡ c.slabs p
  unfolding taken_slabs counted_slabs
  taken_other p d = update_other counted_slabs s p _ d ∙ update_other c.slabs s p _ d

  first_there : (counted_slabs s).objects ≡ i ∷ rest
  unfolding counted_slab
  first_there = ap (λ x. x.objects) counted_here ∙ e

  take_from : Ensures (λ r. Taken c s r.0 r.1) (reserve_object s c >>= alloc_slab_obj s)
  unfolding counted_slabs taken_slabs has
  take_from = elim (Bool-cases (add64 (c.slabs s).count 1 == c.objs_per_slab)) [
    | inl last ↦
        Ensures-of _
          (ap (λ m. m >>= alloc_slab_obj s) (reserve_last c s last t.here)
            ∙ take_object
                (record (set_slab s (counted_slab c s) c) {
                  partial = remove s c.partial;
                  full = c.full ++ s ∷ [];
                })
                s i rest first_there)
          (record {
            consistent =
                last-IsConsistent c s t i rest e taken_slabs taken_here taken_other
                  (ground (arith, no_wrap c s t i rest e));
            fresh = fresh_before c s t i rest e taken_slabs taken_here taken_other;
            index = (all_objects c s t i rest e).indices.0;
            held =
                held_after c s t i rest e taken_slabs taken_here taken_other
                  (λ p. has p (remove s c.partial) || has p (c.full ++ s ∷ []))
                  (λ p. ground (
                    arith,
                    t.here,
                    has-remove p s c.partial t.partial_once,
                    has-append p c.full (s ∷ []),
                  ));
          })
    | inr more ↦
        Ensures-of _
          (ap (λ m. m >>= alloc_slab_obj s) (reserve_more c s more)
            ∙ take_object (set_slab s (counted_slab c s) c) s i rest first_there)
          (record {
            consistent =
                more-IsConsistent c s t i rest e taken_slabs taken_here taken_other
                  (ground (arith, no_wrap c s t i rest e));
            fresh = fresh_before c s t i rest e taken_slabs taken_here taken_other;
            index = (all_objects c s t i rest e).indices.0;
            held =
                held_after c s t i rest e taken_slabs taken_here taken_other
                  (λ p. has p c.partial || has p c.full) (λ p. refl);
          })
  ]

pub take-Taken :
    (c : KmemCache) (s : ℕ)
    → IsTaking c s
    → Ensures (λ r. Taken c s r.0 r.1) (reserve_object s c >>= alloc_slab_obj s)
take-Taken c s t = elim (List-cases (c.slabs s).objects) [
  | inl e ↦
      absurd (omega (arith, (t.sound s (ground (arith, t.here))).together, ap length e, t.room))
  | inr (i, rest, e) ↦ take_from c s t i rest e
]
