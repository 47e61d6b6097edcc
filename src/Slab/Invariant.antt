-- ===== src/Slab/Invariant.antt =====
-- What holds of a cache between calls.
use risc_v_workshop.Prelude.{
  ℕ, ◌+◌, ◌<◌, ◌%◌, ◌^◌, ◌≡◌, arith, Bool, Bool-cases, inl, inr, true, false, not, ◌&&◌, ◌||◌, ltb,
  has, length, All, Distinct, has_all_of_length,
}
use risc_v_workshop.Slab.{Slab, KmemCache, is_linked}

-- Of `n` objects, those that are free and those that are counted as in use make up all.
pub record IsSound (n : ℕ) (sinfo : Slab) : Type 0 where
  pub together : length sinfo.objects + sinfo.count ≡ n
  pub once : Distinct sinfo.objects
  pub indices : All (λ i. i < n) sinfo.objects

-- Each slab is in one queue: in `partial` with some objects in use, in `full` with all, in `free` with
-- none.
pub record IsConsistent (cache : KmemCache) : Type 0 where
  pub some_objects : 0 < cache.objs_per_slab
  pub fits : cache.objs_per_slab < 2 ^ 64
  pub partial_once : Distinct cache.partial
  pub full_once : Distinct cache.full
  pub free_once : Distinct cache.free
  pub partly :
      (s : ℕ)
      → has s cache.partial ≡ true
      → (0 < (cache.slabs s).count) × ((cache.slabs s).count < cache.objs_per_slab)
  pub filled : (s : ℕ) → has s cache.full ≡ true → (cache.slabs s).count ≡ cache.objs_per_slab
  pub unused : (s : ℕ) → has s cache.free ≡ true → (cache.slabs s).count ≡ 0
  pub sound : (s : ℕ) → is_linked s cache ≡ true → IsSound cache.objs_per_slab (cache.slabs s)
  pub counted :
      cache.slab_count ≡ (length cache.partial + length cache.full + length cache.free) % 2 ^ 64

-- The object `i` of the slab `s` is out.
abbrev pub is_held : KmemCache → ℕ → ℕ → Bool
is_held cache s i =
    (has s cache.partial || has s cache.full)
    && (ltb i cache.objs_per_slab && not (has i (cache.slabs s).objects))

-- A slab in use has the objects that its count says, and `partial` and `full` exclude one another.
module _ (cache : KmemCache) (c : IsConsistent cache) (s : ℕ) where
  pub not_full : has s cache.partial ≡ true → has s cache.full ≡ false
  not_full h = elim (Bool-cases (has s cache.full)) [
    | inl e ↦ absurd (omega (arith, (c.partly s h).1, c.filled s e))
    | inr e ↦ e
  ]

  pub not_free : has s cache.partial ≡ true → has s cache.free ≡ false
  not_free h = elim (Bool-cases (has s cache.free)) [
    | inl e ↦ absurd (omega (arith, (c.partly s h).0, c.unused s e))
    | inr e ↦ e
  ]

  pub full-not_free : has s cache.full ≡ true → has s cache.free ≡ false
  full-not_free h = elim (Bool-cases (has s cache.free)) [
    | inl e ↦ absurd (omega (arith, c.some_objects, c.filled s h, c.unused s e))
    | inr e ↦ e
  ]

  pub free-not_full : has s cache.free ≡ true → has s cache.full ≡ false
  free-not_full h = elim (Bool-cases (has s cache.full)) [
    | inl e ↦ absurd (omega (arith, c.some_objects, c.filled s e, c.unused s h))
    | inr e ↦ e
  ]

-- With all objects free, none is out.
pub none_out :
    (n : ℕ) (sinfo : Slab)
    → IsSound n sinfo
    → sinfo.count ≡ 0
    → (i : ℕ) → (ltb i n && not (has i sinfo.objects)) ≡ false
none_out n sinfo h z i = elim (Bool-cases (ltb i n)) [
  | inl e ↦ rw (
    e,
    has_all_of_length n sinfo.objects h.once h.indices (omega (arith, h.together, z)) i
        (ground arith),
  )
  | inr e ↦ rw e
]
