-- ===== src/Slab/Races.antt =====
-- Calls on one cache of kern/page-slab.c that interleave where the source has released the cache's lock.
use risc_v_workshop.Prelude.{
  ℕ, ◌≤◌, ◌<◌, ◌≡◌, ◌≢◌, ◌∙◌, ap, refl, arith, inl, inr, true, false, ◌==◌, none, some, List,
  List-cases, [], ◌∷◌, ◌++◌, has, remove, length, has-append, has-remove, Distinct-remove,
  Distinct-snoc, update_same, add64, sub64, ◌>>=◌,
}
use risc_v_workshop.Slab.{
  KmemCache, is_linked, set_slab, choose_slab, reserve_object, alloc_slab_obj, unlink_slab,
  free_slab_obj, requeue_slab,
}
use risc_v_workshop.Slab.Invariant.{not_full, not_free, IsConsistent, is_held}
use risc_v_workshop.Slab.Take.{counted_slab, reserve_last}
use risc_v_workshop.Slab.Held.{has_link-eq, full-eq, no_wrap}
use risc_v_workshop.Slab.Free.{counted_slabs, counted_here, not_linked_then, used}

no_object : (c : KmemCache) (s : ℕ) → (c.slabs s).objects ≡ [] → alloc_slab_obj s c ≡ none
unfolding alloc_slab_obj
no_object c s e = rw (e, alloc_slab_obj)

-- The only slab with objects is full, and one of them comes back: the release has put the slab into the
-- partial queue and let go of the lock.
module _ (c : KmemCache) (h : IsConsistent c) (s i : ℕ) (out : is_held c s i ≡ true)
    (f : has s c.full ≡ true) (e : c.partial ≡ []) (two : 1 < c.objs_per_slab) where
  opened : KmemCache
  opened = record c { slabs = counted_slabs c h s i out; partial = s ∷ []; full = remove s c.full }

  at_full : ((c.slabs s).count == c.objs_per_slab) ≡ true
  at_full = ground (arith, full-eq c h s i out, f)

  others_out : (sub64 (c.slabs s).count 1 == 0) ≡ false
  others_out = ground (arith, no_wrap c h s i out, at_full, two)

  taken_out : is_linked s (record c { partial = c.partial; full = remove s c.full }) ≡ false
  unfolding has
  taken_out =
      not_linked_then c h s i out c.partial (remove s c.full) (λ p. rw e refl)
        (λ p. ground (arith, has-remove p s c.full h.full_once))

  here : has s opened.partial ≡ true
  unfolding opened has
  here = ground arith

  unlink-opened : unlink_slab s c ≡ some opened
  unfolding unlink_slab opened counted_slabs has
  unlink-opened = rw (used c h s i out, at_full, others_out, taken_out, e)

  chosen : choose_slab opened opened.partial opened.free ≡ some (s, opened)
  unfolding opened choose_slab
  chosen = refl

  none_free : (c.slabs s).objects ≡ []
  none_free = elim (List-cases (c.slabs s).objects) [
    | inl q ↦ q
    | inr (x, xs, q) ↦
        absurd (omega (arith, (h.sound s (ground (arith, f))).together, h.filled s f, ap length q))
  ]

  no_objects : (opened.slabs s).objects ≡ []
  unfolding opened
  no_objects = ap (λ x. x.objects) (counted_here c h s i out) ∙ none_free

  last : (add64 (opened.slabs s).count 1 == opened.objs_per_slab) ≡ true
  unfolding opened
  last =
      ap (λ x. add64 x.count 1 == c.objs_per_slab) (counted_here c h s i out)
      ∙ ground (arith, h.filled s f, h.fits, h.some_objects)

  -- Where the queues are consistent, no slab is partly in use, slabs hold two objects at least, and an
  -- object of the full slab `s` is out, the release of that object lets go of the lock with `s` alone
  -- in the partial queue; an allocation that comes then chooses `s`, counts an object as in use, and
  -- finds no free object on the slab.
  pub alloc_in_free-Fails :
      (opened : KmemCache) × (reserved : KmemCache) × (unlink_slab s c ≡ some opened)
      × (choose_slab opened opened.partial opened.free ≡ some (s, opened))
      × (reserve_object s opened ≡ some reserved)
      × (alloc_slab_obj s reserved ≡ none)
  unfolding counted_slab
  alloc_in_free-Fails = (
    opened,
    _,
    unlink-opened,
    chosen,
    reserve_last opened s last here,
    no_object _ s
        (ap (λ x. x.objects) (update_same opened.slabs s (counted_slab opened s)) ∙ no_objects),
  )

-- Two objects of a slab of the partial queue, the last in use, come back at once: both releases have
-- taken the slab out and counted down before either puts its object back.
module _ (c : KmemCache) (h : IsConsistent c) (s i j : ℕ) (m : has s c.partial ≡ true)
    (two : (c.slabs s).count ≡ 2) (i_free : has i (c.slabs s).objects ≡ false)
    (j_free : has j (c.slabs s).objects ≡ false) (d : i ≢ j) where
  after : ℕ → List ℕ → KmemCache → KmemCache
  after count objects cache = set_slab s (record { objects = objects; count = count }) cache

  after_here :
      (count : ℕ) (objects : List ℕ) (cache : KmemCache)
      → (after count objects cache).slabs s ≡ record { objects = objects; count = count }
  unfolding after
  after_here count objects cache = update_same cache.slabs s _

  one_left : KmemCache
  one_left = record (after 1 (c.slabs s).objects c) { partial = remove s c.partial ++ s ∷ [] }

  none_left : KmemCache
  none_left = record (after 0 (c.slabs s).objects one_left) { partial = remove s one_left.partial }

  put_back : KmemCache
  put_back = after 0 (j ∷ i ∷ (c.slabs s).objects) (after 0 (i ∷ (c.slabs s).objects) none_left)

  more_than : (k : ℕ) → k ≤ 2 → (k == c.objs_per_slab) ≡ false
  more_than k le = let b = h.partly s m in ground (arith, b, two)

  removed : has s (remove s c.partial) ≡ false
  removed = ground (arith, has-remove s s c.partial h.partial_once)

  gone : is_linked s (record c { partial = remove s c.partial }) ≡ false
  gone = ground (arith, removed, not_full c h s m, not_free c h s m)

  unlinked : is_linked s none_left ≡ false
  unfolding none_left one_left after has
  unlinked =
      let once =
        Distinct-snoc s (remove s c.partial) (Distinct-remove s c.partial h.partial_once) removed in
      ground (
        arith,
        has-remove s s (remove s c.partial ++ s ∷ []) once,
        not_full c h s m,
        not_free c h s m,
      )

  first : unlink_slab s c ≡ some one_left
  unfolding unlink_slab one_left after
  first = rw (two, more_than 2 (omega arith), gone)

  second : unlink_slab s one_left ≡ some none_left
  unfolding unlink_slab one_left none_left after
  second = rw (after_here 1 (c.slabs s).objects c, more_than 1 (omega arith))

  puts_back_first : free_slab_obj s i none_left ≡ some (after 0 (i ∷ (c.slabs s).objects) none_left)
  unfolding free_slab_obj none_left after
  puts_back_first =
      rw (after_here 0 (c.slabs s).objects one_left, has_link-eq i (c.slabs s).objects i_free)

  puts_back_second : free_slab_obj s j (after 0 (i ∷ (c.slabs s).objects) none_left) ≡ some put_back
  unfolding free_slab_obj put_back after has
  puts_back_second =
      let i_j : (j == i) ≡ false = ground arith in
      rw (
        after_here 0 (i ∷ (c.slabs s).objects) none_left,
        i_j,
        has_link-eq j (c.slabs s).objects j_free,
      )

  no_count : ((put_back.slabs s).count == 0) ≡ true
  unfolding put_back
  no_count =
      ap (λ x. x.count == 0)
        (after_here 0 (j ∷ i ∷ (c.slabs s).objects) (after 0 (i ∷ (c.slabs s).objects) none_left))

  requeued : requeue_slab s put_back ≡ some (record put_back { free = c.free ++ s ∷ [] })
  unfolding requeue_slab put_back none_left one_left after
  requeued = rw (no_count, unlinked)

  linked : is_linked s (record put_back { free = c.free ++ s ∷ [] }) ≡ true
  unfolding has
  linked = ground (arith, has-append s c.free (s ∷ []))

  fails : requeue_slab s (record put_back { free = c.free ++ s ∷ [] }) ≡ none
  unfolding requeue_slab
  fails = rw (no_count, linked)

  -- Where the queues are consistent, and of a slab of the partial queue two objects are in use, two
  -- releases of objects that are not free may both count down before either puts its object back. Both
  -- objects can then be put back, and the first release can put the slab into the free queue, but the
  -- second one fails the assertion that the slab is in no queue.
  pub free_in_free-Fails :
      (last : KmemCache) × ((unlink_slab s c
          >>= unlink_slab s
          >>= free_slab_obj s i
          >>= free_slab_obj s j
          >>= requeue_slab s)
        ≡ some last)
      × (requeue_slab s last ≡ none)
  free_in_free-Fails =
      (_, rw (first, second, puts_back_first, puts_back_second, requeued) refl, fails)
