-- ===== src/Slab.antt =====
-- The slab allocator: kern/page-slab.c, include/kern/page-slab.h:
-- the slabs of a cache, which queue each is in, and which objects are out.
-- A slab goes by the address of its object page, and an object by its slab and its index there. A call
-- is cut where the source releases the cache's lock, so that calls may interleave.
pub mod Invariant
pub mod Taking
pub mod Take
pub mod Grow
pub mod Alloc
pub mod Held
pub mod Free
pub mod Reap
pub mod Races
mod Tests
use risc_v_workshop.Prelude.{
  ℕ, zero, suc, ◌+◌, ◌-◌, ◌*◌, ◌%◌, ◌^◌, Bool, true, false, not, ◌&&◌, ◌||◌, ltb, leb, ◌==◌,
  if◌then◌else◌, Option, none, some, List, [], ◌∷◌, ◌++◌, has, remove, is_empty, update, add64,
  sub64, Rc, done, fail, enomem, ◌>>=◌,
}

-- `objects` are the free ones, the next to be handed out first.
pub record Slab : Type 0 where
  pub objects : List ℕ
  pub count : ℕ

-- `slabs` is the memory that the `slab` structures stand in.
pub record KmemCache : Type 0 where
  pub limits : ℕ
  pub slab_count : ℕ
  pub objs_per_slab : ℕ
  pub on_slab : Bool
  pub partial : List ℕ
  pub full : List ℕ
  pub free : List ℕ
  pub slabs : ℕ → Slab

abbrev pub set_slab : ℕ → Slab → KmemCache → KmemCache
set_slab s sinfo cache = record cache { slabs = update cache.slabs s sinfo }

-- !list_not_linked(&sinfo->link)
abbrev pub is_linked : ℕ → KmemCache → Bool
is_linked s cache = has s cache.partial || has s cache.full || has s cache.free

-- KMEM_CACHE_IS_BUSY
abbrev pub kmem_cache_is_busy : KmemCache → Bool
kmem_cache_is_busy cache = not (is_empty cache.partial) || not (is_empty cache.full)

-- What the page allocator and kmalloc answer while a cache grows: the page, whether there is memory for
-- the slab information, and how many of the buffer control blocks can be had.
pub record Supply : Type 0 where
  pub page : Option ℕ
  pub info : Bool
  pub bufctls : ℕ

-- the loop that adds the objects; `none` if a control block cannot be had
unfoldable pub add_objects : ℕ → Bool → ℕ → Option (List ℕ)
add_objects zero on_slab bufctls = some []
add_objects (suc n) on_slab bufctls = add_objects n on_slab bufctls >>= λ objects.
    if on_slab || ltb n bufctls then some (n ∷ objects) else none

-- the slab at `kaddr`, or the page given back where its objects cannot be set up
unfoldable pub grown_at : ℕ → Option (List ℕ) → Rc (ℕ × Slab) × Option ℕ
grown_at kaddr none = (fail enomem, some kaddr)
grown_at kaddr (some objects) = (done (kaddr, record { objects = objects; count = 0 }), none)

unfoldable pub grow_from : KmemCache → Supply → Option ℕ → Rc (ℕ × Slab) × Option ℕ
unfolding grown_at
grow_from cache supply none = (fail enomem, none)
grow_from cache supply (some kaddr) =
    if not cache.on_slab && not supply.info
    then (fail enomem, some kaddr)
    else grown_at kaddr (add_objects cache.objs_per_slab cache.on_slab supply.bufctls)

-- The page of the new slab, and the page that is given back where there is none.
unfoldable pub slab_kmem_cache_grow : KmemCache → Supply → Rc (ℕ × Slab) × Option ℕ
unfolding grow_from
slab_kmem_cache_grow cache supply = grow_from cache supply supply.page

-- Under the lock: the slab to take from, with its queues; `none` if the cache has to grow.
unfoldable pub choose_slab : KmemCache → List ℕ → List ℕ → Option (ℕ × KmemCache)
choose_slab cache (s ∷ _) _ = some (s, cache)
choose_slab cache [] (s ∷ rest) = some (s, record cache { partial = s ∷ []; free = rest })
choose_slab cache [] [] = none

-- Under the lock again: the new slab is linked in. `none` where an assertion fails.
unfoldable pub link_grown : ℕ → Slab → KmemCache → Option KmemCache
link_grown s sinfo cache =
    if is_linked s cache
    then none
    else some (record (set_slab s sinfo cache) {
      slab_count = add64 cache.slab_count 1;
      partial = cache.partial ++ s ∷ [];
    })

-- still under the lock: one more object of the slab is in use
unfoldable pub reserve_object : ℕ → KmemCache → Option KmemCache
reserve_object s cache =
    let sinfo = cache.slabs s in
    let counted = set_slab s (record sinfo { count = add64 sinfo.count 1 }) cache in
    if not (add64 sinfo.count 1 == cache.objs_per_slab)
    then some counted
    else if not (is_linked s cache)
    then none
    else some (record counted { partial = remove s cache.partial; full = cache.full ++ s ∷ [] })

-- Under the slab's lock: the first free object. With none there, the source takes an object before
-- address 0.
unfoldable pub alloc_slab_obj : ℕ → KmemCache → Option (ℕ × KmemCache)
alloc_slab_obj s cache = elim (cache.slabs s).objects [
  | [] ↦ none
  | i ∷ rest ↦ some (i, set_slab s (record (cache.slabs s) { objects = rest }) cache)
]

-- the rest of an allocation that nothing interrupts, from the slab on
unfoldable pub take_object : ℕ → KmemCache → Option (Rc (ℕ × ℕ) × KmemCache)
take_object s cache =
    reserve_object s cache >>= λ c. alloc_slab_obj s c >>= λ (i, c). some (done (s, i), c)

unfoldable pub take_grown : KmemCache → Rc (ℕ × Slab) → Option (Rc (ℕ × ℕ) × KmemCache)
unfolding take_object
take_grown cache (fail rc) = some (fail rc, cache)
take_grown cache (done (s, sinfo)) = link_grown s sinfo cache >>= take_object s

unfoldable pub take_chosen :
    KmemCache → Supply → Option (ℕ × KmemCache) → Option (Rc (ℕ × ℕ) × KmemCache)
unfolding take_object take_grown
take_chosen cache supply (some (s, chosen)) = take_object s chosen
take_chosen cache supply none = take_grown cache (slab_kmem_cache_grow cache supply).0

-- an allocation that nothing interrupts
unfoldable pub slab_kmem_cache_alloc : KmemCache → Supply → Option (Rc (ℕ × ℕ) × KmemCache)
unfolding take_chosen
slab_kmem_cache_alloc cache supply =
    take_chosen cache supply (choose_slab cache cache.partial cache.free)

-- Under the lock: one object of the slab less is in use, and the slab is in the partial queue if there
-- are others.
unfoldable pub unlink_slab : ℕ → KmemCache → Option KmemCache
unlink_slab s cache =
    let sinfo = cache.slabs s in
    let taken_out =
      (if sinfo.count == cache.objs_per_slab
        then record cache { full = remove s cache.full }
        else record cache { partial = remove s cache.partial }) in
    let counted = set_slab s (record sinfo { count = sub64 sinfo.count 1 }) taken_out in
    if sinfo.count == 0
    then none
    else if sub64 sinfo.count 1 == 0
    then some counted
    else if is_linked s taken_out
    then none
    else some (record counted { partial = counted.partial ++ s ∷ [] })

-- Under the slab's lock. An object that is free, unless it is the last one, has a link.
abbrev pub has_link : ℕ → List ℕ → Bool
has_link i [] = false
has_link i (x ∷ xs) = (i == x && not (is_empty xs)) || has_link i xs

unfoldable pub free_slab_obj : ℕ → ℕ → KmemCache → Option KmemCache
free_slab_obj s i cache =
    if has_link i (cache.slabs s).objects
    then none
    else some (set_slab s (record (cache.slabs s) { objects = i ∷ (cache.slabs s).objects }) cache)

-- under the lock once more: a slab with no object in use becomes free
unfoldable pub requeue_slab : ℕ → KmemCache → Option KmemCache
requeue_slab s cache =
    if not ((cache.slabs s).count == 0)
    then some cache
    else if is_linked s cache
    then none
    else some (record cache { free = cache.free ++ s ∷ [] })

-- a release that nothing interrupts
unfoldable pub slab_kmem_cache_free : ℕ → ℕ → KmemCache → Option KmemCache
slab_kmem_cache_free s i cache =
    unlink_slab s cache >>= λ c. free_slab_obj s i c >>= λ c. requeue_slab s c

-- The loop over the free queue, which gives back the pages in its order. `free_slab_info` changes no
-- queue of this cache.
unfoldable pub reap_loop : Bool → ℕ → List ℕ → ℕ → List ℕ × ℕ
reap_loop force limits [] slab_count = ([], slab_count)
reap_loop force limits (s ∷ rest) slab_count =
    let again = reap_loop force limits rest (sub64 slab_count 1) in
    if not force && leb slab_count limits then (s ∷ rest, slab_count) else again

unfoldable pub slab_kmem_cache_reap : Bool → KmemCache → KmemCache
slab_kmem_cache_reap force cache =
    let left = reap_loop force cache.limits cache.free cache.slab_count in
    record cache { free = left.0; slab_count = left.1 }

-- The loop of `slab_kmem_cache_destroy`; `none` if `fuel` rounds do not end it.
unfoldable pub destroy_loop : ℕ → KmemCache → Option KmemCache
destroy_loop zero cache = none
destroy_loop (suc fuel) cache =
    let again = destroy_loop fuel (slab_kmem_cache_reap true cache) in
    if is_empty cache.free
    then some cache
    else if kmem_cache_is_busy cache
    then some cache
    else again

unfoldable pub slab_kmem_cache_destroy : KmemCache → Option KmemCache
unfolding destroy_loop
slab_kmem_cache_destroy cache = destroy_loop 2 cache
