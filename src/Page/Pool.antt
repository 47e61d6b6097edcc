-- ===== src/Page/Pool.antt =====
-- `page_buddy` of include/kern/page-pfdb.h and the buddy allocator of kern/page-pfdb.c. A page
-- frame is named by its index in `array`. Every function here runs under the pool's spinlock.
use Prim.Native.Nat.{bit_xor}
use risc_v_workshop.Prelude.{
  ℕ, zero, suc, ◌+◌, ◌-◌, ◌*◌, ◌/◌, ◌%◌, ◌^◌, Bool, not, ◌&&◌, ◌||◌, Option, none, some, List, [],
  ◌∷◌, ◌++◌, ltb, leb, ◌==◌, if◌then◌else◌, update, add64, sub64, int_index, remove, Rc, done, fail,
  einval, enomem, ◌>>=◌,
}
use risc_v_workshop.Page.Frame.{
  PageUsage, kern, kstack, pgtbl, slab, anon, pcache, PageFrame, same_usage, page_state_not_freed,
  page_mark_used, page_unmark_used, page_mark_clustered, page_unmark_clustered, page_mark_ucase,
  page_unmark_ucase,
}

abbrev pub page_pool_max_order : ℕ
page_pool_max_order = 11

-- `min_pfn` is `pfdb_ent->min_pfn`, read through the link to the database entry. The six usage
-- counters (`kdata_pages` to `pcache_pages`) are one table by usage.
pub record PageBuddy : Type 0 where
  pub free_nr : ℕ → ℕ
  pub page_list : ℕ → List ℕ
  pub nr_pages : ℕ
  pub available_pages : ℕ
  pub usage_pages : PageUsage → ℕ
  pub min_pfn : ℕ
  pub array : ℕ → PageFrame

-- array[i] = f(array[i])
abbrev pub modify : ℕ → (PageFrame → PageFrame) → PageBuddy → PageBuddy
modify i f pool = record pool { array = update pool.array i (f (pool.array i)) }

-- queue_add(&pool->page_list[order], &pf->link); ++pool->free_nr[order];
abbrev pub queue_page : ℕ → ℕ → PageBuddy → PageBuddy
queue_page order pf pool = record pool {
  page_list = update pool.page_list order (pool.page_list order ++ pf ∷ []);
  free_nr = update pool.free_nr order (add64 (pool.free_nr order) 1);
}

-- queue_del(&pool->page_list[order], &pf->link); --pool->free_nr[order];
abbrev pub unqueue_page : ℕ → ℕ → PageBuddy → PageBuddy
unqueue_page order pf pool = record pool {
  page_list = update pool.page_list order (remove pf (pool.page_list order));
  free_nr = update pool.free_nr order (sub64 (pool.free_nr order) 1);
}

-- idx ^ ( 1 << order )
abbrev pub buddy_index : ℕ → ℕ → ℕ
buddy_index idx order = bit_xor idx (2 ^ order)

unfoldable pub mark_page_usage : ℕ → PageUsage → PageBuddy → PageBuddy
mark_page_usage pf usage pool =
    let pages = 2 ^ (pool.array pf).order in
    let marked = modify pf (λ f. page_mark_ucase f usage) pool in
    record marked {
      usage_pages =
          λ u. if same_usage u usage then add64 (pool.usage_pages u) pages else pool.usage_pages u;
    }

-- one `if ( PAGE_USED_BY_...(pf) )` of `unmark_page_usage`
unfoldable pub unmark_one : ℕ → ℕ → PageUsage → PageBuddy → PageBuddy
unmark_one pf pages usage pool =
    if (pool.array pf).ucase usage
    then record (modify pf (λ f. page_unmark_ucase f usage) pool) {
      usage_pages =
          λ u. if same_usage u usage then sub64 (pool.usage_pages u) pages else pool.usage_pages u;
    }
    else pool

unfoldable pub unmark_page_usage : ℕ → PageBuddy → PageBuddy
unfolding unmark_one
unmark_page_usage pf pool =
    let pages = 2 ^ (pool.array pf).order in
    unmark_one pf pages pcache (
      unmark_one pf pages anon (
        unmark_one pf pages slab
          (unmark_one pf pages pgtbl (unmark_one pf pages kstack (unmark_one pf pages kern pool)))))

-- the first `n` rounds of the loop of `setup_clustered_pages`
unfoldable pub mark_cluster : ℕ → ℕ → (ℕ → PageFrame) → ℕ → PageFrame
mark_cluster zero pf array = array
mark_cluster (suc n) pf array =
    let done = mark_cluster n pf array in
    update done (pf + n) (page_mark_clustered (done (pf + n)) pf)

unfoldable pub setup_clustered_pages : ℕ → PageBuddy → PageBuddy
unfolding mark_cluster
setup_clustered_pages pf pool =
    if (pool.array pf).order == 0
    then modify pf page_unmark_clustered pool
    else record pool { array = mark_cluster (2 ^ (pool.array pf).order) pf pool.array }

-- the first `n` rounds of the loop of `clear_clustered_pages`
unfoldable pub clear_cluster : ℕ → ℕ → (ℕ → PageFrame) → ℕ → PageFrame
clear_cluster zero pf array = array
clear_cluster (suc n) pf array =
    let done = clear_cluster n pf array in
    update done (pf + n) (page_unmark_clustered (done (pf + n)))

unfoldable pub clear_clustered_pages : ℕ → PageBuddy → PageBuddy
unfolding clear_cluster
clear_clustered_pages pf pool = record pool {
  array = clear_cluster (2 ^ (pool.array pf).order) pf pool.array;
}

-- the updates of one round of the loop of `adjust_page_order`
abbrev pub store_half : ℕ → ℕ → ℕ → PageBuddy → PageBuddy
store_half pf buddy cur_order pool =
    modify pf (λ f. record f { order = cur_order })
      (queue_page cur_order buddy (modify buddy (λ f. record f { order = cur_order }) pool))

-- while( cur_order > request_order ): recursion on `cur_order`, which each round decrements
unfoldable pub adjust_loop : ℕ → ℕ → ℕ → ℕ → PageBuddy → Option PageBuddy
adjust_loop pf idx request zero pool = some pool
adjust_loop pf idx request (suc cur_order) pool =
    let buddy = buddy_index idx cur_order in
    let rest = adjust_loop pf idx request cur_order (store_half pf buddy cur_order pool) in
    if ltb request (suc cur_order)
    then (if ltb buddy pool.nr_pages then rest else none)
    else some pool

-- `int idx` may as well be extended to 64 bits before the xor, since an order is below 31.
unfoldable pub adjust_page_order : ℕ → ℕ → PageBuddy → Option PageBuddy
unfolding adjust_loop
adjust_page_order pf request pool =
    let idx = int_index (sub64 (pool.array pf).pfn pool.min_pfn) in
    adjust_loop pf idx request (pool.array pf).order pool >>= λ adjusted.
    if (adjusted.array pf).order == request then some adjusted else none

-- the four tests of the loop of `enqueue_page_to_buddy_pool` that leave it by `break`
unfoldable pub merge_stops : PageBuddy → ℕ → ℕ → Bool
merge_stops pool cur_idx cur_order =
    let buddy = buddy_index cur_idx cur_order in
    leb (page_pool_max_order - 1) cur_order
    || leb pool.nr_pages buddy
    || not ((pool.array cur_idx).order == (pool.array buddy).order)
    || page_state_not_freed (pool.array buddy)

-- that loop, with the rounds left to PAGE_POOL_MAX_ORDER
unfoldable pub merge_loop : ℕ → ℕ → ℕ → PageBuddy → Option (ℕ × PageBuddy)
unfolding merge_stops
merge_loop zero cur_idx cur_order pool = some (cur_idx, pool)
merge_loop (suc rounds) cur_idx cur_order pool =
    let stored = modify cur_idx (λ f. record f { order = cur_order }) pool in
    let buddy = buddy_index cur_idx cur_order in
    let up = suc cur_order in
    let rest =
      merge_loop rounds (cur_idx / 2 ^ up * 2 ^ up) up
        (unqueue_page (stored.array buddy).order buddy stored) in
    if ltb cur_idx pool.nr_pages
    then (if merge_stops stored cur_idx cur_order then some (cur_idx, stored) else rest)
    else none

-- the code behind that loop
unfoldable pub queue_merged : ℕ × PageBuddy → Option PageBuddy
queue_merged (cur_idx, pool) =
    let order = (pool.array cur_idx).order in
    if ltb cur_idx pool.nr_pages && ltb order page_pool_max_order
    then some (queue_page order cur_idx (clear_clustered_pages cur_idx pool))
    else none

unfoldable pub enqueue_page_to_buddy_pool : PageBuddy → ℕ → Option PageBuddy
enqueue_page_to_buddy_pool pool req_page =
    let order = (pool.array req_page).order in
    let cleared = modify req_page page_unmark_used (unmark_page_usage req_page pool) in
    if ltb order page_pool_max_order && (req_page % 2 ^ order == 0)
    then merge_loop (page_pool_max_order - order) req_page order cleared >>= queue_merged
    else none

-- what `dequeue_page_from_memory_area` does with the first page of a queue, once unlinked
unfoldable pub hand_out : ℕ → ℕ → PageUsage → PageBuddy → Option (Rc ℕ × PageBuddy)
unfolding adjust_page_order setup_clustered_pages mark_page_usage
hand_out pf order usage pool = adjust_page_order pf order pool >>= λ adjusted.
    let marked = mark_page_usage pf usage (setup_clustered_pages pf adjusted) in
    let taken = modify pf (λ f. record (page_mark_used f) { usecnt = 1 }) marked in
    some (done (taken.array pf).pfn, taken)

-- while (cur_order < PAGE_POOL_MAX_ORDER), with the rounds left
unfoldable pub dequeue_loop : ℕ → ℕ → ℕ → PageUsage → PageBuddy → Option (Rc ℕ × PageBuddy)
dequeue_loop zero cur_order order usage pool = some (fail enomem, pool)
dequeue_loop (suc rounds) cur_order order usage pool = elim (pool.page_list cur_order) [
  | [] ↦ dequeue_loop rounds (cur_order + 1) order usage pool
  | pf ∷ pfs ↦ hand_out pf order usage (record pool {
    page_list = update pool.page_list cur_order pfs;
    free_nr = update pool.free_nr cur_order (sub64 (pool.free_nr cur_order) 1);
  })
]

unfoldable pub dequeue_page_from_memory_area : PageBuddy → ℕ → PageUsage → Option (Rc ℕ × PageBuddy)
unfolding dequeue_loop hand_out
dequeue_page_from_memory_area pool order usage =
    if leb page_pool_max_order order
    then some (fail einval, pool)
    else dequeue_loop (page_pool_max_order - order) order order usage pool
