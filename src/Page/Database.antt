-- ===== src/Page/Database.antt =====
-- The page frame database of kern/page-pfdb.c: the memory areas in the order of its tree, each with its
-- pool, and the counts of a page's users. A count is an int32_t that is not negative.
use risc_v_workshop.Prelude.{
  ℕ, zero, suc, ◌+◌, ◌-◌, ◌*◌, ◌%◌, ◌^◌, Bool, true, false, not, Option, none, some, List, [], ◌∷◌,
  ◌==◌, if◌then◌else◌, Rc, fail, enomem, ◌>>=◌, add64, sub64,
}
use risc_v_workshop.Page.Frame.{PageUsage}
use risc_v_workshop.Page.Pool.{
  PageBuddy, modify, page_pool_max_order, dequeue_page_from_memory_area, enqueue_page_to_buddy_pool,
}

-- Go on to the next area only if this one has no memory.
abbrev pub unless_enomem {ℓ} : {A : Type ℓ} → Rc ℕ → A → A → A
unless_enomem (fail enomem) next stop = next
unless_enomem _ next stop = stop

unfoldable pub pfdb_buddy_dequeue : List PageBuddy → ℕ → PageUsage → Option (Rc ℕ × List PageBuddy)
pfdb_buddy_dequeue [] order usage = some (fail enomem, [])
pfdb_buddy_dequeue (ent ∷ rest) order usage =
    let others = pfdb_buddy_dequeue rest order usage in
    dequeue_page_from_memory_area ent order usage >>= λ (rc, after).
    unless_enomem rc (others >>= λ (rc, areas). some (rc, after ∷ areas)) (some (rc, after ∷ rest))

unfoldable pub pfdb_inc_page_use_count : ℕ → PageBuddy → Bool × PageBuddy
pfdb_inc_page_use_count pf pool =
    if (pool.array pf).usecnt == 0
    then (false, pool)
    else (true, modify pf (λ f. record f { usecnt = f.usecnt + 1 }) pool)

-- refcnt_dec_and_test, once it is known that the count is not 0
abbrev pub drop_use : ℕ → PageBuddy → PageBuddy
drop_use pf = modify pf (λ f. record f { usecnt = f.usecnt - 1 })

unfoldable pub pfdb_dec_page_use_count : ℕ → PageBuddy → Option (Bool × PageBuddy)
pfdb_dec_page_use_count pf pool =
    let page = pool.array pf in
    let released = enqueue_page_to_buddy_pool (drop_use pf pool) pf in
    if page.usecnt == 0
    then none
    else if not (page.usecnt == 1)
    then some (false, drop_use pf pool)
    else if not page.used
    then none
    else if not (page.mapcnt == 0)
    then none
    else released >>= λ after. some (true, after)

-- the sum of `free_nr[order] << order` over the first `n` orders
unfoldable pub count_free : PageBuddy → ℕ → ℕ
count_free pool zero = 0
count_free pool (suc order) =
    add64 (count_free pool order) (pool.free_nr order * 2 ^ order % 2 ^ 64)

-- the test of `remove_pfdb_ent_common` for pages in use
abbrev pub has_used_pages : PageBuddy → Bool
has_used_pages pool = not (pool.available_pages == count_free pool page_pool_max_order)

pub record PfdbStat : Type 0 where
  pub nr_pages : ℕ
  pub nr_free_pages : ℕ
  pub reserved_pages : ℕ
  pub available_pages : ℕ
  pub free_nr : ℕ → ℕ
  pub usage_pages : PageUsage → ℕ

-- what one area adds to the statistics; the loop over the orders adds to two members at once
abbrev pub add_area : PageBuddy → PfdbStat → PfdbStat
add_area pool stat = record {
  nr_pages = add64 stat.nr_pages pool.nr_pages;
  nr_free_pages = add64 stat.nr_free_pages (count_free pool page_pool_max_order);
  reserved_pages = add64 stat.reserved_pages (sub64 pool.nr_pages pool.available_pages);
  available_pages = add64 stat.available_pages pool.available_pages;
  free_nr = λ order. add64 (stat.free_nr order) (pool.free_nr order);
  usage_pages = λ u. add64 (stat.usage_pages u) (pool.usage_pages u);
}

abbrev pub no_stat : PfdbStat
no_stat = record {
  nr_pages = 0;
  nr_free_pages = 0;
  reserved_pages = 0;
  available_pages = 0;
  free_nr = λ order. 0;
  usage_pages = λ u. 0;
}

unfoldable pub stat_loop : List PageBuddy → PfdbStat → PfdbStat
stat_loop [] stat = stat
stat_loop (pool ∷ rest) stat = stat_loop rest (add_area pool stat)

unfoldable pub kcom_obtain_pfdb_stat : List PageBuddy → PfdbStat
unfolding stat_loop
kcom_obtain_pfdb_stat areas = stat_loop areas no_stat
