-- ===== src/Page/Stat.antt =====
-- Counting the free pages in kern/page-pfdb.c.
use risc_v_workshop.Prelude.{
  ℕ, zero, suc, ◌+◌, ◌*◌, ◌/◌, ◌%◌, ◌^◌, ◌<◌, ◌≡◌, refl, ap, sym, ◌∙◌, arith, List, [], ◌∷◌, length,
  All,
}
use native.Mathlib.Nat.{div-add-mod', add-mul-mod_self_right}
use risc_v_workshop.Page.Pool.{PageBuddy, page_pool_max_order}
use risc_v_workshop.Page.Database.{
  count_free, PfdbStat, add_area, stat_loop, no_stat, kcom_obtain_pfdb_stat,
}
use risc_v_workshop.Page.Weights.{pages, total, weigh}
use risc_v_workshop.Page.Cycle.{free_pages}

weigh-pages : (k : ℕ) (is : List ℕ) → weigh pages k is ≡ length is * 2 ^ k
unfolding weigh
weigh-pages k [] = omega arith
weigh-pages k (i ∷ is) =
    let next : suc (length is) * 2 ^ k ≡ 2 ^ k + length is * 2 ^ k = grind arith in
    omega (arith, weigh-pages k is, next)

spread : (q r b m : ℕ) → (q * m + r) * b ≡ r * b + q * b * m
spread q r b m = grind arith

wrapped_product : (a b m : ℕ) → a % m * b % m ≡ a * b % m
wrapped_product a b m = sym (
    ap (λ t. t * b % m) (sym (div-add-mod' a m))
    ∙ ap (λ t. t % m) (spread (a / m) (a % m) b m)
    ∙ add-mul-mod_self_right (a % m * b) (a / m * b) m)

count_free-total :
    (pool : PageBuddy) (n : ℕ)
    → ((k : ℕ) → pool.free_nr k ≡ length (pool.page_list k) % 2 ^ 64)
    → count_free pool n ≡ total pages n pool.page_list % 2 ^ 64
unfolding count_free total
count_free-total pool zero c = refl
count_free-total pool (suc n) c = omega (
  arith,
  count_free-total pool n c,
  ap (λ t. t * 2 ^ n % 2 ^ 64) (c n),
  wrapped_product (length (pool.page_list n)) (2 ^ n) (2 ^ 64),
  ap (λ t. t % 2 ^ 64) (weigh-pages n (pool.page_list n)),
)

-- the free pages of all areas
abbrev pub all_free : List PageBuddy → ℕ
all_free [] = 0
all_free (pool ∷ rest) = free_pages pool + all_free rest

abbrev pub all_pages : List PageBuddy → ℕ
all_pages [] = 0
all_pages (pool ∷ rest) = pool.nr_pages + all_pages rest

-- the counts of free blocks of every area are right
abbrev pub IsCounted : PageBuddy → Type 0
IsCounted pool = (k : ℕ) → pool.free_nr k ≡ length (pool.page_list k) % 2 ^ 64

stat_loop-sums :
    (areas : List PageBuddy) (stat : PfdbStat)
    → All IsCounted areas
    → stat.nr_free_pages < 2 ^ 64
    → stat.nr_pages < 2 ^ 64
    → ((stat_loop areas stat).nr_free_pages ≡ (stat.nr_free_pages + all_free areas) % 2 ^ 64)
      × ((stat_loop areas stat).nr_pages ≡ (stat.nr_pages + all_pages areas) % 2 ^ 64)
unfolding stat_loop
stat_loop-sums [] stat c f n = (omega arith, omega arith)
stat_loop-sums (pool ∷ rest) stat c f n =
    let later = stat_loop-sums rest (add_area pool stat) c.1 (omega arith) (omega arith) in
    let own = count_free-total pool page_pool_max_order c.0 in
    (omega (arith, later.0, own), omega (arith, later.1))

-- The statistics give the number of free pages, and of pages, of all areas together, modulo 2 ^ 64. The
-- counts of free blocks of each area are right, as they are in a well-formed pool.
pub obtain_pfdb_stat-sums :
    (areas : List PageBuddy)
    → All IsCounted areas
    → ((kcom_obtain_pfdb_stat areas).nr_free_pages ≡ all_free areas % 2 ^ 64)
      × ((kcom_obtain_pfdb_stat areas).nr_pages ≡ all_pages areas % 2 ^ 64)
unfolding kcom_obtain_pfdb_stat
obtain_pfdb_stat-sums areas c =
    let sums = stat_loop-sums areas no_stat c (omega arith) (omega arith) in
    (omega (arith, sums.0), omega (arith, sums.1))
