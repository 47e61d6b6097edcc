-- ===== src/Page/Lookup.antt =====
-- The order of the memory areas in the tree of kern/page-pfdb.c, and the search for a page's area. Of a
-- `pfdb_ent` it has the two members that the comparison reads: its pages are [min_pfn, max_pfn).
pub mod Search
mod Tests
use risc_v_workshop.Prelude.{
  ℕ, ◌+◌, ◌-◌, ◌%◌, ◌^◌, ◌<◌, ◌≤◌, ◌≡◌, ◌↔◌, refl, arith, Bool, Bool-cases, true, false, inl, inr,
  ltb, leb, ◌&&◌, if◌then◌else◌, Option, none, some, List, add64, sub64, Rc, done, fail, esrch,
  ◌>>=◌,
}

pub record PfdbEnt : Type 0 where
  pub min_pfn : ℕ
  pub max_pfn : ℕ

-- the results 1, 0 and -1
pub data Place : Type 0 where
  key_before : Place
  key_within : Place
  key_after : Place

-- `none` where the assertion fails
unfoldable pub pfdb_ent_cmp : PfdbEnt → PfdbEnt → Option Place
pfdb_ent_cmp key ent =
    if leb key.max_pfn ent.min_pfn
    then some key_before
    else if leb ent.max_pfn key.min_pfn
    then some key_after
    else if leb ent.min_pfn key.min_pfn && ltb key.max_pfn ent.max_pfn
    then some key_within
    else none

-- the key of `pfn_to_page_frame`
abbrev pub page_key : ℕ → PfdbEnt
page_key pfn = record { min_pfn = pfn; max_pfn = add64 pfn 1 }

-- `idx`, as the word of 32 bits that stands for an int
abbrev pub array_index : ℕ → PfdbEnt → ℕ
array_index pfn res = sub64 pfn res.min_pfn % 2 ^ 32

-- the page's entry and its index in the area's array, from what RB_FIND returned
abbrev pub found_in : ℕ → Option PfdbEnt → Rc (PfdbEnt × ℕ)
found_in pfn none = fail esrch
found_in pfn (some res) = done (res, array_index pfn res)

-- `rb_find` is RB_FIND of include/klib/rbtree.h, on the entries of a tree in its order and with the
-- comparison of the key with an entry. It stops where the comparison does.
unfoldable pub pfn_to_page_frame :
    (List PfdbEnt → (PfdbEnt → Option Place) → Option (Option PfdbEnt))
    → List PfdbEnt
    → ℕ
    → Option (Rc (PfdbEnt × ℕ))
pfn_to_page_frame rb_find areas pfn =
    rb_find areas (pfdb_ent_cmp (page_key pfn)) >>= λ res. some (found_in pfn res)
