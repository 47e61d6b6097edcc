-- ===== src/Page/Lookup/Search.antt =====
-- Searching the areas of kern/page-pfdb.c for a page.
use risc_v_workshop.Prelude.{
  ℕ, ◌+◌, ◌<◌, ◌≤◌, ◌≡◌, ◌≢◌, ◌⊎◌, refl, ap, ◌>>=◌, subst, arith, Bool-cases, inl, inr, ltb, leb,
  ◌&&◌, Option, none, some, List, [], ◌∷◌, All, All-map, All-and, Ensures, Ensures-bind, add64, Rc,
  done, fail, esrch,
}
use risc_v_workshop.Page.Lookup.{
  PfdbEnt, Place, key_before, key_within, key_after, pfdb_ent_cmp, page_key, found_in,
  pfn_to_page_frame,
}

-- what a result says of the page
abbrev pub PageOutcome : ℕ → PfdbEnt → Option Place → Type 0
PageOutcome pfn ent (some key_before) = pfn < ent.min_pfn
PageOutcome pfn ent (some key_within) = (ent.min_pfn ≤ pfn) × (pfn + 1 < ent.max_pfn)
PageOutcome pfn ent (some key_after) = ent.max_pfn ≤ pfn
PageOutcome pfn ent none = (ent.min_pfn ≤ pfn) × (pfn + 1 ≡ ent.max_pfn)

page_key_max : (pfn : ℕ) → pfn < 18446744073709551615 → add64 pfn 1 ≡ pfn + 1
page_key_max pfn h = omega arith

-- Comparing a page, whose number is below 2 ^ 64 - 1, with an area: the result places it before, behind
-- or in the area, and rightly, except that for the last page of the area the assertion fails.
pfdb_ent_cmp-Outcome :
    (pfn : ℕ) (ent : PfdbEnt)
    → pfn < 18446744073709551615
    → PageOutcome pfn ent (pfdb_ent_cmp (page_key pfn) ent)
unfolding pfdb_ent_cmp
pfdb_ent_cmp-Outcome pfn ent h =
    rw (page_key_max pfn h) (elim (Bool-cases (leb (pfn + 1) ent.min_pfn)) [
      | inl a ↦ rw (a) (ground arith)
      | inr a ↦ rw (a) (elim (Bool-cases (leb ent.max_pfn pfn)) [
        | inl b ↦ rw (b) (ground arith)
        | inr b ↦ rw (b) (elim (Bool-cases (leb ent.min_pfn pfn && ltb (pfn + 1) ent.max_pfn)) [
          | inl c ↦ rw (c) (ground arith, ground arith)
          | inr c ↦ rw (c) (ground arith, ground arith)
        ])
      ])
    ])

abbrev pub Among : PfdbEnt → List PfdbEnt → Type 0
Among e [] = ⊥
Among e (x ∷ xs) = (x ≡ e) ⊎ Among e xs

All-among : (P : PfdbEnt → Type 0) (e : PfdbEnt) (xs : List PfdbEnt) → All P xs → Among e xs → P e
All-among P e [] h m = absurd m
All-among P e (x ∷ xs) h (inl q) = subst P q h.0
All-among P e (x ∷ xs) h (inr m) = All-among P e xs h.1 m

-- A key goes through the entries in order: it is not before any of them behind the first where it is
-- not before, and it is after all that follow one that it is within.
abbrev pub Ordered : (PfdbEnt → Option Place) → List PfdbEnt → Type 0
Ordered cmp [] = Unit
Ordered cmp (x ∷ xs) =
    (cmp x ≢ some key_before → All (λ y. cmp y ≡ some key_after) xs) × Ordered cmp xs

abbrev pub FindOutcome : List PfdbEnt → (PfdbEnt → Option Place) → Option PfdbEnt → Type 0
FindOutcome areas cmp none = All (λ e. cmp e ≢ some key_within) areas
FindOutcome areas cmp (some e) = Among e areas × (cmp e ≡ some key_within)

-- What RB_FIND does where no comparison stops and the tree is ordered for the key.
abbrev pub Finds : (List PfdbEnt → (PfdbEnt → Option Place) → Option (Option PfdbEnt)) → Type 0
Finds rb_find =
    (areas : List PfdbEnt) (cmp : PfdbEnt → Option Place)
    → All (λ e. cmp e ≢ none) areas
    → Ordered cmp areas
    → Ensures (FindOutcome areas cmp) (rb_find areas cmp)

-- The areas in the order of the tree: it has the higher pages first.
abbrev pub Descending : List PfdbEnt → Type 0
Descending [] = Unit
Descending (x ∷ xs) = All (λ y. y.max_pfn ≤ x.min_pfn) xs × Descending xs

-- An area has a page, and at most as many as an index of type int can count.
abbrev pub HasPages : PfdbEnt → Type 0
HasPages e = (e.min_pfn < e.max_pfn) × (e.max_pfn ≤ e.min_pfn + 2147483648)

abbrev pub FrameOutcome : List PfdbEnt → ℕ → Rc (PfdbEnt × ℕ) → Type 0
FrameOutcome areas pfn (done (e, idx)) = Among e areas × (e.min_pfn + idx ≡ pfn) × (pfn < e.max_pfn)
FrameOutcome areas pfn (fail rc) =
    (rc ≡ esrch) × All (λ e. (pfn < e.min_pfn) ⊎ (e.max_pfn ≤ pfn)) areas

module _ (pfn : ℕ) (e : PfdbEnt) (h : HasPages e) where
  after_result : (r : Option Place) → PageOutcome pfn e r → e.max_pfn ≤ pfn → r ≡ some key_after
  after_result (some key_before) o k = absurd (omega (arith, h.0, o, k))
  after_result (some key_within) o k = absurd (omega (arith, o.1, k))
  after_result (some key_after) o k = refl
  after_result none o k = absurd (omega (arith, o.1, k))

  not_before_result :
      (r : Option Place) → PageOutcome pfn e r → r ≢ some key_before → e.min_pfn ≤ pfn
  not_before_result (some key_before) o k = absurd (k refl)
  not_before_result (some key_within) o k = o.0
  not_before_result (some key_after) o k = omega (arith, h.0, o)
  not_before_result none o k = o.0

  outside_result :
      (r : Option Place)
      → PageOutcome pfn e r
      → pfn + 1 ≢ e.max_pfn
      → r ≢ some key_within
      → (pfn < e.min_pfn) ⊎ (e.max_pfn ≤ pfn)
  outside_result (some key_before) o n k = inl o
  outside_result (some key_within) o n k = absurd (k refl)
  outside_result (some key_after) o n k = inr o
  outside_result none o n k = absurd (n o.1)

  stopped_result : (r : Option Place) → PageOutcome pfn e r → pfn + 1 ≡ e.max_pfn → r ≡ none
  stopped_result (some key_before) o q = absurd (omega (arith, h.0, o, q))
  stopped_result (some key_within) o q = absurd (omega (arith, o.1, q))
  stopped_result (some key_after) o q = absurd (omega (arith, o, q))
  stopped_result none o q = refl

module _ (pfn : ℕ) (small : pfn < 18446744073709551615) where
  compared : (e : PfdbEnt) → PageOutcome pfn e (pfdb_ent_cmp (page_key pfn) e)
  compared e = pfdb_ent_cmp-Outcome pfn e small

  areas-Ordered :
      (areas : List PfdbEnt)
      → All HasPages areas
      → Descending areas
      → Ordered (pfdb_ent_cmp (page_key pfn)) areas
  areas-Ordered [] h d = tt
  areas-Ordered (x ∷ xs) h d = (
    (λ k.
        let low = not_before_result pfn x h.0 _ (compared x) k in
        All-map _ _ xs (λ y b. after_result pfn y b.0 _ (compared y) (omega (arith, b.1, low)))
          (All-and HasPages (λ y. y.max_pfn ≤ x.min_pfn) xs h.1 d.0)),
    areas-Ordered xs h.1 d.1,
  )

  frame_found :
      (areas : List PfdbEnt)
      → All HasPages areas
      → All (λ e. pfn + 1 ≢ e.max_pfn) areas
      → (res : Option PfdbEnt) → FindOutcome areas (pfdb_ent_cmp (page_key pfn)) res
      → FrameOutcome areas pfn (found_in pfn res)
  frame_found areas h n none o = (
    refl,
    All-map _ _ areas (λ e b. outside_result pfn e b.0 _ (compared e) b.1.0 b.1.1)
        (All-and HasPages _ areas h (All-and (λ e. pfn + 1 ≢ e.max_pfn) _ areas n o)),
  )
  frame_found areas h n (some e) o =
      let has_pages = All-among HasPages e areas h o.0 in
      let place = subst (PageOutcome pfn e) o.1 (compared e) in
      (o.0, omega (arith, has_pages.0, has_pages.1, place.0, place.1), omega (arith, place.1))

  last_result :
      (e : PfdbEnt) → HasPages e → pfn + 1 ≡ e.max_pfn → pfdb_ent_cmp (page_key pfn) e ≡ none
  last_result e h q = stopped_result pfn e h _ (compared e) q

  not_stopped : (e : PfdbEnt) → pfn + 1 ≢ e.max_pfn → pfdb_ent_cmp (page_key pfn) e ≢ none
  not_stopped e h q = h (subst (PageOutcome pfn e) q (compared e)).1

-- Asking for the frame of a page whose number is below 2 ^ 64 - 1, where the areas of the tree are
-- disjoint, in its order, with at least one and at most 2 ^ 31 pages each, and the page is the last of
-- none of them: no assertion fails. If the call succeeds, the page is one of the area's that it found,
-- and the index is its place there. It fails only with ESRCH, and then no area has the page. RB_FIND
-- is a parameter that finds entries so in an ordered tree.
pub pfn_to_page_frame-Outcome :
    (rb_find : List PfdbEnt → (PfdbEnt → Option Place) → Option (Option PfdbEnt))
    → Finds rb_find
    → (areas : List PfdbEnt) → All HasPages areas
    → Descending areas
    → (pfn : ℕ) → pfn < 18446744073709551615
    → All (λ e. pfn + 1 ≢ e.max_pfn) areas
    → Ensures (FrameOutcome areas pfn) (pfn_to_page_frame rb_find areas pfn)
unfolding pfn_to_page_frame
pfn_to_page_frame-Outcome rb_find finds areas h d pfn small n =
    Ensures-bind _ _ (rb_find areas (pfdb_ent_cmp (page_key pfn))) (λ res. some (found_in pfn res))
      (finds areas _ (All-map _ _ areas (not_stopped pfn small) n)
        (areas-Ordered pfn small areas h d))
      (frame_found pfn small areas h n)

-- If an area is the only one, with at least one and at most 2 ^ 31 pages, asking for the frame of its
-- last page fails an assertion, whatever RB_FIND does as long as it stops where comparing the key with
-- the only entry stops.
pub last_page-stops :
    (rb_find : List PfdbEnt → (PfdbEnt → Option Place) → Option (Option PfdbEnt))
    → ((e : PfdbEnt) (cmp : PfdbEnt → Option Place) → cmp e ≡ none → rb_find (e ∷ []) cmp ≡ none)
    → (e : PfdbEnt) → HasPages e
    → (pfn : ℕ) → pfn < 18446744073709551615
    → pfn + 1 ≡ e.max_pfn
    → pfn_to_page_frame rb_find (e ∷ []) pfn ≡ none
unfolding pfn_to_page_frame
last_page-stops rb_find compares e h pfn small last =
    ap (λ r. r >>= λ res. some (found_in pfn res)) (compares e _ (last_result pfn small e h last))
