-- ===== src/Page/Lookup/Tests.antt =====
-- Two areas, searched from the first entry on.
use risc_v_workshop.Prelude.{
  ◌≡◌, ◌≢◌, refl, ap, arith, Option, none, some, List, [], ◌∷◌, Ensures, Ensures-map, ◌>>=◌, inl,
  inr,
}
use risc_v_workshop.Page.Lookup.{
  PfdbEnt, Place, key_before, key_within, key_after, pfn_to_page_frame,
}
use risc_v_workshop.Page.Lookup.Search.{
  Finds, FindOutcome, FrameOutcome, pfn_to_page_frame-Outcome, last_page-stops,
}

abbrev find_on : PfdbEnt → Option (Option PfdbEnt) → Place → Option (Option PfdbEnt)
find_on e rest key_within = some (some e)
find_on e rest _ = rest

abbrev linear_find : List PfdbEnt → (PfdbEnt → Option Place) → Option (Option PfdbEnt)
linear_find [] cmp = some none
linear_find (e ∷ es) cmp = cmp e >>= find_on e (linear_find es cmp)

goes_on :
    (e : PfdbEnt) (es : List PfdbEnt) (cmp : PfdbEnt → Option Place)
    → cmp e ≢ some key_within
    → (res : Option PfdbEnt) → FindOutcome es cmp res
    → FindOutcome (e ∷ es) cmp res
goes_on e es cmp n none o = (n, o)
goes_on e es cmp n (some x) o = (inr o.0, o.1)

linear_step :
    (e : PfdbEnt) (es : List PfdbEnt) (cmp : PfdbEnt → Option Place)
    → (r : Option Place) → cmp e ≡ r
    → r ≢ none
    → Ensures (FindOutcome es cmp) (linear_find es cmp)
    → Ensures (FindOutcome (e ∷ es) cmp) (r >>= find_on e (linear_find es cmp))
linear_step e es cmp none q n h = absurd (n refl)
linear_step e es cmp (some key_within) q n h = (inl refl, q)
linear_step e es cmp (some key_before) q n h =
    Ensures-map _ _ (linear_find es cmp) (goes_on e es cmp (λ w. absurd (cc))) h
linear_step e es cmp (some key_after) q n h =
    Ensures-map _ _ (linear_find es cmp) (goes_on e es cmp (λ w. absurd (cc))) h

linear_find-Finds : Finds linear_find
linear_find-Finds [] cmp s o = tt
linear_find-Finds (e ∷ es) cmp s o =
    linear_step e es cmp (cmp e) refl s.0 (linear_find-Finds es cmp s.1 o.1)

abbrev high_area : PfdbEnt
high_area = record { min_pfn = 100; max_pfn = 108 }

abbrev low_area : PfdbEnt
low_area = record { min_pfn = 8; max_pfn = 12 }

pfn_to_page_frame-Outcome_example :
    Ensures
      (FrameOutcome (high_area ∷ low_area ∷ []) 10)
      (pfn_to_page_frame linear_find (high_area ∷ low_area ∷ []) 10)
pfn_to_page_frame-Outcome_example =
    pfn_to_page_frame-Outcome linear_find linear_find-Finds (high_area ∷ low_area ∷ [])
      ((omega arith, omega arith), ((omega arith, omega arith), tt)) ((omega arith, tt), (tt, tt))
      10 (omega arith) (ground arith, (ground arith, tt))

last_page-stops_example : pfn_to_page_frame linear_find (low_area ∷ []) 11 ≡ none
last_page-stops_example =
    last_page-stops linear_find (λ e cmp q. ap (λ r. r >>= find_on e (some none)) q) low_area
      (omega arith, omega arith) 11 (omega arith) refl
