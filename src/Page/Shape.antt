-- ===== src/Page/Shape.antt =====
-- Frame updates that the tiling does not see: cluster marks, use-case bits, counts of use.
use risc_v_workshop.Prelude.{
  ℕ, zero, suc, ◌+◌, ◌^◌, ◌≡◌, refl, ◌∙◌, List, arith, inl, inr, Bool-cases, All-map, ◌==◌,
}
use risc_v_workshop.Page.Frame.{PageFrame, PageUsage, kern, kstack, pgtbl, slab, anon, pcache}
use risc_v_workshop.Page.Pool.{
  PageBuddy, mark_page_usage, unmark_one, unmark_page_usage, mark_cluster, setup_clustered_pages,
  clear_cluster, clear_clustered_pages,
}
use risc_v_workshop.Page.Tiles.{Tiles, IsBlock_same}

-- What the tiling reads of a frame.
pub record SameFrame (f g : PageFrame) : Type 0 where
  pub order : g.order ≡ f.order
  pub used : g.used ≡ f.used
  pub reserved : g.reserved ≡ f.reserved
  pub pfn : g.pfn ≡ f.pfn

pub record SameShape (before after : PageBuddy) : Type 0 where
  pub frames : (p : ℕ) → SameFrame (before.array p) (after.array p)
  pub page_list : after.page_list ≡ before.page_list
  pub free_nr : after.free_nr ≡ before.free_nr
  pub nr_pages : after.nr_pages ≡ before.nr_pages
  pub min_pfn : after.min_pfn ≡ before.min_pfn

mark_cluster-same :
    (n pf : ℕ) (array : ℕ → PageFrame) (p : ℕ) → SameFrame (array p) (mark_cluster n pf array p)
unfolding mark_cluster
mark_cluster-same zero pf array p = record {
  order = refl;
  used = refl;
  reserved = refl;
  pfn = refl;
}
mark_cluster-same (suc n) pf array p =
    ground (arith, mark_cluster-same n pf array p, mark_cluster-same n pf array (pf + n))

clear_cluster-same :
    (n pf : ℕ) (array : ℕ → PageFrame) (p : ℕ) → SameFrame (array p) (clear_cluster n pf array p)
unfolding clear_cluster
clear_cluster-same zero pf array p = record {
  order = refl;
  used = refl;
  reserved = refl;
  pfn = refl;
}
clear_cluster-same (suc n) pf array p =
    ground (arith, clear_cluster-same n pf array p, clear_cluster-same n pf array (pf + n))

pub setup_clustered-same :
    (pf : ℕ) (pool : PageBuddy) → SameShape pool (setup_clustered_pages pf pool)
unfolding setup_clustered_pages
setup_clustered-same pf pool = elim (Bool-cases ((pool.array pf).order == 0)) [
  | inl e ↦ rw e (record {
    frames = λ p. ground arith;
    page_list = refl;
    free_nr = refl;
    nr_pages = refl;
    min_pfn = refl;
  })
  | inr e ↦ rw e (record {
    frames = mark_cluster-same _ pf pool.array;
    page_list = refl;
    free_nr = refl;
    nr_pages = refl;
    min_pfn = refl;
  })
]

pub clear_clustered-same :
    (pf : ℕ) (pool : PageBuddy) → SameShape pool (clear_clustered_pages pf pool)
unfolding clear_clustered_pages
clear_clustered-same pf pool = record {
  frames = clear_cluster-same _ pf pool.array;
  page_list = refl;
  free_nr = refl;
  nr_pages = refl;
  min_pfn = refl;
}

pub mark_page_usage-same :
    (pf : ℕ) (usage : PageUsage) (pool : PageBuddy) → SameShape pool (mark_page_usage pf usage pool)
unfolding mark_page_usage
mark_page_usage-same pf usage pool = record {
  frames = λ p. ground arith;
  page_list = refl;
  free_nr = refl;
  nr_pages = refl;
  min_pfn = refl;
}

unmark_one-same :
    (pf pages : ℕ) (usage : PageUsage) (pool : PageBuddy)
    → SameShape pool (unmark_one pf pages usage pool)
unfolding unmark_one
unmark_one-same pf pages usage pool = elim (Bool-cases ((pool.array pf).ucase usage)) [
  | inl e ↦ rw e (record {
    frames = λ p. ground arith;
    page_list = refl;
    free_nr = refl;
    nr_pages = refl;
    min_pfn = refl;
  })
  | inr e ↦ rw e (record {
    frames = λ p. record { order = refl; used = refl; reserved = refl; pfn = refl };
    page_list = refl;
    free_nr = refl;
    nr_pages = refl;
    min_pfn = refl;
  })
]

pub SameShape-trans : (a b c : PageBuddy) → SameShape a b → SameShape b c → SameShape a c
SameShape-trans a b c f g = record {
  frames = λ p. record {
    order = (g.frames p).order ∙ (f.frames p).order;
    used = (g.frames p).used ∙ (f.frames p).used;
    reserved = (g.frames p).reserved ∙ (f.frames p).reserved;
    pfn = (g.frames p).pfn ∙ (f.frames p).pfn;
  };
  page_list = g.page_list ∙ f.page_list;
  free_nr = g.free_nr ∙ f.free_nr;
  nr_pages = g.nr_pages ∙ f.nr_pages;
  min_pfn = g.min_pfn ∙ f.min_pfn;
}

pub unmark_page_usage-same :
    (pf : ℕ) (pool : PageBuddy) → SameShape pool (unmark_page_usage pf pool)
unfolding unmark_page_usage
unmark_page_usage-same pf pool =
    next kern pool
      (next kstack _ (next pgtbl _ (next slab _ (next anon _ (unmark_one-same pf pages pcache _)))))
  where
    pages : ℕ
    pages = 2 ^ (pool.array pf).order

    next :
        (usage : PageUsage) (q : PageBuddy) {r : PageBuddy}
        → SameShape (unmark_one pf pages usage q) r
        → SameShape q r
    next usage q {r} h = SameShape-trans q _ r (unmark_one-same pf pages usage q) h

-- The tiling reads nothing else.
pub Tiles-same : (a b : PageBuddy) (out : List (ℕ × ℕ)) → SameShape a b → Tiles a out → Tiles b out
Tiles-same a b out s t = record {
  counted = λ k. rw (s.page_list, s.free_nr) (t.counted k);
  queued = λ k h.
      rw (s.page_list, s.nr_pages)
        (All-map _ _ (a.page_list k)
          (λ i. IsBlock_same a.array b.array a.nr_pages k i (s.frames i).order) (t.queued k h));
  held = rw s.nr_pages (
      All-map _ _ out (λ c. IsBlock_same a.array b.array a.nr_pages c.0 c.1 (s.frames c.1).order)
        t.held);
  tiled = λ p h. rw (s.page_list, (s.frames p).reserved) (t.tiled p (rw s.nr_pages at h));
  marked = λ p h. rw (s.frames p).used (t.marked p (rw s.nr_pages at h));
  numbered = λ p h. rw ((s.frames p).pfn, s.min_pfn) (t.numbered p (rw s.nr_pages at h));
  sized = rw (s.min_pfn, s.nr_pages) t.sized;
}
