-- ===== src/Page/DatabaseTests.antt =====
-- Two areas, and a page with one user.
use risc_v_workshop.Prelude.{arith, ◌%◌, ◌^◌, ◌≡◌, refl, [], ◌∷◌, Ensures, ◌+◌}
use risc_v_workshop.Page.Frame.{kern}
use risc_v_workshop.Page.Pool.{PageBuddy, modify}
use risc_v_workshop.Page.Database.{
  pfdb_buddy_dequeue, pfdb_dec_page_use_count, kcom_obtain_pfdb_stat,
}
use risc_v_workshop.Page.Tiles.{WellFormed}
use risc_v_workshop.Page.Areas.{AreasOutcome, pfdb_buddy_dequeue-Outcome}
use risc_v_workshop.Page.UseCount.{DropOutcome, drop_use-Outcome, use_well}
use risc_v_workshop.Page.Stat.{all_free, all_pages, obtain_pfdb_stat-sums}
use risc_v_workshop.Page.Tests.{four_pages, four_pages-WellFormed, half_out, half_out-WellFormed}

pfdb_buddy_dequeue-Outcome_example :
    Ensures
      (AreasOutcome (half_out ∷ four_pages ∷ []) 1)
      (pfdb_buddy_dequeue (half_out ∷ four_pages ∷ []) 1 kern)
pfdb_buddy_dequeue-Outcome_example =
    pfdb_buddy_dequeue-Outcome 1 kern (half_out ∷ four_pages ∷ []) (((0, 0) ∷ []) ∷ [] ∷ [])
      (half_out-WellFormed, (four_pages-WellFormed, tt)) (omega arith, (omega arith, tt))

-- page 0 handed out, with one user
abbrev one_user : PageBuddy
one_user = modify 0 (λ f. record f { usecnt = f.usecnt + 1 }) half_out

one_user-WellFormed : WellFormed one_user ((0, 0) ∷ [])
one_user-WellFormed = use_well 0 (λ u. u + 1) half_out ((0, 0) ∷ []) half_out-WellFormed

drop_use-Outcome_example :
    Ensures (DropOutcome one_user [] 0 0 0) (pfdb_dec_page_use_count 0 one_user)
drop_use-Outcome_example = drop_use-Outcome one_user [] 0 0 0 one_user-WellFormed refl refl

obtain_pfdb_stat-sums_example :
    ((kcom_obtain_pfdb_stat (half_out ∷ four_pages ∷ [])).nr_free_pages
      ≡ all_free (half_out ∷ four_pages ∷ []) % 2 ^ 64)
    × ((kcom_obtain_pfdb_stat (half_out ∷ four_pages ∷ [])).nr_pages
        ≡ all_pages (half_out ∷ four_pages ∷ []) % 2 ^ 64)
obtain_pfdb_stat-sums_example =
    obtain_pfdb_stat-sums (half_out ∷ four_pages ∷ [])
      (half_out-WellFormed.tiles.counted, (four_pages-WellFormed.tiles.counted, tt))
