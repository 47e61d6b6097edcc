-- ===== src/Page/UseCount.antt =====
-- The users of a page, in kern/page-pfdb.c: the last one gives the page back.
use risc_v_workshop.Prelude.{
  ℕ, suc, ◌-◌, ◌<◌, ◌≡◌, refl, ap, ◌∙◌, arith, Bool, true, false, not, Option, none, some, List,
  ◌∷◌, if◌then◌else◌, Ensures, Ensures-bind, All-map, Ensures-map, update_all, update_same, ◌>>=◌,
}
use risc_v_workshop.Page.Pool.{PageBuddy, modify, enqueue_page_to_buddy_pool}
use risc_v_workshop.Page.Database.{pfdb_dec_page_use_count, drop_use}
use risc_v_workshop.Page.Tiles.{WellFormed}
use risc_v_workshop.Page.Shape.{SameShape, SameFrame, Tiles-same}
use risc_v_workshop.Page.Enqueue.{Enqueued, enqueue-Enqueued}

use_same :
    (p : ℕ) (g : ℕ → ℕ) (pool : PageBuddy)
    → SameShape pool (modify p (λ f. record f { usecnt = g f.usecnt }) pool)
use_same p g pool = record {
  frames = λ q.
      update_all (λ q f. SameFrame (pool.array q) f) pool.array p _ q
        (record { order = refl; used = refl; reserved = refl; pfn = refl })
        (record { order = refl; used = refl; reserved = refl; pfn = refl });
  page_list = refl;
  free_nr = refl;
  nr_pages = refl;
  min_pfn = refl;
}

-- A change of use counts keeps the pool well formed.
pub use_well :
    (p : ℕ) (g : ℕ → ℕ) (pool : PageBuddy) (taken : List (ℕ × ℕ))
    → WellFormed pool taken
    → WellFormed (modify p (λ f. record f { usecnt = g f.usecnt }) pool) taken
use_well p g pool taken wf = record {
  tiles = Tiles-same pool _ taken (use_same p g pool) wf.tiles;
  used = All-map _ _ taken (λ b h. ((use_same p g pool).frames b.1).used ∙ h) wf.used;
}

-- What dropping a use of a page with `n` other users does, where the page heads a block of order `k`.
abbrev pub DropOutcome : PageBuddy → List (ℕ × ℕ) → ℕ → ℕ → ℕ → Bool × PageBuddy → Type 0
DropOutcome pool taken k i n (true, after) = (n ≡ 0) × Enqueued (drop_use i pool) taken k i after
DropOutcome pool taken k i n (false, after) =
    (0 < n)
    × (after ≡ drop_use i pool)
    × ((after.array i).usecnt ≡ n)
    × WellFormed after ((k, i) ∷ taken)

drop_branches :
    (P : Bool × PageBuddy → Type 0) (none_left last used unmapped : Bool) (kept : PageBuddy)
    (given : Option PageBuddy)
    → none_left ≡ false
    → used ≡ true
    → unmapped ≡ true
    → (last ≡ false → P (false, kept))
    → (last ≡ true → Ensures (λ after. P (true, after)) given)
    → Ensures P (
        if none_left
        then none
        else if not last
        then some (false, kept)
        else if not used
        then none
        else if not unmapped
        then none
        else given >>= λ after. some (true, after))
drop_branches P none_left false used unmapped kept given a b c keep give = rw a (keep refl)
drop_branches P none_left true used unmapped kept given a b c keep give =
    rw (a, b, c) (Ensures-bind _ P given _ (give refl) (λ after p. p))

-- Dropping a use of a page that heads a handed-out block and that is mapped nowhere fails no assertion,
-- on a well-formed pool. If there are other users it returns false, and only their number is less by
-- one. If there are none it returns true, and the block has been given back as by
-- `enqueue_page_to_buddy_pool`.
pub drop_use-Outcome :
    (pool : PageBuddy) (taken : List (ℕ × ℕ)) (k i n : ℕ)
    → WellFormed pool ((k, i) ∷ taken)
    → (pool.array i).usecnt ≡ suc n
    → (pool.array i).mapcnt ≡ 0
    → Ensures (DropOutcome pool taken k i n) (pfdb_dec_page_use_count i pool)
unfolding pfdb_dec_page_use_count
drop_use-Outcome pool taken k i n wf users unmapped =
    drop_branches (DropOutcome pool taken k i n) _ _ _ _ (drop_use i pool) _ (ground (arith, users))
      wf.used.0 (rw unmapped refl) (λ h. (ground (arith, users, h), refl, dropped, well))
      (λ h.
        Ensures-map _ _ (enqueue_page_to_buddy_pool (drop_use i pool) i)
          (λ after e. (ground (arith, users, h), e))
          (enqueue-Enqueued (drop_use i pool) taken k i well))
  where
    well : WellFormed (drop_use i pool) ((k, i) ∷ taken)
    well = use_well i (λ u. u - 1) pool ((k, i) ∷ taken) wf

    dropped : ((drop_use i pool).array i).usecnt ≡ n
    dropped = ap (λ f. f.usecnt) (update_same pool.array i _) ∙ rw users (omega arith)
