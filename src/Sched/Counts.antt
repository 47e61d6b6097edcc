-- ===== src/Sched/Counts.antt =====
-- How often a thread is in a queue.
use risc_v_workshop.Prelude.{
  ℕ, suc, ◌+◌, ◌-◌, ◌≡◌, refl, arith, true, false, List, [], ◌∷◌, ◌++◌, ◌==◌, if◌then◌else◌,
  is_empty, remove,
}

unfoldable pub count : ℕ → List ℕ → ℕ
count a [] = 0
count a (x ∷ xs) = (if a == x then 1 else 0) + count a xs

pub count-append :
    (a b : ℕ) (xs : List ℕ) → count a (xs ++ b ∷ []) ≡ count a xs + (if a == b then 1 else 0)
unfolding count
count-append a b [] = omega arith
count-append a b (x ∷ xs) = omega (arith, count-append a b xs)

pub count-remove :
    (a b : ℕ) (xs : List ℕ) → count a (remove b xs) ≡ count a xs - (if a == b then 1 else 0)
unfolding count remove
count-remove a b [] = omega arith
count-remove a b (x ∷ xs) = ground (arith, count-remove a b xs)

pub is_empty-append : (b : ℕ) (xs : List ℕ) → is_empty (xs ++ b ∷ []) ≡ false
is_empty-append b [] = refl
is_empty-append b (x ∷ xs) = refl

pub count_empty : (a : ℕ) (xs : List ℕ) → is_empty xs ≡ true → count a xs ≡ 0
unfolding count
count_empty a [] h = refl
count_empty a (x ∷ xs) h = absurd (cc)

pub count_first : (a : ℕ) (xs : List ℕ) → count a (a ∷ xs) ≡ suc (count a xs)
unfolding count
count_first a xs = ground arith

pub remove_first : (a : ℕ) (xs : List ℕ) → remove a (a ∷ xs) ≡ xs
unfolding remove
remove_first a xs = ground arith
