-- ===== src/Prelude/Repeats.antt =====
-- Lists of numbers in which none stands twice.
use Prim.Native.Nat.{ℕ, zero, suc, ◌≤◌, ◌<◌}
use mathlib.Core.Path.{◌≡◌, refl, ap}
use mathlib.Core.Logic.{◌≢◌, inl, inr}
use mathlib.Core.Bool.{true, false, not, ◌&&◌, ◌||◌}
use mathlib.Core.List.{List, [], ◌∷◌, ◌++◌}
use native.Mathlib.Omega.{arith}
use risc_v_workshop.Prelude.Tests.{◌==◌, Bool-cases}
use risc_v_workshop.Prelude.Lists.{
  has, remove, length, All, All_lookup, length-remove, remove_of_not_has,
}

abbrev pub Outside : ℕ → List ℕ → Type 0
Outside a xs = has a xs ≡ false

-- no node twice
abbrev pub Distinct : List ℕ → Type 0
Distinct [] = Unit
Distinct (x ∷ xs) = Outside x xs × Distinct xs

pub has-append : (a : ℕ) (xs ys : List ℕ) → has a (xs ++ ys) ≡ (has a xs || has a ys)
unfolding has
has-append a [] ys = refl
has-append a (x ∷ xs) ys = ground (arith, has-append a xs ys)

pub ne_of_has : (a b : ℕ) (xs : List ℕ) → has a xs ≡ true → Outside b xs → a ≢ b
ne_of_has a b xs h o e = absurd (cc)

pub Distinct-middle :
    (l : List ℕ) (x : ℕ) (r : List ℕ) → Distinct (l ++ x ∷ r) → Outside x l × Distinct (x ∷ r)
unfolding has
Distinct-middle [] x r d = (refl, d)
Distinct-middle (z ∷ l) x r d =
    let rest = Distinct-middle l x r d.1 in
    (ground (arith, d.0, has-append z l (x ∷ r), rest.0), rest.1)

pub Distinct-insert :
    (n : ℕ) (l r : List ℕ) → Distinct (l ++ r) → Outside n (l ++ r) → Distinct (l ++ n ∷ r)
unfolding has
Distinct-insert n [] r d o = (o, d)
Distinct-insert n (x ∷ l) r d o = (
  ground (arith, d.0, has-append x l r, has-append x l (n ∷ r)),
  Distinct-insert n l r d.1 (ground arith),
)

pub Distinct-snoc : (n : ℕ) (l : List ℕ) → Distinct l → Outside n l → Distinct (l ++ n ∷ [])
unfolding has
Distinct-snoc n [] d o = (refl, tt)
Distinct-snoc n (x ∷ l) d o =
    (ground (arith, d.0, has-append x l (n ∷ [])), Distinct-snoc n l d.1 (ground arith))

pub Distinct-delete : (x : ℕ) (l r : List ℕ) → Distinct (l ++ x ∷ r) → Distinct (l ++ r)
unfolding has
Distinct-delete x [] r d = d.1
Distinct-delete x (y ∷ l) r d =
    (ground (arith, d.0, has-append y l r, has-append y l (x ∷ r)), Distinct-delete x l r d.1)

pub Distinct-left : (l r : List ℕ) → Distinct (l ++ r) → Distinct l
unfolding has
Distinct-left [] r d = tt
Distinct-left (x ∷ l) r d = (ground (arith, d.0, has-append x l r), Distinct-left l r d.1)

pub Distinct-apart : (p : ℕ) (l r : List ℕ) → Distinct (l ++ r) → has p r ≡ true → Outside p l
unfolding has
Distinct-apart p [] r d i = refl
Distinct-apart p (x ∷ l) r d i =
    ground (arith, d.0, has-append x l r, ne_of_has p x r i, Distinct-apart p l r d.1)

pub has-remove :
    (a b : ℕ) (xs : List ℕ) → Distinct xs → has a (remove b xs) ≡ (has a xs && not (a == b))
unfolding has remove
has-remove a b [] d = refl
has-remove a b (x ∷ xs) d = ground (arith, has-remove a b xs, d.0)

pub Distinct-remove : (b : ℕ) (xs : List ℕ) → Distinct xs → Distinct (remove b xs)
unfolding has remove
Distinct-remove b [] d = tt
Distinct-remove b (x ∷ xs) d = elim (Bool-cases (b == x)) [
  | inl e ↦ rw e d.1
  | inr e ↦ rw e (ground (arith, d.0, has-remove x b xs d.1), Distinct-remove b xs d.1)
]

All-has : (n : ℕ) (xs : List ℕ) → ((a : ℕ) → has a xs ≡ true → a < n) → All (λ a. a < n) xs
unfolding has
All-has n [] h = tt
All-has n (x ∷ xs) h = (h x (ground arith), All-has n xs (λ a m. h a (ground arith)))

-- A list of numbers below `n`, none twice, has `n` at most, and if it has `n` then all.
length-le_of_Distinct : (n : ℕ) (xs : List ℕ) → Distinct xs → All (λ a. a < n) xs → length xs ≤ n
length-le_of_Distinct zero [] d h = omega arith
length-le_of_Distinct zero (x ∷ xs) d h = absurd (omega (arith, h.0))
length-le_of_Distinct (suc n) xs d h =
    let fewer = length-le_of_Distinct n (remove n xs) (Distinct-remove n xs d) (
      All-has n (remove n xs) (λ a m.
        let old = has-remove a n xs d in
        let small = All_lookup (λ b. b < suc n) a xs h (ground (arith, old, m)) in
        ground (arith, old, m, small))) in
    elim (Bool-cases (has n xs)) [
      | inl e ↦ omega (arith, length-remove n xs e, fewer)
      | inr e ↦ omega (arith, ap length (remove_of_not_has n xs e), fewer)
    ]

pub has_all_of_length :
    (n : ℕ) (xs : List ℕ)
    → Distinct xs
    → All (λ a. a < n) xs
    → length xs ≡ n
    → (i : ℕ) → i < n
    → has i xs ≡ true
has_all_of_length n xs d h e i lt = elim (Bool-cases (has i xs)) [
  | inl m ↦ m
  | inr m ↦ absurd (omega (arith, e, length-le_of_Distinct n (i ∷ xs) (m, d) (lt, h)))
]
