-- ===== src/Prelude/Lists.antt =====
-- Lists of native numbers as queues of page, thread or byte values: length, membership, removal.
use Prim.Native.Nat.{ℕ, suc, ◌+◌}
use mathlib.Core.Path.{◌≡◌, refl, subst, sym}
use native.Mathlib.Decide.{ℕ_discrete}
use mathlib.Core.Logic.{◌⊎◌, inl, inr}
use mathlib.Core.Bool.{Bool, true, false, ◌||◌}
use mathlib.Core.List.{List, [], ◌∷◌, ◌++◌}
use native.Mathlib.Omega.{arith}
use risc_v_workshop.Prelude.Tests.{◌==◌, if◌then◌else◌, Bool-cases}

module _ {ℓ} {A : Type ℓ} where
  abbrev pub length : List A → ℕ
  length [] = 0
  length (x ∷ xs) = suc (length xs)

  abbrev pub is_empty : List A → Bool
  is_empty [] = true
  is_empty (x ∷ xs) = false

  pub length-append : (xs ys : List A) → length (xs ++ ys) ≡ length xs + length ys
  length-append [] ys = omega arith
  length-append (x ∷ xs) ys = omega (arith, length-append xs ys)

-- A predicate on every element.
abbrev pub All {ℓ κ} : {A : Type ℓ} → (A → Type κ) → List A → Type κ
All P [] = Unit
All P (x ∷ xs) = P x × All P xs

pub All-append {ℓ κ} :
    {A : Type ℓ} (P : A → Type κ) (xs ys : List A) → All P xs → All P ys → All P (xs ++ ys)
All-append P [] ys hx hy = hy
All-append P (x ∷ xs) ys hx hy = (hx.0, All-append P xs ys hx.1 hy)

pub All-map {ℓ κ μ} :
    {A : Type ℓ} (P : A → Type κ) (Q : A → Type μ) (xs : List A)
    → ((x : A) → P x → Q x)
    → All P xs
    → All Q xs
All-map P Q [] f h = tt
All-map P Q (x ∷ xs) f h = (f x h.0, All-map P Q xs f h.1)

-- Membership and removal of the first occurrence, in a list of numbers.
unfoldable pub has : ℕ → List ℕ → Bool
has a [] = false
has a (x ∷ xs) = (a == x) || has a xs

unfoldable pub remove : ℕ → List ℕ → List ℕ
remove a [] = []
remove a (x ∷ xs) = if a == x then xs else x ∷ remove a xs

pub length-remove : (a : ℕ) (xs : List ℕ) → has a xs ≡ true → length (remove a xs) + 1 ≡ length xs
unfolding has remove
length-remove a [] h = cc
length-remove a (x ∷ xs) h = ground (arith, length-remove a xs)

pub remove_of_not_has : (a : ℕ) (xs : List ℕ) → has a xs ≡ false → remove a xs ≡ xs
unfolding has remove
remove_of_not_has a [] h = refl
remove_of_not_has a (x ∷ xs) h = ground (arith, remove_of_not_has a xs)

pub All-remove {κ} : (P : ℕ → Type κ) (a : ℕ) (xs : List ℕ) → All P xs → All P (remove a xs)
unfolding remove
All-remove P a [] h = tt
All-remove P a (x ∷ xs) h = elim (Bool-cases (a == x)) [
  | inl e ↦ rw e h.1
  | inr e ↦ rw e (h.0, All-remove P a xs h.1)
]

pub All-and {ℓ κ μ} :
    {A : Type ℓ} (P : A → Type κ) (Q : A → Type μ) (xs : List A)
    → All P xs
    → All Q xs
    → All (λ x. P x × Q x) xs
All-and P Q [] h g = tt
All-and P Q (x ∷ xs) h g = ((h.0, g.0), All-and P Q xs h.1 g.1)

pub List-cases {ℓ} :
    {A : Type ℓ} (xs : List A) → (xs ≡ []) ⊎ ((x : A) × (rest : List A) × (xs ≡ x ∷ rest))
List-cases [] = inl refl
List-cases (x ∷ xs) = inr (x, xs, refl)

pub All_lookup {κ} : (P : ℕ → Type κ) (a : ℕ) (xs : List ℕ) → All P xs → has a xs ≡ true → P a
unfolding has
All_lookup P a [] h m = absurd (cc)
All_lookup P a (x ∷ xs) h m = elim (ℕ_discrete a x) [
  | yes e ↦ subst P (sym e) h.0
  | no d ↦ All_lookup P a xs h.1 (ground arith)
]

pub has_append_ne :
    (a b : ℕ) (xs : List ℕ) → has a xs ≡ false → (a == b) ≡ false → has a (xs ++ b ∷ []) ≡ false
unfolding has
has_append_ne a b [] h d = ground arith
has_append_ne a b (x ∷ xs) h d = ground (arith, has_append_ne a b xs)

pub has_append_last : (b : ℕ) (xs : List ℕ) → has b (xs ++ b ∷ []) ≡ true
unfolding has
has_append_last b [] = ground arith
has_append_last b (x ∷ xs) = ground (arith, has_append_last b xs)
