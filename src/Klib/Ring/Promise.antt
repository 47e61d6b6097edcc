-- ===== src/Klib/Ring/Promise.antt =====
-- The functions on lists of Spec at a place in a list, and what a call on a queue is to leave.
use native.Mathlib.Decide.{ℕ_discrete}
use risc_v_workshop.Prelude.{
  ℕ, ◌≡◌, refl, sym, ap, arith, true, List, [], ◌∷◌, ◌++◌, has, remove, is_empty, Outside,
  has-append,
}
use risc_v_workshop.Klib.Ring.{Links, queue_is_empty}
use risc_v_workshop.Klib.Ring.Chain.{Chain}
use risc_v_workshop.Klib.Ring.Spec.{
  QueueOp, add, add_top, add_before, add_after, Reply, last_of, drop_last, insert_before,
  insert_after,
}
use risc_v_workshop.Klib.Ring.Places.{IsRing, SameOutside}

-- where a node stands in a list, and what the functions on lists do there
pub place_of :
    (t : ℕ) (xs : List ℕ)
    → has t xs ≡ true
    → (l : List ℕ) × (r : List ℕ) × (xs ≡ l ++ t ∷ r) × Outside t l
unfolding has
place_of t [] h = absurd (cc)
place_of t (x ∷ xs) h = elim (ℕ_discrete t x) [
  | yes e ↦ ([], xs, ap (λ y. y ∷ xs) (sym e), refl)
  | no d ↦
      let (l, r, e, o) = place_of t xs (ground arith) in
      (x ∷ l, r, ap (λ ys. x ∷ ys) e, ground arith)
]

pub remove_at : (t : ℕ) (l r : List ℕ) → Outside t l → remove t (l ++ t ∷ r) ≡ l ++ r
unfolding has remove
remove_at t [] r o = ground arith
remove_at t (x ∷ l) r o = ground (arith, remove_at t l r)

pub insert_before_at :
    (t n : ℕ) (l r : List ℕ) → Outside t l → insert_before t n (l ++ t ∷ r) ≡ l ++ n ∷ t ∷ r
unfolding has insert_before
insert_before_at t n [] r o = ground arith
insert_before_at t n (x ∷ l) r o = ground (arith, insert_before_at t n l r)

pub insert_after_at :
    (t n : ℕ) (l r : List ℕ) → Outside t l → insert_after t n (l ++ t ∷ r) ≡ l ++ t ∷ n ∷ r
unfolding has insert_after
insert_after_at t n [] r o = ground arith
insert_after_at t n (x ∷ l) r o = ground (arith, insert_after_at t n l r)

pub drop_last_snoc :
    (d x : ℕ) (xs : List ℕ) → drop_last (x ∷ xs) ++ last_of d (x ∷ xs) ∷ [] ≡ x ∷ xs
unfolding drop_last last_of
drop_last_snoc d x [] = refl
drop_last_snoc d x (y ∷ r) = ap (λ l. x ∷ l) (drop_last_snoc x y r)

pub prev-eq-last_of :
    (s : Links) (a : ℕ) (xs : List ℕ) (b : ℕ) → Chain s a xs b → s.prev b ≡ last_of a xs
unfolding last_of
prev-eq-last_of s a [] b h = h.1
prev-eq-last_of s a (x ∷ xs) b h = prev-eq-last_of s x xs b h.2

pub queue_is_empty_lem :
    (s : Links) (head : ℕ) (xs : List ℕ) → IsRing s head xs → queue_is_empty head s ≡ is_empty xs
unfolding queue_is_empty has
queue_is_empty_lem s head [] h = ground arith
queue_is_empty_lem s head (x ∷ xs) h = ground (arith, h.0.0, h.1.0)

-- What a call leaves: the promised reply, a ring of the promised nodes, and all pointers elsewhere.
pub record Refined (head : ℕ) (zs : List ℕ) (s : Links) (want : Reply × List ℕ)
    (got : Reply × Links) : Type 0 where
  pub replied : got.0 ≡ want.0
  pub ringed : IsRing got.1 head want.1
  pub elsewhere : SameOutside s got.1 zs

-- the node that a call links in
abbrev pub linked_in : QueueOp → List ℕ
linked_in (add n) = n ∷ []
linked_in (add_top n) = n ∷ []
linked_in (add_before t n) = n ∷ []
linked_in (add_after t n) = n ∷ []
linked_in _ = []

pub Outside-snoc :
    (p head : ℕ) (ys : List ℕ) (z : ℕ) → Outside p (head ∷ ys ++ z ∷ []) → Outside p (z ∷ head ∷ ys)
unfolding has
Outside-snoc p head ys z o = ground (arith, has-append p ys (z ∷ []))
