-- ===== src/Klib/Queue.antt =====
-- The sorting and searching macros of include/klib/queue.h, over the nodes of a queue from its
-- first to its last. The sentinel is not in the list.
use risc_v_workshop.Prelude.{
  ◌≡◌, ◌↔◌, Bool, true, false, List, [], ◌∷◌, ◌++◌, refl, ap, if◌then◌else◌, Bool-cases, inl, inr,
}
use mathlib.Core.List.{Perm}
use mathlib.Core.List.Perm

-- `before node elem` is the test `_cmp((_node_ref), (_elem_ref)) < 0` of the ascending order.
module _ {ℓ} {A : Type ℓ} (before : A → A → Bool) where
  -- queue_add_sort(..., QUEUE_ADD_ASCENDING): at the last element the node is linked before it
  -- without a comparison, and in an empty queue it is linked before the sentinel.
  unfoldable pub queue_add_sort : A → List A → List A
  queue_add_sort node [] = node ∷ []
  queue_add_sort node (x ∷ []) = node ∷ x ∷ []
  queue_add_sort node (x ∷ y ∷ rest) =
      if before node x then node ∷ x ∷ y ∷ rest else x ∷ queue_add_sort node (y ∷ rest)

  -- no element comes before the one in front of it
  abbrev pub Ascending : List A → Type 0
  Ascending [] = Unit
  Ascending (x ∷ []) = Unit
  Ascending (x ∷ y ∷ rest) = (before y x ≡ false) × Ascending (y ∷ rest)

  -- the last element of `x ∷ rest`
  abbrev pub last_of : A → List A → A
  last_of x [] = x
  last_of x (y ∷ rest) = last_of y rest

  -- It only adds the node.
  pub add_sort-perm : (node : A) (xs : List A) → Perm (queue_add_sort node xs) (node ∷ xs)
  unfolding queue_add_sort
  add_sort-perm node [] = Perm.refl _
  add_sort-perm node (x ∷ []) = Perm.refl _
  add_sort-perm node (x ∷ y ∷ rest) = elim (Bool-cases (before node x)) [
    | inl e ↦ rw e (Perm.refl _)
    | inr e ↦
        rw e
          (Perm.trans (Perm.cons x (add_sort-perm node (y ∷ rest))) (Perm.swap node x (y ∷ rest)))
  ]

  module _ (asym : (a b : A) → before a b ≡ true → before b a ≡ false) where
    -- inserting behind `x` keeps `x` in front
    ahead :
        (x node y : A) (rest : List A)
        → before node x ≡ false
        → before y x ≡ false
        → Ascending (queue_add_sort node (y ∷ rest))
        → Ascending (x ∷ queue_add_sort node (y ∷ rest))
    unfolding queue_add_sort
    ahead x node y [] h g s = (h, s)
    ahead x node y (z ∷ rest) h g s = elim (Bool-cases (before node y)) [
      | inl e ↦ rw e (h, rw e at s)
      | inr e ↦ rw e (g, rw e at s)
    ]

    -- A node that does not come behind the last element is put in its place.
    pub add_sort-Ascending :
        (node x : A) (rest : List A)
        → Ascending (x ∷ rest)
        → before (last_of x rest) node ≡ false
        → Ascending (queue_add_sort node (x ∷ rest))
    unfolding queue_add_sort
    add_sort-Ascending node x [] s h = (h, tt)
    add_sort-Ascending node x (y ∷ rest) s h = elim (Bool-cases (before node x)) [
      | inl e ↦ rw e (asym node x e, s)
      | inr e ↦ rw e (ahead x node y rest e s.0 (add_sort-Ascending node y rest s.1 h))
    ]

    module _
        (trans : (a b c : A) → before b a ≡ false → before c b ≡ false → before c a ≡ false) where
      Ascending-tail : (x : A) (xs : List A) → Ascending (x ∷ xs) → Ascending xs
      Ascending-tail x [] s = tt
      Ascending-tail x (y ∷ xs) s = s.1

      first_last :
          (a x : A) (rest : List A)
          → before x a ≡ false
          → Ascending (x ∷ rest)
          → before (last_of x rest) a ≡ false
      first_last a x [] h s = h
      first_last a x (y ∷ rest) h s = first_last a y rest (trans a x y h s.0) s.1

      add_sort_behind :
          (node x : A) (rest : List A)
          → Ascending (x ∷ rest)
          → Ascending (queue_add_sort node (x ∷ rest))
          → before (last_of x rest) node ≡ false
      unfolding queue_add_sort
      add_sort_behind node x [] a s = s.0
      add_sort_behind node x (y ∷ rest) a s = elim (Bool-cases (before node x)) [
        | inl e ↦ first_last node x (y ∷ rest) (asym node x e) a
        | inr e ↦
            add_sort_behind node y rest a.1
              (Ascending-tail x (queue_add_sort node (y ∷ rest)) (rw e at s))
      ]

      -- Linking a node into a queue that is not empty and in ascending order leaves the queue in
      -- ascending order exactly if the node does not come behind the last element.
      pub add_sort_iff :
          (node x : A) (rest : List A)
          → Ascending (x ∷ rest)
          → Ascending (queue_add_sort node (x ∷ rest)) ↔ (before (last_of x rest) node ≡ false)
      add_sort_iff node x rest a = (add_sort_behind node x rest a, add_sort-Ascending node x rest a)

      -- A node that comes behind the last element is put before it.
      pub add_sort_last :
          (node x : A) (rest : List A)
          → Ascending (x ∷ rest)
          → before (last_of x rest) node ≡ true
          → (front : List A) × (x ∷ rest ≡ front ++ last_of x rest ∷ [])
            × (queue_add_sort node (x ∷ rest) ≡ front ++ node ∷ last_of x rest ∷ [])
      unfolding queue_add_sort
      add_sort_last node x [] a h = ([], refl, refl)
      add_sort_last node x (y ∷ rest) a h =
          let goes_on : before node x ≡ false =
            trans x (last_of y rest) node (first_last x y rest a.0 a.1)
              (asym (last_of y rest) node h) in
          let t = add_sort_last node y rest a.1 h in
          rw goes_on (x ∷ t.0, ap (λ l. x ∷ l) t.1, ap (λ l. x ∷ l) t.2)
