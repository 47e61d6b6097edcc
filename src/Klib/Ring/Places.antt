-- ===== src/Klib/Ring/Places.antt =====
-- A queue as a ring of distinct nodes, and what one change at a known place does to it.
use native.Mathlib.Decide.{ℕ_discrete}
use mathlib.Core.List.{append_assoc}
use risc_v_workshop.Prelude.{
  ℕ, ◌≡◌, ◌≢◌, sym, subst, arith, true, List, [], ◌∷◌, ◌++◌, has, Outside, Distinct, has-append,
  ne_of_has, Distinct-middle, Distinct-insert, Distinct-snoc, Distinct-delete, Distinct-left,
  Distinct-apart,
}
use risc_v_workshop.Klib.Ring.{Links, list_del, queue_add_before, queue_add_after}
use risc_v_workshop.Klib.Ring.Chain.{
  Chain, Chain-append, Chain-split, Chain-frame, prev_in, next_in,
}
use risc_v_workshop.Klib.Ring.Link.{
  before_next, before_prev, after_next, after_prev, del_next, del_prev, add_before-Chain,
  add_after-Chain, del-Chain,
}

abbrev pub IsRing : Links → ℕ → List ℕ → Type 0
IsRing s head xs = Chain s head xs head × Distinct (head ∷ xs)

-- The pointers at every address that is not among `zs` are as before.
abbrev pub SameOutside : Links → Links → List ℕ → Type 0
SameOutside s t zs = (p : ℕ) → Outside p zs → (t.next p ≡ s.next p) × (t.prev p ≡ s.prev p)

-- What comes behind a node, up to the head, does not come before it.
beyond :
    (q head : ℕ) (l : List ℕ) (t : ℕ) (r : List ℕ)
    → Distinct (head ∷ l ++ t ∷ r)
    → has q (r ++ head ∷ []) ≡ true
    → Outside q (l ++ t ∷ [])
unfolding has
beyond q head l t r d i = elim (ℕ_discrete q head) [
  | yes e ↦ rw e (ground (arith, has-append head l (t ∷ []), has-append head l (t ∷ r), d.0))
  | no e ↦
      let later : has q r ≡ true = ground (arith, has-append q r (head ∷ [])) in
      let other = ne_of_has q t r later (Distinct-middle l t r d.1).1.0 in
      ground (arith, has-append q l (t ∷ []), other, Distinct-apart q l (t ∷ r) d.1)
]

-- The changes stay at the node and its neighbours.
module _ (s : Links) (zs : List ℕ) where
  before_outside :
      (t n : ℕ)
      → has t zs ≡ true
      → has (s.prev t) zs ≡ true
      → n ≢ t
      → s.prev t ≢ n
      → SameOutside s (queue_add_before t n s) (n ∷ zs)
  unfolding has
  before_outside t n i j d e p out =
      let a = ne_of_has t p zs i (ground arith) in
      let b = ne_of_has (s.prev t) p zs j (ground arith) in
      (ground (arith, before_next t n s d e p, b), ground (arith, before_prev t n s d p, a))

  after_outside :
      (t n : ℕ)
      → has t zs ≡ true
      → has (s.next t) zs ≡ true
      → n ≢ t
      → s.next t ≢ n
      → SameOutside s (queue_add_after t n s) (n ∷ zs)
  unfolding has
  after_outside t n i j d e p out =
      let a = ne_of_has t p zs i (ground arith) in
      let b = ne_of_has (s.next t) p zs j (ground arith) in
      (ground (arith, after_next t n s d p, a), ground (arith, after_prev t n s d e p, b))

  del_outside :
      (x : ℕ)
      → has x zs ≡ true
      → has (s.prev x) zs ≡ true
      → has (s.next x) zs ≡ true
      → s.prev x ≢ x
      → s.next x ≢ x
      → SameOutside s (list_del x s) zs
  del_outside x i j k d e p out =
      let a = ne_of_has x p zs i out in
      let b = ne_of_has (s.prev x) p zs j out in
      let c = ne_of_has (s.next x) p zs k out in
      (ground (arith, del_next x s d e p, a, b), ground (arith, del_prev x s d e p, a, c))

module _ (s : Links) (head n : ℕ) where
  pub IsRing-add :
      (xs : List ℕ)
      → IsRing s head xs
      → Outside n (head ∷ xs)
      → IsRing (queue_add_before head n s) head (xs ++ n ∷ [])
        × SameOutside s (queue_add_before head n s) (n ∷ head ∷ xs)
  unfolding has
  IsRing-add xs h o =
      let fresh : n ≢ head = ground arith in
      let last = prev_in s head xs head h.0 in
      let old = ne_of_has (s.prev head) n (head ∷ xs) last o in
      (
        (
          add_before-Chain s head n head xs h.0 h.1 h.1.0 fresh o,
          Distinct-snoc n (head ∷ xs) h.1 o,
        ),
        before_outside s (head ∷ xs) head n (ground arith) last fresh old,
      )

  pub IsRing-add_top :
      (xs : List ℕ)
      → IsRing s head xs
      → Outside n (head ∷ xs)
      → IsRing (queue_add_after head n s) head (n ∷ xs)
        × SameOutside s (queue_add_after head n s) (n ∷ head ∷ xs)
  unfolding has
  IsRing-add_top xs h o =
      let fresh : n ≢ head = ground arith in
      let first = next_in s head xs head h.0 in
      let old =
        ne_of_has (s.next head) n (xs ++ head ∷ []) first
          (ground (arith, has-append n xs (head ∷ []))) in
      (
        (
          add_after-Chain s head n xs head h.0 h.1 fresh
              (ground (arith, has-append n xs (head ∷ []))) h.1.0,
          Distinct-insert n (head ∷ []) xs h.1 o,
        ),
        after_outside s (head ∷ xs) head n (ground arith)
            (ground (arith, first, has-append (s.next head) xs (head ∷ []))) fresh old,
      )

  pub IsRing-add_before :
      (l : List ℕ) (t : ℕ) (r : List ℕ)
      → IsRing s head (l ++ t ∷ r)
      → Outside n (head ∷ l ++ t ∷ r)
      → IsRing (queue_add_before t n s) head (l ++ n ∷ t ∷ r)
        × SameOutside s (queue_add_before t n s) (n ∷ head ∷ l ++ t ∷ r)
  unfolding has
  IsRing-add_before l t r h o =
      let parts = Chain-split s head l t r head h.0 in
      let middle = Distinct-middle (head ∷ l) t r h.1 in
      let fresh : n ≢ t = ground (arith, has-append n l (t ∷ r)) in
      let outside : Outside n (head ∷ l) = ground (arith, has-append n l (t ∷ r)) in
      let last = prev_in s head l t parts.0 in
      let old = ne_of_has (s.prev t) n (head ∷ l) last outside in
      let right =
        Chain-frame s (queue_add_before t n s) t r head parts.1
          (λ p i.
            let a =
              ne_of_has (s.prev t) p (head ∷ l) last (Distinct-apart p (head ∷ l) (t ∷ r) h.1 i) in
            let b = ne_of_has p n (t ∷ r) i (ground (arith, has-append n l (t ∷ r))) in
            ground (arith, before_next t n s fresh old p, a, b))
          (λ p i.
            let a =
              ne_of_has p t (r ++ head ∷ []) i
                (ground (arith, has-append t r (head ∷ []), middle.0, middle.1.0)) in
            let b =
              ne_of_has p n (r ++ head ∷ []) i
                (ground (arith, has-append n r (head ∷ []), has-append n l (t ∷ r))) in
            ground (arith, before_prev t n s fresh p, a, b)) in
      (
        (
          subst (λ k. Chain (queue_add_before t n s) head k head) (append_assoc l (n ∷ []) (t ∷ r))
              (Chain-append _ head (l ++ n ∷ []) t r head
                (add_before-Chain s t n head l parts.0 (Distinct-left (head ∷ l) (t ∷ r) h.1)
                  (ground (arith, middle.0)) fresh outside)
                right),
          Distinct-insert n (head ∷ l) (t ∷ r) h.1 o,
        ),
        before_outside s (head ∷ l ++ t ∷ r) t n (ground (arith, has-append t l (t ∷ r)))
            (ground (arith, last, has-append (s.prev t) l (t ∷ r))) fresh old,
      )

  pub IsRing-add_after :
      (l : List ℕ) (t : ℕ) (r : List ℕ)
      → IsRing s head (l ++ t ∷ r)
      → Outside n (head ∷ l ++ t ∷ r)
      → IsRing (queue_add_after t n s) head (l ++ t ∷ n ∷ r)
        × SameOutside s (queue_add_after t n s) (n ∷ head ∷ l ++ t ∷ r)
  unfolding has
  IsRing-add_after l t r h o =
      let parts = Chain-split s head l t r head h.0 in
      let middle = Distinct-middle (head ∷ l) t r h.1 in
      let fresh : n ≢ t = ground (arith, has-append n l (t ∷ r)) in
      let outside : Outside n (r ++ head ∷ []) =
        ground (arith, has-append n r (head ∷ []), has-append n l (t ∷ r)) in
      let first = next_in s t r head parts.1 in
      let old = ne_of_has (s.next t) n (r ++ head ∷ []) first outside in
      let left =
        Chain-frame s (queue_add_after t n s) head l t parts.0
          (λ p i.
            let a = ne_of_has p t (head ∷ l) i middle.0 in
            let b = ne_of_has p n (head ∷ l) i (ground (arith, has-append n l (t ∷ r))) in
            ground (arith, after_next t n s fresh p, a, b))
          (λ p i.
            let a =
              ne_of_has p (s.next t) (l ++ t ∷ []) i (beyond (s.next t) head l t r h.1 first) in
            let b =
              ne_of_has p n (l ++ t ∷ []) i
                (ground (arith, has-append n l (t ∷ []), has-append n l (t ∷ r))) in
            ground (arith, after_prev t n s fresh old p, a, b)) in
      (
        (
          Chain-append _ head l t (n ∷ r) head left (
              add_after-Chain s t n r head parts.1 middle.1 fresh outside
                (ground (arith, h.1.0, has-append head l (t ∷ r)))),
          subst (λ k. Distinct (head ∷ k)) (append_assoc l (t ∷ []) (n ∷ r))
              (Distinct-insert n (head ∷ (l ++ t ∷ [])) r
                (subst (λ k. Distinct (head ∷ k)) (sym (append_assoc l (t ∷ []) r)) h.1)
                (subst (λ k. Outside n (head ∷ k)) (sym (append_assoc l (t ∷ []) r)) o)),
        ),
        after_outside s (head ∷ l ++ t ∷ r) t n (ground (arith, has-append t l (t ∷ r)))
            (ground
              (arith, first, has-append (s.next t) r (head ∷ []), has-append (s.next t) l (t ∷ r)))
            fresh old,
      )

  pub IsRing-del :
      (l : List ℕ) (r : List ℕ)
      → IsRing s head (l ++ n ∷ r)
      → IsRing (list_del n s) head (l ++ r) × SameOutside s (list_del n s) (head ∷ l ++ n ∷ r)
  unfolding has
  IsRing-del l r h =
      let parts = Chain-split s head l n r head h.0 in
      let middle = Distinct-middle (head ∷ l) n r h.1 in
      let apart : n ≢ head = ground (arith, middle.0) in
      let last = prev_in s head l n parts.0 in
      let first = next_in s n r head parts.1 in
      (
        (
          del-Chain s n head head l r parts.0 parts.1 apart apart h.1.1 h.1.0 h.1.0,
          Distinct-delete n (head ∷ l) r h.1,
        ),
        del_outside s (head ∷ l ++ n ∷ r) n (ground (arith, has-append n l (n ∷ r)))
            (ground (arith, last, has-append (s.prev n) l (n ∷ r)))
            (ground
              (arith, first, has-append (s.next n) r (head ∷ []), has-append (s.next n) l (n ∷ r)))
            (ne_of_has (s.prev n) n (head ∷ l) last middle.0)
            (ne_of_has (s.next n) n (r ++ head ∷ []) first
              (ground (arith, has-append n r (head ∷ []), middle.1.0))),
      )
