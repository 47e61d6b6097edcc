-- ===== src/Klib/Ring/Ops.antt =====
-- Every call on a queue does to the ring what Spec says.
use mathlib.Core.List.{append-nil}
use risc_v_workshop.Prelude.{
  ℕ, ◌≡◌, refl, sym, ap, subst, ◌∙◌, arith, true, List, [], ◌∷◌, ◌++◌, has, remove, Outside,
  Distinct, Distinct-middle,
}
use risc_v_workshop.Klib.Ring.{
  Links, list_del, queue_add, queue_add_top, queue_add_before, queue_add_after, queue_del,
  queue_get_top, queue_ref_top, queue_get_last, queue_ref_last, queue_rotate, queue_reverse_rotate,
}
use risc_v_workshop.Klib.Ring.Spec.{
  QueueOp, add, add_top, del, add_before, add_after, get_top, get_last, rotate, reverse_rotate,
  test_empty, node, empty, call, promised, IsAllowed, last_of, drop_last, insert_before,
  insert_after,
}
use risc_v_workshop.Klib.Ring.Places.{
  IsRing, SameOutside, IsRing-add, IsRing-add_top, IsRing-add_before, IsRing-add_after, IsRing-del,
}
use risc_v_workshop.Klib.Ring.Promise.{
  place_of, remove_at, insert_before_at, insert_after_at, drop_last_snoc, prev-eq-last_of,
  queue_is_empty_lem, Refined, linked_in, Outside-snoc,
}

-- `queue_add` and `queue_add_top` link before and behind the head
module _ (s : Links) (head n : ℕ) (xs : List ℕ) (h : IsRing s head xs)
    (o : Outside n (head ∷ xs)) where
  add-IsRing :
      IsRing (queue_add head n s) head (xs ++ n ∷ [])
      × SameOutside s (queue_add head n s) (n ∷ head ∷ xs)
  unfolding queue_add queue_add_before
  add-IsRing = IsRing-add s head n xs h o

  add_top-IsRing :
      IsRing (queue_add_top head n s) head (n ∷ xs)
      × SameOutside s (queue_add_top head n s) (n ∷ head ∷ xs)
  unfolding queue_add_top queue_add_after
  add_top-IsRing = IsRing-add_top s head n xs h o

same_then :
    (s t u : Links) (zs : List ℕ) → SameOutside s t zs → SameOutside t u zs → SameOutside s u zs
same_then s t u zs h k p o = ((k p o).0 ∙ (h p o).0, (k p o).1 ∙ (h p o).1)

module _ (s : Links) (head : ℕ) where
  top_at :
      (x : ℕ) (r : List ℕ)
      → IsRing s head (x ∷ r)
      → (queue_get_top head s).0 ≡ x
        × IsRing (queue_get_top head s).1 head r
        × SameOutside s (queue_get_top head s).1 (head ∷ x ∷ r)
  unfolding queue_get_top queue_ref_top
  top_at x r h = rw h.0.0 (let (ring, same) = IsRing-del s head x [] r h in (refl, ring, same))

  last_at :
      (x : ℕ) (r : List ℕ)
      → IsRing s head (x ∷ r)
      → (queue_get_last head s).0 ≡ last_of head (x ∷ r)
        × IsRing (queue_get_last head s).1 head (drop_last (x ∷ r))
        × SameOutside s (queue_get_last head s).1 (head ∷ x ∷ r)
  unfolding queue_get_last queue_ref_last
  last_at x r h =
      let e = drop_last_snoc head x r in
      let ring = subst (IsRing s head) (sym e) h in
      let (after, same) = IsRing-del s head (last_of head (x ∷ r)) (drop_last (x ∷ r)) [] ring in
      rw (prev-eq-last_of s head (x ∷ r) head h.0) (
        refl,
        subst (IsRing (list_del (last_of head (x ∷ r)) s) head) (append-nil (drop_last (x ∷ r)))
            after,
        subst (λ ys. SameOutside s (list_del (last_of head (x ∷ r)) s) (head ∷ ys)) e same,
      )

  del_at :
      (n : ℕ) (xs : List ℕ)
      → IsRing s head xs
      → has n xs ≡ true
      → IsRing (list_del n s) head (remove n xs) × SameOutside s (list_del n s) (head ∷ xs)
  del_at n xs h i =
      let (l, r, e, o) = place_of n xs i in
      let ring = subst (IsRing s head) e h in
      let (after, same) = IsRing-del s head n l r ring in
      (
        subst (λ ys. IsRing (list_del n s) head (remove n ys)) (sym e)
            (subst (IsRing (list_del n s) head) (sym (remove_at n l r o)) after),
        subst (λ ys. SameOutside s (list_del n s) (head ∷ ys)) (sym e) same,
      )

  rotate_at :
      (x : ℕ) (r : List ℕ)
      → IsRing s head (x ∷ r)
      → IsRing (queue_rotate head s) head (r ++ x ∷ [])
        × SameOutside s (queue_rotate head s) (head ∷ x ∷ r)
  unfolding queue_rotate has
  rotate_at x r h =
      let (e, ring, same) = top_at x r h in
      let (after, same_after) = add-IsRing (queue_get_top head s).1 head x r ring (ground arith) in
      rw e (
        after,
        same_then s (queue_get_top head s).1 _ (head ∷ x ∷ r) same
            (λ p o. same_after p (ground arith)),
      )

  reverse_rotate_step :
      (z : ℕ)
      → (queue_get_last head s).0 ≡ z
      → queue_reverse_rotate head s ≡ queue_add_top head z (queue_get_last head s).1
  unfolding queue_reverse_rotate
  reverse_rotate_step z e = ap (λ n. queue_add_top head n (queue_get_last head s).1) e

  reverse_rotate_at :
      (x : ℕ) (r : List ℕ)
      → IsRing s head (x ∷ r)
      → IsRing (queue_reverse_rotate head s) head (last_of head (x ∷ r) ∷ drop_last (x ∷ r))
        × SameOutside s (queue_reverse_rotate head s) (head ∷ x ∷ r)
  reverse_rotate_at x r h =
      let (e, ring, same) = last_at x r h in
      let split = drop_last_snoc head x r in
      let fresh : Outside (last_of head (x ∷ r)) (head ∷ drop_last (x ∷ r)) =
        (Distinct-middle (head ∷ drop_last (x ∷ r)) (last_of head (x ∷ r)) []
          (subst (λ ys. Distinct (head ∷ ys)) (sym split) h.1)).0 in
      let (after, same_after) =
        add_top-IsRing (queue_get_last head s).1 head (last_of head (x ∷ r)) (drop_last (x ∷ r))
          ring fresh in
      subst
        (λ u.
          IsRing u head (last_of head (x ∷ r) ∷ drop_last (x ∷ r)) × SameOutside s u (head ∷ x ∷ r))
        (sym (reverse_rotate_step (last_of head (x ∷ r)) e))
        (
          after,
          same_then s (queue_get_last head s).1 _ (head ∷ x ∷ r) same (λ p o. same_after p (
              Outside-snoc p head (drop_last (x ∷ r)) (last_of head (x ∷ r))
                (subst (λ ys. Outside p (head ∷ ys)) (sym split) o))),
        )

  pub call-Refined :
      (op : QueueOp) (others xs : List ℕ)
      → IsRing s head xs
      → IsAllowed others head op xs
      → Refined head (linked_in op ++ head ∷ xs) s (promised head op xs) (call head op s)
  unfolding call promised queue_del
  call-Refined (add n) others xs h k =
      let (ring, same) = add-IsRing s head n xs h k.0 in
      record { replied = refl; ringed = ring; elsewhere = same }
  call-Refined (add_top n) others xs h k =
      let (ring, same) = add_top-IsRing s head n xs h k.0 in
      record { replied = refl; ringed = ring; elsewhere = same }
  call-Refined (add_before t n) others xs h k =
      let (l, r, e, o) = place_of t xs k.2 in
      let (ring, same) =
        IsRing-add_before s head n l t r (subst (IsRing s head) e h)
          (subst (λ ys. Outside n (head ∷ ys)) e k.0) in
      record {
        replied = refl;
        ringed =
            subst (λ ys. IsRing (queue_add_before t n s) head (insert_before t n ys)) (sym e)
              (subst (IsRing (queue_add_before t n s) head) (sym (insert_before_at t n l r o))
                ring);
        elsewhere =
            subst (λ ys. SameOutside s (queue_add_before t n s) (n ∷ head ∷ ys)) (sym e) same;
      }
  call-Refined (add_after t n) others xs h k =
      let (l, r, e, o) = place_of t xs k.2 in
      let (ring, same) =
        IsRing-add_after s head n l t r (subst (IsRing s head) e h)
          (subst (λ ys. Outside n (head ∷ ys)) e k.0) in
      record {
        replied = refl;
        ringed =
            subst (λ ys. IsRing (queue_add_after t n s) head (insert_after t n ys)) (sym e)
              (subst (IsRing (queue_add_after t n s) head) (sym (insert_after_at t n l r o)) ring);
        elsewhere =
            subst (λ ys. SameOutside s (queue_add_after t n s) (n ∷ head ∷ ys)) (sym e) same;
      }
  call-Refined (del n) others xs h k =
      let (ring, same) = del_at n xs h k in
      record {
        replied = ap empty (queue_is_empty_lem (list_del n s) head (remove n xs) ring);
        ringed = ring;
        elsewhere = same;
      }
  call-Refined get_top others [] h k = absurd (cc)
  call-Refined get_top others (x ∷ r) h k =
      let (e, ring, same) = top_at x r h in
      record { replied = ap node e; ringed = ring; elsewhere = same }
  call-Refined get_last others [] h k = absurd (cc)
  call-Refined get_last others (x ∷ r) h k =
      let (e, ring, same) = last_at x r h in
      record { replied = ap node e; ringed = ring; elsewhere = same }
  call-Refined rotate others [] h k = absurd (cc)
  call-Refined rotate others (x ∷ r) h k =
      let (ring, same) = rotate_at x r h in
      record { replied = refl; ringed = ring; elsewhere = same }
  call-Refined reverse_rotate others [] h k = absurd (cc)
  call-Refined reverse_rotate others (x ∷ r) h k =
      let (ring, same) = reverse_rotate_at x r h in
      record { replied = refl; ringed = ring; elsewhere = same }
  call-Refined test_empty others xs h k = record {
    replied = ap empty (queue_is_empty_lem s head xs h);
    ringed = h;
    elsewhere = λ p o. (refl, refl);
  }
