-- ===== src/Klib/Ring/Refine.antt =====
-- klib/queue.c behaves as lists, over any sequence of calls.
use mathlib.Core.Path.{ap₂}
use risc_v_workshop.Prelude.{
  ℕ, ◌≡◌, ◌≢◌, refl, sym, subst, ◌∙◌, arith, List, [], ◌∷◌, ◌++◌, has, remove, All, All-map,
  All-and, Outside, has-append,
}
use risc_v_workshop.Klib.Ring.{Links, queue_init}
use risc_v_workshop.Klib.Ring.Spec.{
  QueueOp, Reply, call, promised, IsAllowed, last_of, drop_last, insert_before, insert_after, add,
  add_top, add_before, add_after, del, get_top, get_last, rotate, reverse_rotate, test_empty,
}
use risc_v_workshop.Klib.Ring.Places.{IsRing}
use risc_v_workshop.Klib.Ring.Promise.{linked_in, drop_last_snoc}
use risc_v_workshop.Klib.Ring.Ops.{call-Refined}

unfoldable pub calls : ℕ → List QueueOp → Links → List Reply × Links
calls head [] s = ([], s)
calls head (op ∷ ops) s =
    let r = call head op s in let rest = calls head ops r.1 in (r.0 ∷ rest.0, rest.1)

unfoldable pub promises : ℕ → List QueueOp → List ℕ → List Reply × List ℕ
promises head [] xs = ([], xs)
promises head (op ∷ ops) xs =
    let r = promised head op xs in let rest = promises head ops r.1 in (r.0 ∷ rest.0, rest.1)

abbrev pub AreAllowed : List ℕ → ℕ → List QueueOp → List ℕ → Type 0
AreAllowed others head [] xs = Unit
AreAllowed others head (op ∷ ops) xs =
    IsAllowed others head op xs × AreAllowed others head ops (promised head op xs).1

abbrev pub SameAt : Links → Links → List ℕ → Type 0
SameAt s t ps = All (λ p. (t.next p ≡ s.next p) × (t.prev p ≡ s.prev p)) ps

pub record CallsRefined (head : ℕ) (others : List ℕ) (s : Links) (want : List Reply × List ℕ)
    (got : List Reply × Links) : Type 0 where
  pub replied : got.0 ≡ want.0
  pub ringed : IsRing got.1 head want.1
  pub elsewhere : SameAt s got.1 others

-- no address of `others` belongs to the queue
abbrev pub Apart : List ℕ → ℕ → List ℕ → Type 0
Apart others head xs = All (λ p. Outside p (head ∷ xs)) others

pub queue_init-IsRing : (head : ℕ) (s : Links) → IsRing (queue_init head s) head []
unfolding queue_init has
queue_init-IsRing head s = ((ground arith, ground arith), (refl, tt))

apart : (head : ℕ) (ps : List ℕ) → Outside head ps → Apart ps head []
unfolding has
apart head [] o = tt
apart head (p ∷ ps) o = (ground arith, apart head ps (ground arith))

All_ne : (n : ℕ) (ps : List ℕ) → Outside n ps → All (λ p. p ≢ n) ps
unfolding has
All_ne n [] o = tt
All_ne n (p ∷ ps) o = (ground arith, All_ne n ps (ground arith))

with_node :
    (head n : ℕ) (xs others : List ℕ)
    → Apart others head xs
    → Outside n others
    → All (λ p. Outside p (n ∷ head ∷ xs)) others
unfolding has
with_node head n xs others a o =
    All-map _ _ others (λ p h. ground (arith, h.0, h.1)) (All-and _ _ others (All_ne n others o) a)

-- nor does the queue with what a call links in
widened :
    (head : ℕ) (others : List ℕ) (op : QueueOp) (xs : List ℕ)
    → IsAllowed others head op xs
    → Apart others head xs
    → All (λ p. Outside p (linked_in op ++ head ∷ xs)) others
widened head others (add n) xs k a = with_node head n xs others a k.1
widened head others (add_top n) xs k a = with_node head n xs others a k.1
widened head others (add_before t n) xs k a = with_node head n xs others a k.1
widened head others (add_after t n) xs k a = with_node head n xs others a k.1
widened head others (del n) xs k a = a
widened head others get_top xs k a = a
widened head others get_last xs k a = a
widened head others rotate xs k a = a
widened head others reverse_rotate xs k a = a
widened head others test_empty xs k a = a

-- A call brings in no address but the node that it links in.
module _ (p : ℕ) where
  remove-Outside : (n : ℕ) (xs : List ℕ) → Outside p xs → Outside p (remove n xs)
  unfolding has remove
  remove-Outside n [] o = refl
  remove-Outside n (x ∷ xs) o = ground (arith, remove-Outside n xs)

  insert_before-Outside :
      (t n : ℕ) (xs : List ℕ) → Outside p (n ∷ xs) → Outside p (insert_before t n xs)
  unfolding has insert_before
  insert_before-Outside t n [] o = refl
  insert_before-Outside t n (x ∷ xs) o = ground (arith, insert_before-Outside t n xs)

  insert_after-Outside :
      (t n : ℕ) (xs : List ℕ) → Outside p (n ∷ xs) → Outside p (insert_after t n xs)
  unfolding has insert_after
  insert_after-Outside t n [] o = refl
  insert_after-Outside t n (x ∷ xs) o = ground (arith, insert_after-Outside t n xs)

  last-Outside :
      (d x : ℕ) (r : List ℕ) → Outside p (x ∷ r) → Outside p (last_of d (x ∷ r) ∷ drop_last (x ∷ r))
  unfolding has
  last-Outside d x r o =
      let split = subst (Outside p) (sym (drop_last_snoc d x r)) o in
      ground (arith, split, has-append p (drop_last (x ∷ r)) (last_of d (x ∷ r) ∷ []))

  promised-Outside :
      (head : ℕ) (others : List ℕ) (op : QueueOp) (xs : List ℕ)
      → IsAllowed others head op xs
      → Outside p (linked_in op ++ head ∷ xs)
      → Outside p (head ∷ (promised head op xs).1)
  unfolding promised has
  promised-Outside head others (add n) xs k o = ground (arith, has-append p xs (n ∷ []))
  promised-Outside head others (add_top n) xs k o = ground arith
  promised-Outside head others (add_before t n) xs k o =
      ground (arith, insert_before-Outside t n xs)
  promised-Outside head others (add_after t n) xs k o = ground (arith, insert_after-Outside t n xs)
  promised-Outside head others (del n) xs k o = ground (arith, remove-Outside n xs)
  promised-Outside head others get_top [] k o = o
  promised-Outside head others get_top (x ∷ r) k o = ground arith
  promised-Outside head others get_last [] k o = absurd (cc)
  promised-Outside head others get_last (x ∷ r) k o = ground (arith, last-Outside head x r)
  promised-Outside head others rotate [] k o = o
  promised-Outside head others rotate (x ∷ r) k o = ground (arith, has-append p r (x ∷ []))
  promised-Outside head others reverse_rotate [] k o = absurd (cc)
  promised-Outside head others reverse_rotate (x ∷ r) k o = ground (arith, last-Outside head x r)
  promised-Outside head others test_empty xs k o = o

calls-Refined :
    (head : ℕ) (others : List ℕ) (ops : List QueueOp) (s : Links) (xs : List ℕ)
    → IsRing s head xs
    → Apart others head xs
    → AreAllowed others head ops xs
    → CallsRefined head others s (promises head ops xs) (calls head ops s)
unfolding calls promises
calls-Refined head others [] s xs h a k = record {
  replied = refl;
  ringed = h;
  elsewhere = All-map _ _ others (λ p o. (refl, refl)) a;
}
calls-Refined head others (op ∷ ops) s xs h a k =
    let apart = widened head others op xs k.0 a in
    let first = call-Refined s head op others xs h k.0 in
    let next_apart = All-map _ _ others (λ p o. promised-Outside p head others op xs k.0 o) apart in
    let rest =
      calls-Refined head others ops (call head op s).1 (promised head op xs).1 first.ringed
        next_apart k.1 in
    record {
      replied = ap₂ ◌∷◌ first.replied rest.replied;
      ringed = rest.ringed;
      elsewhere =
          All-map _ _ others (λ p b. (b.0.0 ∙ b.1.0, b.0.1 ∙ b.1.1))
            (All-and _ _ others rest.elsewhere
              (All-map _ _ others (λ p o. first.elsewhere p o) apart));
    }

-- Any sequence of calls on a freshly initialised queue, where a node that is linked in is in no queue
-- and a node that is named or taken out is in this one, gives the replies that a list gives; the nodes
-- then stand in the ring forwards and backwards as in the list, none twice. The pointers at the
-- addresses `others`, which the calls never link in, such as those of other queues, are as before.
pub queue_calls-CallsRefined :
    (head : ℕ) (others : List ℕ) (ops : List QueueOp) (s : Links)
    → Outside head others
    → AreAllowed others head ops []
    → CallsRefined head others
        (queue_init head s)
        (promises head ops [])
        (calls head ops (queue_init head s))
queue_calls-CallsRefined head others ops s o k =
    calls-Refined head others ops (queue_init head s) [] (queue_init-IsRing head s)
      (apart head others o) k
