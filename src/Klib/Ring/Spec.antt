-- ===== src/Klib/Ring/Spec.antt =====
-- What a queue promises: klib/queue.c seen as a list of nodes, first to last.
use risc_v_workshop.Prelude.{
  ℕ, ◌≡◌, Bool, true, false, ◌==◌, if◌then◌else◌, List, [], ◌∷◌, ◌++◌, has, remove, is_empty,
  Outside,
}
use risc_v_workshop.Klib.Ring.{
  Links, queue_add, queue_add_top, queue_add_before, queue_add_after, queue_del, queue_get_top,
  queue_get_last, queue_rotate, queue_reverse_rotate, queue_is_empty,
}

pub data QueueOp : Type 0 where
  add add_top del : ℕ → QueueOp
  add_before add_after : ℕ → ℕ → QueueOp
  get_top get_last rotate reverse_rotate test_empty : QueueOp

pub data Reply : Type 0 where
  nothing : Reply
  node : ℕ → Reply
  empty : Bool → Reply

abbrev pub void : Links → Reply × Links
void s = (nothing, s)

-- a call on the queue at `head`
unfoldable pub call : ℕ → QueueOp → Links → Reply × Links
call head (add n) s = void (queue_add head n s)
call head (add_top n) s = void (queue_add_top head n s)
call head (add_before t n) s = void (queue_add_before t n s)
call head (add_after t n) s = void (queue_add_after t n s)
call head (del n) s = let r = queue_del head n s in (empty r.0, r.1)
call head get_top s = let r = queue_get_top head s in (node r.0, r.1)
call head get_last s = let r = queue_get_last head s in (node r.0, r.1)
call head rotate s = void (queue_rotate head s)
call head reverse_rotate s = void (queue_reverse_rotate head s)
call head test_empty s = (empty (queue_is_empty head s), s)

-- The last of `d ∷ xs`, and `xs` without its last.
unfoldable pub last_of : ℕ → List ℕ → ℕ
last_of d [] = d
last_of d (x ∷ xs) = last_of x xs

unfoldable pub drop_last : List ℕ → List ℕ
drop_last [] = []
drop_last (x ∷ []) = []
drop_last (x ∷ y ∷ r) = x ∷ drop_last (y ∷ r)

unfoldable pub insert_before : ℕ → ℕ → List ℕ → List ℕ
insert_before t n [] = []
insert_before t n (x ∷ xs) = if t == x then n ∷ x ∷ xs else x ∷ insert_before t n xs

unfoldable pub insert_after : ℕ → ℕ → List ℕ → List ℕ
insert_after t n [] = []
insert_after t n (x ∷ xs) = if t == x then x ∷ n ∷ xs else x ∷ insert_after t n xs

-- the first node goes behind the others
abbrev pub turned : List ℕ → List ℕ
turned [] = []
turned (x ∷ xs) = xs ++ x ∷ []

abbrev pub first_of : ℕ → List ℕ → ℕ
first_of d [] = d
first_of d (x ∷ xs) = x

abbrev pub rest_of : List ℕ → List ℕ
rest_of [] = []
rest_of (x ∷ xs) = xs

-- the same call on the list
unfoldable pub promised : ℕ → QueueOp → List ℕ → Reply × List ℕ
promised head (add n) xs = (nothing, xs ++ n ∷ [])
promised head (add_top n) xs = (nothing, n ∷ xs)
promised head (add_before t n) xs = (nothing, insert_before t n xs)
promised head (add_after t n) xs = (nothing, insert_after t n xs)
promised head (del n) xs = (empty (is_empty (remove n xs)), remove n xs)
promised head get_top xs = (node (first_of head xs), rest_of xs)
promised head get_last xs = (node (last_of head xs), drop_last xs)
promised head rotate xs = (nothing, turned xs)
promised head reverse_rotate xs = (nothing, last_of head xs ∷ drop_last xs)
promised head test_empty xs = (empty (is_empty xs), xs)

-- What a caller has to see to: a node that is linked in is in no queue, neither this one nor at one of
-- the addresses `others`; one that is named or taken out is there.
abbrev pub IsAllowed : List ℕ → ℕ → QueueOp → List ℕ → Type 0
IsAllowed others head (add n) xs = Outside n (head ∷ xs) × Outside n others
IsAllowed others head (add_top n) xs = Outside n (head ∷ xs) × Outside n others
IsAllowed others head (add_before t n) xs =
    Outside n (head ∷ xs) × Outside n others × (has t xs ≡ true)
IsAllowed others head (add_after t n) xs =
    Outside n (head ∷ xs) × Outside n others × (has t xs ≡ true)
IsAllowed others head (del n) xs = has n xs ≡ true
IsAllowed others head get_top xs = is_empty xs ≡ false
IsAllowed others head get_last xs = is_empty xs ≡ false
IsAllowed others head rotate xs = is_empty xs ≡ false
IsAllowed others head reverse_rotate xs = is_empty xs ≡ false
IsAllowed others head test_empty xs = Unit {0}
