-- ===== src/Klib/Ring.antt =====
-- Doubly linked rings: klib/list.c and klib/queue.c. A node and the head of a queue are addresses, and
-- the store holds the two pointers at each. Every function is the sequence of its assignments.
pub mod Chain
pub mod Link
pub mod Spec
pub mod Places
pub mod Promise
pub mod Ops
pub mod Refine
mod Tests
use risc_v_workshop.Prelude.{ℕ, Bool, ◌&&◌, ◌==◌, if◌then◌else◌, update}

pub record Links : Type 0 where
  pub prev : ℕ → ℕ
  pub next : ℕ → ℕ

-- p->next = q, p->prev = q
abbrev pub set_next : ℕ → ℕ → Links → Links
set_next p q s = record s { next = update s.next p q }

abbrev pub set_prev : ℕ → ℕ → Links → Links
set_prev p q s = record s { prev = update s.prev p q }

unfoldable pub list_init : ℕ → Links → Links
list_init node s = set_prev node node (set_next node node s)

unfoldable pub list_del : ℕ → Links → Links
unfolding list_init
list_del node s =
    let s = set_prev (s.next node) (s.prev node) s in
    let s = set_next (s.prev node) (s.next node) s in list_init node s

unfoldable pub list_not_linked : ℕ → Links → Bool
list_not_linked node s = (s.prev node == node) && (s.next node == node)

unfoldable pub queue_init : ℕ → Links → Links
queue_init head s = set_prev head head (set_next head head s)

unfoldable pub queue_is_empty : ℕ → Links → Bool
queue_is_empty head s = (s.prev head == head) && (s.next head == head)

unfoldable pub queue_add : ℕ → ℕ → Links → Links
queue_add head node s =
    let s = set_next node head s in
    let s = set_prev node (s.prev head) s in
    let s = set_next (s.prev head) node s in set_prev head node s

unfoldable pub queue_add_top : ℕ → ℕ → Links → Links
queue_add_top head node s =
    let s = set_next node (s.next head) s in
    let s = set_prev node head s in let s = set_prev (s.next head) node s in set_next head node s

unfoldable pub queue_add_before : ℕ → ℕ → Links → Links
queue_add_before target node s =
    let s = set_prev node (s.prev target) s in
    let s = set_next node target s in
    let s = set_next (s.prev target) node s in set_prev target node s

unfoldable pub queue_add_after : ℕ → ℕ → Links → Links
queue_add_after target node s =
    let s = set_next node (s.next target) s in
    let s = set_prev node target s in
    let s = set_prev (s.next target) node s in set_next target node s

unfoldable pub queue_del : ℕ → ℕ → Links → Bool × Links
unfolding list_del queue_is_empty
queue_del head node s = let s = list_del node s in (queue_is_empty head s, s)

unfoldable pub queue_ref_top : ℕ → Links → ℕ
queue_ref_top head s = s.next head

unfoldable pub queue_get_top : ℕ → Links → ℕ × Links
unfolding list_del queue_ref_top
queue_get_top head s = let top = queue_ref_top head s in (top, list_del top s)

unfoldable pub queue_ref_last : ℕ → Links → ℕ
queue_ref_last head s = s.prev head

unfoldable pub queue_get_last : ℕ → Links → ℕ × Links
unfolding list_del queue_ref_last
queue_get_last head s = let last = queue_ref_last head s in (last, list_del last s)

unfoldable pub queue_rotate : ℕ → Links → Links
queue_rotate head s = let (top, s) = queue_get_top head s in queue_add head top s

unfoldable pub queue_reverse_rotate : ℕ → Links → Links
queue_reverse_rotate head s = let (last, s) = queue_get_last head s in queue_add_top head last s
