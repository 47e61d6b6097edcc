-- ===== src/Klib/Ring/Tests.antt =====
-- A queue at address 1, beside one at address 2.
use risc_v_workshop.Prelude.{◌≡◌, refl, false, List, [], ◌∷◌, has, remove}
use risc_v_workshop.Klib.Ring.{
  Links, queue_init, queue_add, queue_add_top, queue_add_before, queue_add_after, queue_del,
  queue_get_top, queue_get_last, queue_rotate, queue_reverse_rotate, queue_is_empty,
}
use risc_v_workshop.Klib.Ring.Spec.{
  QueueOp, add, add_top, add_before, add_after, del, get_top, get_last, rotate, reverse_rotate,
  test_empty, nothing, node, empty, call, promised, insert_before, insert_after, last_of, drop_last,
}
use risc_v_workshop.Klib.Ring.Refine.{calls, promises, CallsRefined, queue_calls-CallsRefined}

abbrev fresh_links : Links
fresh_links = record { prev = λ p. p; next = λ p. p }

abbrev some_calls : List QueueOp
some_calls =
    add 10
    ∷ add 20
    ∷ add_top 5
    ∷ add_before 20 15
    ∷ add_after 20 25
    ∷ rotate
    ∷ reverse_rotate
    ∷ del 15
    ∷ get_last
    ∷ get_top
    ∷ test_empty
    ∷ []

some_calls_replies :
    (calls 1 some_calls (queue_init 1 fresh_links)).0
    ≡ nothing
      ∷ nothing
      ∷ nothing
      ∷ nothing
      ∷ nothing
      ∷ nothing
      ∷ nothing
      ∷ empty false
      ∷ node 25
      ∷ node 5
      ∷ empty false
      ∷ []
unfolding calls call queue_init queue_add queue_add_top queue_add_before queue_add_after queue_del
    queue_get_top queue_get_last queue_rotate queue_reverse_rotate queue_is_empty
some_calls_replies = refl

queue_calls-CallsRefined_example :
    CallsRefined 1
      (2 ∷ [])
      (queue_init 1 fresh_links)
      (promises 1 some_calls [])
      (calls 1 some_calls (queue_init 1 fresh_links))
unfolding promises promised has insert_before insert_after remove last_of drop_last
queue_calls-CallsRefined_example = queue_calls-CallsRefined 1 (2 ∷ []) some_calls fresh_links refl (
  (refl, refl),
  (
    (refl, refl),
    (
      (refl, refl),
      ((refl, refl, refl), ((refl, refl, refl), (refl, (refl, (refl, (refl, (refl, (tt, tt)))))))),
    ),
  ),
)
