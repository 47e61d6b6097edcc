-- ===== src/Klib/Ring/Link.antt =====
-- Linking a node into a chain and taking one out: queue_add_before, queue_add_after, list_del.
use risc_v_workshop.Prelude.{
  ℕ, ◌≡◌, ◌≢◌, arith, ◌==◌, if◌then◌else◌, List, [], ◌∷◌, ◌++◌, has, Outside, Distinct, has-append,
  ne_of_has, Distinct-middle,
}
use risc_v_workshop.Klib.Ring.{Links, list_init, list_del, queue_add_before, queue_add_after}
use risc_v_workshop.Klib.Ring.Chain.{Chain, Chain-frame, prev_in, next_in}

-- what the pointers are afterwards
module _ (t n : ℕ) (s : Links) (d : n ≢ t) where
  pub before_next :
      (e : s.prev t ≢ n) (p : ℕ)
      → (queue_add_before t n s).next p
        ≡ (if s.prev t == p then n else if n == p then t else s.next p)
  unfolding queue_add_before
  before_next e p = ground arith

  pub before_prev :
      (p : ℕ)
      → (queue_add_before t n s).prev p
        ≡ (if t == p then n else if n == p then s.prev t else s.prev p)
  unfolding queue_add_before
  before_prev p = ground arith

  pub after_next :
      (p : ℕ)
      → (queue_add_after t n s).next p
        ≡ (if t == p then n else if n == p then s.next t else s.next p)
  unfolding queue_add_after
  after_next p = ground arith

  pub after_prev :
      (e : s.next t ≢ n) (p : ℕ)
      → (queue_add_after t n s).prev p
        ≡ (if s.next t == p then n else if n == p then t else s.prev p)
  unfolding queue_add_after
  after_prev e p = ground arith

module _ (x : ℕ) (s : Links) (d : s.prev x ≢ x) (e : s.next x ≢ x) where
  pub del_next :
      (p : ℕ)
      → (list_del x s).next p ≡ (if x == p then x else if s.prev x == p then s.next x else s.next p)
  unfolding list_del list_init
  del_next p = ground arith

  pub del_prev :
      (p : ℕ)
      → (list_del x s).prev p ≡ (if x == p then x else if s.next x == p then s.prev x else s.prev p)
  unfolding list_del list_init
  del_prev p = ground arith

-- Before `t`, the end of a chain.
module _ (s : Links) (t n : ℕ) where
  pub add_before-Chain :
      (a : ℕ) (l : List ℕ)
      → Chain s a l t
      → Distinct (a ∷ l)
      → Outside t l
      → n ≢ t
      → Outside n (a ∷ l)
      → Chain (queue_add_before t n s) a (l ++ n ∷ []) t
  unfolding has
  add_before-Chain a [] h d o e f = (
    ground (arith, before_next t n s e (ground arith) a, h.0, h.1),
    ground (arith, before_prev t n s e n, h.1),
    (
      ground (arith, before_next t n s e (ground arith) n, h.1),
      ground (arith, before_prev t n s e t),
    ),
  )
  add_before-Chain a (x ∷ l) h d o e f =
      let last = prev_in s x l t h.2 in
      let prev_ne = ne_of_has (s.prev t) n (x ∷ l) last (ground arith) in
      let apart = ne_of_has (s.prev t) a (x ∷ l) last d.0 in
      (
        ground (arith, before_next t n s e prev_ne a, apart, h.0),
        ground (arith, before_prev t n s e x, h.1),
        add_before-Chain x l h.2 d.1 (ground arith) e (ground arith),
      )

  -- Behind `t`, the start of a chain.
  pub add_after-Chain :
      (r : List ℕ) (b : ℕ)
      → Chain s t r b
      → Distinct (t ∷ r)
      → n ≢ t
      → Outside n (r ++ b ∷ [])
      → Outside b r
      → Chain (queue_add_after t n s) t (n ∷ r) b
  unfolding has
  add_after-Chain [] b h d e f g = (
    ground (arith, after_next t n s e t),
    ground (arith, after_prev t n s e (ground arith) n),
    (
      ground (arith, after_next t n s e n, h.0),
      ground (arith, after_prev t n s e (ground arith) b, h.0),
    ),
  )
  add_after-Chain (y ∷ r) b h d e f g = (
    ground (arith, after_next t n s e t),
    ground (arith, after_prev t n s e (ground arith) n, h.0),
    (
      ground (arith, after_next t n s e n, h.0),
      ground (arith, after_prev t n s e (ground arith) y, h.0),
      Chain-frame s (queue_add_after t n s) y r b h.2
          (λ p i.
            let fresh = ne_of_has p n (y ∷ r) i (ground (arith, has-append n (y ∷ r) (b ∷ []))) in
            let other = ne_of_has p t (y ∷ r) i d.0 in
            ground (arith, after_next t n s e p, fresh, other))
          (λ p i.
            let fresh = ne_of_has p n (r ++ b ∷ []) i (ground arith) in
            let other =
              ne_of_has p y (r ++ b ∷ []) i (ground (arith, has-append y r (b ∷ []), d.1.0)) in
            ground (arith, after_prev t n s e (ground arith) p, fresh, other, h.0)),
    ),
  )

-- A node between two chains leaves them joined.
module _ (s : Links) (x : ℕ) (b : ℕ) where
  del_right :
      (a : ℕ) (r : List ℕ)
      → Chain s a [] x
      → Chain s x r b
      → x ≢ a
      → x ≢ b
      → Distinct (x ∷ r)
      → Outside a r
      → Outside b r
      → Chain (list_del x s) a r b
  unfolding has
  del_right a [] h k xa xb d oa ob =
      let p = del_next x s (ground arith) (ground arith) a in
      let q = del_prev x s (ground arith) (ground arith) b in
      (ground (arith, p, h.0, h.1, k.0), ground (arith, q, h.1, k.0))
  del_right a (y ∷ r) h k xa xb d oa ob =
      let apart : x ≢ y = ground (arith, d.0) in
      let next_lem = del_next x s (ground arith) (ground arith) in
      let prev_lem = del_prev x s (ground arith) (ground arith) in
      (
        ground (arith, next_lem a, h.1, k.0),
        ground (arith, prev_lem y, h.1, k.0),
        Chain-frame s (list_del x s) y r b k.2
            (λ p i.
              let here = ne_of_has p x (y ∷ r) i d.0 in
              let before = ne_of_has p a (y ∷ r) i oa in
              ground (arith, next_lem p, here, before, h.1))
            (λ p i.
              let here =
                ne_of_has p x (r ++ b ∷ []) i (ground (arith, has-append x r (b ∷ []), d.0)) in
              let behind =
                ne_of_has p y (r ++ b ∷ []) i (ground (arith, has-append y r (b ∷ []), d.1.0)) in
              ground (arith, prev_lem p, here, behind, k.0)),
      )

  pub del-Chain :
      (a : ℕ) (l r : List ℕ)
      → Chain s a l x
      → Chain s x r b
      → x ≢ a
      → x ≢ b
      → Distinct (l ++ x ∷ r)
      → Outside a (l ++ x ∷ r)
      → Outside b (l ++ x ∷ r)
      → Chain (list_del x s) a (l ++ r) b
  unfolding has
  del-Chain a [] r h k xa xb d oa ob = del_right a r h k xa xb d (ground arith) (ground arith)
  del-Chain a (z ∷ l) r h k xa xb d oa ob =
      let middle = Distinct-middle (z ∷ l) x r d in
      let first : x ≢ z = ground (arith, middle.0) in
      let before = prev_in s z l x h.2 in
      let behind = next_in s x r b k in
      let prev_ne = ne_of_has (s.prev x) x (z ∷ l) before middle.0 in
      let next_ne =
        ne_of_has (s.next x) x (r ++ b ∷ []) behind
          (ground (arith, has-append x r (b ∷ []), middle.1.0)) in
      let start_ne =
        ne_of_has (s.prev x) a (z ∷ l) before (ground (arith, oa, has-append a l (x ∷ r))) in
      let first_ne =
        ne_of_has (s.next x) z (r ++ b ∷ []) behind
          (ground (arith, has-append z r (b ∷ []), has-append z l (x ∷ r), d.0, ob)) in
      (
        ground (arith, del_next x s prev_ne next_ne a, h.0, start_ne, xa),
        ground (arith, del_prev x s prev_ne next_ne z, h.1, first_ne, first),
        del-Chain z l r h.2 k first xb d.1 d.0 (ground arith),
      )
