-- ===== src/Klib/Ring/Chain.antt =====
-- Stretches of a ring: how linking a node in and taking one out change them.
use risc_v_workshop.Prelude.{ℕ, ◌≡◌, arith, true, List, [], ◌∷◌, ◌++◌, has}
use risc_v_workshop.Klib.Ring.{Links}

-- From `a` the pointers lead through `xs` to `b`, and back.
abbrev pub Chain : Links → ℕ → List ℕ → ℕ → Type 0
Chain s a [] b = (s.next a ≡ b) × (s.prev b ≡ a)
Chain s a (x ∷ xs) b = (s.next a ≡ x) × (s.prev x ≡ a) × Chain s x xs b

pub Chain-append :
    (s : Links) (a : ℕ) (l : List ℕ) (x : ℕ) (r : List ℕ) (b : ℕ)
    → Chain s a l x
    → Chain s x r b
    → Chain s a (l ++ x ∷ r) b
Chain-append s a [] x r b h k = (h.0, h.1, k)
Chain-append s a (y ∷ l) x r b h k = (h.0, h.1, Chain-append s y l x r b h.2 k)

pub Chain-split :
    (s : Links) (a : ℕ) (l : List ℕ) (x : ℕ) (r : List ℕ) (b : ℕ)
    → Chain s a (l ++ x ∷ r) b
    → Chain s a l x × Chain s x r b
Chain-split s a [] x r b h = ((h.0, h.1), h.2)
Chain-split s a (y ∷ l) x r b h = let k = Chain-split s y l x r b h.2 in ((h.0, h.1, k.0), k.1)

-- A chain depends on the pointers forward from its start and back from its end only.
pub Chain-frame :
    (s t : Links) (a : ℕ) (xs : List ℕ) (b : ℕ)
    → Chain s a xs b
    → ((p : ℕ) → has p (a ∷ xs) ≡ true → t.next p ≡ s.next p)
    → ((p : ℕ) → has p (xs ++ b ∷ []) ≡ true → t.prev p ≡ s.prev p)
    → Chain t a xs b
unfolding has
Chain-frame s t a [] b h n p = (ground (arith, n a), ground (arith, p b))
Chain-frame s t a (x ∷ xs) b h n p = (
  ground (arith, n a),
  ground (arith, p x),
  Chain-frame s t x xs b h.2 (λ q i. n q (ground arith)) (λ q i. p q (ground arith)),
)

-- the neighbours of the ends
pub prev_in :
    (s : Links) (a : ℕ) (xs : List ℕ) (b : ℕ) → Chain s a xs b → has (s.prev b) (a ∷ xs) ≡ true
unfolding has
prev_in s a [] b h = ground arith
prev_in s a (x ∷ xs) b h = ground (arith, prev_in s x xs b h.2)

pub next_in :
    (s : Links) (a : ℕ) (xs : List ℕ) (b : ℕ)
    → Chain s a xs b
    → has (s.next a) (xs ++ b ∷ []) ≡ true
unfolding has
next_in s a [] b h = ground arith
next_in s a (x ∷ xs) b h = ground arith
