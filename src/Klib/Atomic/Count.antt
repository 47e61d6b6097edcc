-- ===== src/Klib/Atomic/Count.antt =====
-- What klib/refcount.c does when references are dropped.
use risc_v_workshop.Prelude.{
  ℕ, ◌+◌, ◌-◌, ◌^◌, ◌<◌, ◌≤◌, ◌≡◌, ap, ◌∙◌, refl, arith, Bool, Bool-cases, inl, inr, leb, ◌==◌,
  if◌then◌else◌, Option, none, some,
}
use risc_v_workshop.Klib.Atomic.{
  refcnt_sub_and_test, atomic_sub_and_test, atomic_sub_return, refcnt_add, atomic_add_fetch, sub32,
  add32,
}

-- the test on the word that the subtraction leaves
and_test : ℕ → Option (Bool × ℕ)
and_test new = if leb (2 ^ 31) new then none else some (new == 0, new)

sub_and_test_word : (n v : ℕ) → refcnt_sub_and_test n v ≡ and_test (sub32 n v)
unfolding refcnt_sub_and_test atomic_sub_and_test atomic_sub_return and_test
sub_and_test_word n v = refl

sub32_enough : (n v : ℕ) → v ≤ n → n < 2147483648 → sub32 n v ≡ n - v
sub32_enough n v h k = omega arith

sub32_short : (n v : ℕ) → n < v → v < 2147483648 → sub32 n v ≡ n + 4294967296 - v
sub32_short n v h k = omega arith

and_test_count : (w : ℕ) → w < 2147483648 → and_test w ≡ some (w == 0, w)
unfolding and_test
and_test_count w h = ground arith

and_test_negative : (w : ℕ) → 2147483648 ≤ w → and_test w ≡ none
unfolding and_test
and_test_negative w h = ground arith

dropped : (n v : ℕ) → v ≤ n → n < 2147483648 → refcnt_sub_and_test n v ≡ some (n - v == 0, n - v)
dropped n v h k =
    sub_and_test_word n v
    ∙ ap and_test (sub32_enough n v h k)
    ∙ and_test_count (n - v) (omega arith)

refused : (n v : ℕ) → n < v → v < 2147483648 → refcnt_sub_and_test n v ≡ none
refused n v h k =
    sub_and_test_word n v ∙ ap and_test (sub32_short n v h k) ∙ and_test_negative _ (omega arith)

last_one : (n v : ℕ) → v ≤ n → (n - v == 0) ≡ (n == v)
last_one n v h = ground arith

-- adding and dropping again
add32_fits : (n v : ℕ) → n + v < 2147483648 → add32 n v ≡ n + v
add32_fits n v h = omega arith

taken_back : (n v : ℕ) → n + v - v ≡ n
taken_back n v = omega arith

added : (n v : ℕ) → n + v < 2147483648 → refcnt_sub_and_test (add32 n v) v ≡ some (n == 0, n)
added n v s =
    ap (λ w. refcnt_sub_and_test w v) (add32_fits n v s)
    ∙ dropped (n + v) v (omega arith) s
    ∙ ap (λ w. some (w == 0, w)) (taken_back n v)

-- Dropping `v` of `n` references, both below 2 ^ 31, is refused where there are fewer than `v`.
-- Otherwise it leaves `n - v` and reports whether these were the last ones. And references that were
-- added, where the sum fits an int32_t, are taken back exactly: the count is `n` again, and they were
-- the last ones if `n` is 0.
pub refcnt_sub_and_test_lem :
    (n v : ℕ)
    → n < 2147483648
    → v < 2147483648
    → (refcnt_sub_and_test n v ≡ (if leb v n then some (n == v, n - v) else none))
      × (n + v < 2147483648 → refcnt_sub_and_test (refcnt_add n v).1 v ≡ some (n == 0, n))
unfolding refcnt_add atomic_add_fetch
refcnt_sub_and_test_lem n v h k = (
  elim (Bool-cases (leb v n)) [
    | inl e ↦
        rw (e)
          (dropped n v (ground arith) h ∙ ap (λ b. some (b, n - v)) (last_one n v (ground arith)))
    | inr e ↦ rw (e) (refused n v (ground arith) k)
  ],
  λ s. added n v s,
)
