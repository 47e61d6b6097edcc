-- ===== src/Klib/Atomic.antt =====
-- Counters that several processors change: klib/atomic.c, klib/refcount.c. A counter is the word of 32
-- bits that stands for an int32_t, negative from 2 ^ 31 on. The `hal_atomic` operations are single steps
-- on it; an operation returns its result and the new word.
pub mod Unless
pub mod Count
mod Tests
use risc_v_workshop.Prelude.{
  ℕ, zero, suc, ◌+◌, ◌-◌, ◌%◌, ◌^◌, Bool, true, false, not, leb, ◌==◌, if◌then◌else◌, Option, none,
  some, List, [], ◌∷◌, ◌>>=◌,
}

abbrev pub add32 : ℕ → ℕ → ℕ
add32 a b = (a + b) % 2 ^ 32

abbrev pub sub32 : ℕ → ℕ → ℕ
sub32 a b = (a + 2 ^ 32 - b % 2 ^ 32) % 2 ^ 32

abbrev pub is_negative : ℕ → Bool
is_negative v = leb (2 ^ 31) v

unfoldable pub atomic_add_fetch : ℕ → ℕ → ℕ × ℕ
atomic_add_fetch val incr = (val, add32 val incr)

unfoldable pub atomic_sub_return : ℕ → ℕ → ℕ × ℕ
atomic_sub_return val decr = (sub32 val decr, sub32 val decr)

-- the old word, and the new one
unfoldable pub atomic_cmpxchg_fetch : ℕ → ℕ → ℕ → ℕ × ℕ
atomic_cmpxchg_fetch val old new = (val, if val == old then new else val)

-- success, `*oldp` afterwards, the new word
unfoldable pub atomic_try_cmpxchg_fetch : ℕ → ℕ → ℕ → Bool × ℕ × ℕ
unfolding atomic_cmpxchg_fetch
atomic_try_cmpxchg_fetch val old new =
    let r = atomic_cmpxchg_fetch val old new in (r.0 == old, if r.0 == old then old else r.0, r.1)

unfoldable pub atomic_sub_and_test : ℕ → ℕ → Option (Bool × ℕ)
unfolding atomic_sub_return
atomic_sub_and_test val decr =
    let new = (atomic_sub_return val decr).0 in
    if is_negative new then none else some (new == 0, new)

-- The loop of `atomic_add_fetch_unless` and `atomic_sub_fetch_unless`, where `change cur` is the value
-- that it tries to store. `seen` are the words that its attempts find, as the other processors leave
-- them. It returns `cur` and the word it stored, if it did; `none` if it has not ended by then.
unfoldable pub unless_loop : (ℕ → ℕ) → ℕ → ℕ → List ℕ → Option (ℕ × Option ℕ)
unfolding atomic_try_cmpxchg_fetch
unless_loop change unexpected cur [] = if cur == unexpected then some (cur, none) else none
unless_loop change unexpected cur (v ∷ seen) =
    let tried = atomic_try_cmpxchg_fetch v cur (change cur) in
    let again = unless_loop change unexpected tried.1 seen in
    if cur == unexpected
    then some (cur, none)
    else if tried.0
    then some (cur, some tried.2)
    else again

unfoldable pub atomic_add_fetch_unless : ℕ → ℕ → ℕ → List ℕ → Option (ℕ × Option ℕ)
atomic_add_fetch_unless first unexpected incr seen =
    unless_loop (λ cur. add32 cur incr) unexpected first seen

unfoldable pub atomic_sub_fetch_unless : ℕ → ℕ → ℕ → List ℕ → Option (ℕ × Option ℕ)
atomic_sub_fetch_unless first unexpected decr seen =
    unless_loop (λ cur. sub32 cur decr) unexpected first seen

unfoldable pub refcnt_add : ℕ → ℕ → ℕ × ℕ
unfolding atomic_add_fetch
refcnt_add counter v = atomic_add_fetch counter v

unfoldable pub refcnt_inc_if_valid : ℕ → List ℕ → Option (ℕ × Option ℕ)
unfolding atomic_add_fetch_unless
refcnt_inc_if_valid first seen = atomic_add_fetch_unless first 0 1 seen

-- sub_and_test_refcounter(counterp, v, NULL)
unfoldable pub refcnt_sub_and_test : ℕ → ℕ → Option (Bool × ℕ)
unfolding atomic_sub_and_test
refcnt_sub_and_test counter v = atomic_sub_and_test counter v

unfoldable pub refcnt_dec_and_test : ℕ → Option (Bool × ℕ)
unfolding refcnt_sub_and_test
refcnt_dec_and_test counter = refcnt_sub_and_test counter 1
