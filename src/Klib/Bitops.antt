-- ===== src/Klib/Bitops.antt =====
-- Bit searches: klib/bitops.c and the macros of include/klib/bitops.h. A word is the number that it
-- stands for: `n & BITOPS_LOWER_MASK(b)` is `n % 2 ^ b`, the upper mask of a word of `w` bits keeps
-- `n / 2 ^ (w - b)`, and `~n` is `2 ^ w - 1 - n`. An array of words is a function of the index.
pub mod Words
pub mod Maps
pub mod Bit
mod Tests
use risc_v_workshop.Prelude.{
  ℕ, zero, suc, ◌+◌, ◌-◌, ◌*◌, ◌/◌, ◌%◌, ◌^◌, Bool, true, false, ◌==◌, ltb, int_index,
  if◌then◌else◌, Option, none, some, ◌>>=◌, update,
}

-- The loop of `bitops_ffs16`, `bitops_ffs32` and `bitops_ffs64`, where `b` is 2 ^ (rounds - 1).
unfoldable pub ffs_loop : ℕ → ℕ → ℕ → ℕ
ffs_loop zero n v = v
ffs_loop (suc e) n v =
    let clear = n % 2 ^ (2 ^ e) == 0 in
    ffs_loop e (if clear then n / 2 ^ (2 ^ e) else n) (if clear then v + 2 ^ e else v)

unfoldable pub bitops_ffs16 : ℕ → ℕ
bitops_ffs16 n = if n == 0 then 0 else ffs_loop 4 n 1

unfoldable pub bitops_ffs32 : ℕ → ℕ
bitops_ffs32 n = if n == 0 then 0 else ffs_loop 5 n 1

unfoldable pub bitops_ffs64 : ℕ → ℕ
bitops_ffs64 n = if n == 0 then 0 else ffs_loop 6 n 1

-- The loop of `bitops_fls16`, `bitops_fls32` and `bitops_fls64`, in words of `w` bits.
unfoldable pub fls_loop : ℕ → ℕ → ℕ → ℕ → ℕ
fls_loop w zero n v = v
fls_loop w (suc e) n v =
    let clear = n / 2 ^ (w - 2 ^ e) == 0 in
    fls_loop w e (if clear then n * 2 ^ (2 ^ e) % 2 ^ w else n) (if clear then v - 2 ^ e else v)

unfoldable pub bitops_fls16 : ℕ → ℕ
bitops_fls16 n = if n == 0 then 0 else fls_loop 16 4 n 16

unfoldable pub bitops_fls32 : ℕ → ℕ
bitops_fls32 n = if n == 0 then 0 else fls_loop 32 5 n 32

unfoldable pub bitops_fls64 : ℕ → ℕ
bitops_fls64 n = if n == 0 then 0 else fls_loop 64 6 n 64

-- The choice by `elm_size`, the bytes of an element. Any other size fails an assertion.
unfoldable pub element_ffs : ℕ → ℕ → Option ℕ
element_ffs elm_size n =
    if elm_size == 8
    then some (bitops_ffs64 n)
    else if elm_size == 4
    then some (bitops_ffs32 n)
    else if elm_size == 2
    then some (bitops_ffs16 n)
    else none

unfoldable pub element_fls : ℕ → ℕ → Option ℕ
element_fls elm_size n =
    if elm_size == 8
    then some (bitops_fls64 n)
    else if elm_size == 4
    then some (bitops_fls32 n)
    else if elm_size == 2
    then some (bitops_fls16 n)
    else none

-- The loop of `__bitops_ffs` over `n` elements, where `i` is an unsigned int. With `n` as fuel it is
-- left before the fuel is, unless `i` has wrapped: then it never ends, which is `none`, as is an
-- assertion that fails. The position is below 2 ^ 39 for the sizes of an element that the code knows.
unfoldable pub scan_up : ℕ → (ℕ → ℕ) → ℕ → ℕ → ℕ → Option ℕ
scan_up elm_size v n i zero = if ltb i n then none else some 0
scan_up elm_size v n i (suc fuel) =
    let rest = scan_up elm_size v n ((i + 1) % 2 ^ 32) fuel in
    if ltb i n
    then element_ffs elm_size (v i)
      >>= (λ off. if off == 0 then rest else some (8 * elm_size * i + off))
    else some 0

unfoldable pub bitops_ffs : (ℕ → ℕ) → ℕ → ℕ → Option ℕ
bitops_ffs v v_size elm_size = scan_up elm_size v (v_size / elm_size) 0 (v_size / elm_size)

-- The loop of `__bitops_fls`, in the same way. `idx` is an int, which the address and the position take
-- as a word of 64 bits.
unfoldable pub scan_down : ℕ → (ℕ → ℕ) → ℕ → ℕ → ℕ → Option ℕ
scan_down elm_size v n i zero = if ltb i n then none else some 0
scan_down elm_size v n i (suc fuel) =
    let rest = scan_down elm_size v n ((i + 1) % 2 ^ 32) fuel in
    let idx = int_index (n - i - 1) in
    if ltb i n
    then element_fls elm_size (v idx)
      >>= (λ off. if off == 0 then rest else some ((8 * elm_size * idx + off) % 2 ^ 64))
    else some 0

unfoldable pub bitops_fls : (ℕ → ℕ) → ℕ → ℕ → Option ℕ
bitops_fls v v_size elm_size = scan_down elm_size v (v_size / elm_size) 0 (v_size / elm_size)

-- ~v[i] in an array of elements of `elm_size` bytes
abbrev pub inverted : ℕ → (ℕ → ℕ) → ℕ → ℕ
inverted elm_size v i = 2 ^ (8 * elm_size) - 1 - v i

-- `__bitops_ffc` and `__bitops_flc` are the same loops over the inverted elements.
unfoldable pub bitops_ffc : (ℕ → ℕ) → ℕ → ℕ → Option ℕ
bitops_ffc v v_size elm_size =
    scan_up elm_size (inverted elm_size v) (v_size / elm_size) 0 (v_size / elm_size)

unfoldable pub bitops_flc : (ℕ → ℕ) → ℕ → ℕ → Option ℕ
bitops_flc v v_size elm_size =
    scan_down elm_size (inverted elm_size v) (v_size / elm_size) 0 (v_size / elm_size)

-- bitops_isset, over elements of 64 bits
abbrev pub bitops_isset : ℕ → (ℕ → ℕ) → Bool
bitops_isset n v = v (n / 64) / 2 ^ (n % 64) % 2 == 1

-- `_b[n >> 6] |= 1 << (n & 63)`, which adds the bit where it is clear
abbrev pub bitops_set : ℕ → (ℕ → ℕ) → ℕ → ℕ
bitops_set n v =
    update v (n / 64) (if bitops_isset n v then v (n / 64) else v (n / 64) + 2 ^ (n % 64))

-- `_b[n >> 6] &= ~(1 << (n & 63))`, which takes the bit away where it is set
abbrev pub bitops_clr : ℕ → (ℕ → ℕ) → ℕ → ℕ
bitops_clr n v =
    update v (n / 64) (if bitops_isset n v then v (n / 64) - 2 ^ (n % 64) else v (n / 64))
