-- ===== src/Klib/Memory.antt =====
-- Routines on bytes: klib/memmove.c, klib/memcmp.c, klib/memchr.c. Memory is a function from addresses
-- to bytes, and no region passes the end of the address space.
pub mod Move
pub mod Compare
mod Tests
use risc_v_workshop.Prelude.{
  ℕ, zero, suc, ◌+◌, ◌-◌, ◌%◌, Bool, ◌&&◌, ltb, ◌==◌, if◌then◌else◌, update, Option, none, some,
}

-- while( len-- > 0 ) *--d = *--s;
unfoldable pub copy_down : ℕ → ℕ → ℕ → (ℕ → ℕ) → ℕ → ℕ
copy_down zero d s mem = mem
copy_down (suc len) d s mem = copy_down len (d - 1) (s - 1) (update mem (d - 1) (mem (s - 1)))

-- while( len-- > 0 ) *d++ = *s++;
unfoldable pub copy_up : ℕ → ℕ → ℕ → (ℕ → ℕ) → ℕ → ℕ
copy_up zero d s mem = mem
copy_up (suc len) d s mem = copy_up len (d + 1) (s + 1) (update mem d (mem s))

unfoldable pub memmove : ℕ → ℕ → ℕ → (ℕ → ℕ) → ℕ → ℕ
memmove dest src count mem =
    if dest == src
    then mem
    else if ltb src dest && ltb dest (src + count)
    then copy_down count (dest + count) (src + count) mem
    else copy_up count dest src mem

-- The difference of two bytes in a `signed char`, as the byte that stands for it: 0 to 127 for itself,
-- and from 128 on for a negative number.
abbrev pub signed_char_difference : ℕ → ℕ → ℕ
signed_char_difference a b = (a + 256 - b) % 256

unfoldable pub memcmp : ℕ → ℕ → ℕ → (ℕ → ℕ) → ℕ
memcmp m1 m2 zero mem = 0
memcmp m1 m2 (suc count) mem =
    let rest = memcmp (m1 + 1) (m2 + 1) count mem in
    let rc = signed_char_difference (mem m1) (mem m2) in if rc == 0 then rest else rc

-- `c` is the byte that the argument is cut to
unfoldable pub memchr : ℕ → ℕ → ℕ → (ℕ → ℕ) → Option ℕ
memchr s c zero mem = none
memchr s c (suc count) mem =
    let rest = memchr (s + 1) c count mem in if mem s == c then some s else rest
