-- ===== src/Prelude/Words.antt =====
-- Machine words: unsigned 64-bit arithmetic with its wrap-around written out.
use Prim.Native.Nat.{ℕ, ◌+◌, ◌-◌, ◌%◌, ◌^◌, ◌≤◌, ◌<◌}
use mathlib.Core.Path.{◌≡◌}
use native.Mathlib.Omega.{arith}
use risc_v_workshop.Prelude.Tests.{ltb, if◌then◌else◌}

-- uint64_t a + b
abbrev pub add64 : ℕ → ℕ → ℕ
add64 a b = (a + b) % 2 ^ 64

-- uint64_t a - b; `b` may be any number
abbrev pub sub64 : ℕ → ℕ → ℕ
sub64 a b = (a + 2 ^ 64 - b % 2 ^ 64) % 2 ^ 64

-- A word of 64 bits that went through an `int`: the low 32 bits with the sign extended.
abbrev pub int_index : ℕ → ℕ
int_index x = let low = x % 2 ^ 32 in if ltb low (2 ^ 31) then low else low + 2 ^ 64 - 2 ^ 32

pub sub64-of-le : (a b : ℕ) → a < 2 ^ 64 → b ≤ a → sub64 a b ≡ a - b
sub64-of-le a b h k = omega arith
