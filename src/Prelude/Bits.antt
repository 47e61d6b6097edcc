-- ===== src/Prelude/Bits.antt =====
-- `bit_xor` with a power of two, at a multiple of it: the buddy of an aligned block.
use Prim.Native.Nat.{bit_xor, digits, bit_xor-bitwise, differ}
use native.Mathlib.Nat.{pow-suc, mul-add-div_right, div-eq_of_lt}
use native.Mathlib.Decide.{dec_lt}
use risc_v_workshop.Prelude.{
  ap, ◌∙◌, ℕ, zero, suc, ◌+◌, ◌-◌, ◌*◌, ◌/◌, ◌%◌, ◌^◌, ◌≤◌, ◌<◌, ◌≡◌, refl, arith,
}

pub pow2-suc : (k : ℕ) → 2 ^ suc k ≡ 2 * 2 ^ k
pow2-suc k = omega (arith, pow-suc 2 k)

pub pow2_pos : (k : ℕ) → 0 < 2 ^ k
pow2_pos zero = omega arith
pow2_pos (suc k) = omega (arith, pow2-suc k, pow2_pos k)

-- The digit recursion that `bit_xor` stands for, with enough fuel.
abbrev xor_digits : ℕ → ℕ → ℕ → ℕ
xor_digits n a b = digits (λ b. b) differ n a b

xor_digits_fuel : (n m a b : ℕ) → a ≤ n → a ≤ m → xor_digits n a b ≡ xor_digits m a b
xor_digits_fuel zero zero a b p q = refl
xor_digits_fuel zero (suc m) zero b p q = refl
xor_digits_fuel zero (suc m) (suc a) b p q = absurd (omega arith)
xor_digits_fuel (suc n) zero zero b p q = refl
xor_digits_fuel (suc n) zero (suc a) b p q = absurd (omega arith)
xor_digits_fuel (suc n) (suc m) zero b p q = refl
xor_digits_fuel (suc n) (suc m) (suc a) b p q =
    omega (arith, xor_digits_fuel n m (suc a / 2) (b / 2) (omega arith) (omega arith))

zero-bit_xor : (b : ℕ) → bit_xor 0 b ≡ b
zero-bit_xor b = bit_xor-bitwise 0 b

-- One digit at a time.
bit_xor_step : (a b : ℕ) → bit_xor a b ≡ bit_xor (a / 2) (b / 2) * 2 + differ (a % 2) (b % 2)
bit_xor_step zero b = omega (arith, zero-bit_xor b, zero-bit_xor (b / 2))
bit_xor_step (suc a) b = omega (
  arith,
  bit_xor-bitwise (suc a) b,
  bit_xor-bitwise (suc a / 2) (b / 2),
  xor_digits_fuel a (suc a / 2) (suc a / 2) (b / 2) (omega arith) (omega arith),
)

differ-zero : (n : ℕ) → differ n 0 ≡ n
differ-zero zero = refl
differ-zero (suc n) = refl

bit_xor-zero_fuel : (n a : ℕ) → a ≤ n → bit_xor a 0 ≡ a
bit_xor-zero_fuel n zero h = zero-bit_xor 0
bit_xor-zero_fuel zero (suc a) h = absurd (omega arith)
bit_xor-zero_fuel (suc n) (suc a) h = omega (
  arith,
  bit_xor_step (suc a) 0,
  bit_xor-zero_fuel n (suc a / 2) (omega arith),
  differ-zero (suc a % 2),
)

pub bit_xor-zero : (a : ℕ) → bit_xor a 0 ≡ a
bit_xor-zero a = bit_xor-zero_fuel a a (omega arith)

-- With the halves of all three known, one more digit.
xor_double :
    (a b c a' b' c' : ℕ)
    → a' ≡ a * 2
    → b' ≡ b * 2
    → c' ≡ c * 2
    → bit_xor a b ≡ c
    → bit_xor a' b' ≡ c'
xor_double a b c a' b' c' ea eb ec h =
    rw (ea, eb, ec, bit_xor_step, half a, half b, even a, even b, h) (omega arith)
  where
    half : (n : ℕ) → n * 2 / 2 ≡ n
    half n = omega arith

    even : (n : ℕ) → n * 2 % 2 ≡ 0
    even n = omega arith

xor_one : (a r s : ℕ) → a % 2 ≡ r → differ r 1 ≡ s → bit_xor a 1 ≡ a / 2 * 2 + s
xor_one a r s e d = omega (arith, bit_xor_step a 1, bit_xor-zero (a / 2), ap (λ t. differ t 1) e, d)

-- An even multiple of 2 ^ k: the bit is set.
pub bit_xor_even : (k m : ℕ) → bit_xor (m * 2 * 2 ^ k) (2 ^ k) ≡ m * 2 * 2 ^ k + 2 ^ k
bit_xor_even zero m = omega (arith, xor_one (m * 2 * 1) 0 1 (omega arith) refl)
bit_xor_even (suc k) m =
    xor_double _ _ _ _ _ _ (omega (arith, ap (λ t. m * 2 * t) (pow2-suc k)))
      (omega (arith, pow2-suc k)) (omega (arith, ap (λ t. m * 2 * t) (pow2-suc k), pow2-suc k))
      (bit_xor_even k m)

-- An odd multiple: the bit is cleared.
pub bit_xor_odd : (k m : ℕ) → bit_xor ((m * 2 + 1) * 2 ^ k) (2 ^ k) ≡ m * 2 * 2 ^ k
bit_xor_odd zero m = omega (arith, xor_one ((m * 2 + 1) * 1) 1 0 (omega arith) refl)
bit_xor_odd (suc k) m =
    xor_double _ _ _ _ _ _ (omega (arith, ap (λ t. (m * 2 + 1) * t) (pow2-suc k)))
      (omega (arith, pow2-suc k)) (omega (arith, ap (λ t. m * 2 * t) (pow2-suc k)))
      (bit_xor_odd k m)

pub pow2_split : (k d : ℕ) → 2 ^ (k + d) ≡ 2 ^ d * 2 ^ k
pow2_split k zero = let e : k + 0 ≡ k = omega arith in rw e (omega arith)
pow2_split k (suc d) =
    let e : k + suc d ≡ suc (k + d) = omega arith in
    rw e (omega (arith, pow2-suc (k + d), pow2_split k d, ap (λ t. t * 2 ^ k) (pow2-suc d)))

-- a larger power is a multiple of a smaller one
pub pow2_multiple : (k c : ℕ) → k ≤ c → 2 ^ c ≡ 2 ^ (c - k) * 2 ^ k
pow2_multiple k c h =
    let e : c ≡ k + (c - k) = omega arith in (ap (λ t. 2 ^ t) e) ∙ pow2_split k (c - k)

pub mul_lt_cancel : (a b m : ℕ) → a * m < b * m → a < b
mul_lt_cancel a b m h = elim (dec_lt a b) [
  | yes p ↦ p
  | no p ↦ let q : b ≤ a = omega arith in absurd (grind arith)
]

pub mul_mono : (a b m : ℕ) → a ≤ b → a * m ≤ b * m
mul_mono a b m h = grind arith

pub multiple_div : (m n r : ℕ) → r < n → (m * n + r) / n ≡ m
multiple_div m n r h =
    let small : r / n ≡ 0 = div-eq_of_lt h in
    mul-add-div_right (omega arith) m r ∙ omega (arith, small)
