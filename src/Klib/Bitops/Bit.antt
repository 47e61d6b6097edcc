-- ===== src/Klib/Bitops/Bit.antt =====
-- Setting and clearing one bit of an array of words: the macros of include/klib/bitops.h.
use native.Mathlib.Nat.{
  div-add-mod', mod-lt, add-mul-div_right, div-eq_of_lt, mul_comm, mul_assoc, div-div-eq-div-mul,
}
use native.Mathlib.Decide.{ℕ_discrete, dec_lt}
use risc_v_workshop.Prelude.{
  ℕ, suc, ◌+◌, ◌-◌, ◌*◌, ◌/◌, ◌%◌, ◌^◌, ◌≤◌, ◌<◌, ◌≡◌, ◌≢◌, inl, inr, refl, ap, sym, ◌∙◌, arith,
  Bool, Bool-cases, true, false, ◌==◌, if◌then◌else◌, update, update_at, update_other, update_all,
}
use risc_v_workshop.Prelude.Bits.{
  pow2-suc, pow2_pos, pow2_multiple, multiple_div, mul_mono, mul_lt_cancel,
}
use risc_v_workshop.Klib.Bitops.Maps.{FirstIn, Zero}
use risc_v_workshop.Klib.Bitops.{bitops_isset, bitops_set, bitops_clr}

-- A word whose bit `b` is clear, as the bits above it and those below.
pub record Clear (w b : ℕ) : Type 0 where
  pub above : ℕ
  pub below : ℕ
  pub small : below < 2 ^ b
  pub form : w ≡ above * 2 ^ suc b + below

Clear-intro : (w b : ℕ) → w / 2 ^ b % 2 ≡ 0 → Clear w b
Clear-intro w b h =
    let even : w / 2 ^ b ≡ w / 2 ^ b / 2 * 2 = omega (arith, h) in
    record {
      above = w / 2 ^ b / 2;
      below = w % 2 ^ b;
      small = mod-lt w (pow2_pos b);
      form =
          sym (div-add-mod' w (2 ^ b))
          ∙ ap (λ t. t + w % 2 ^ b)
              (ap (λ t. t * 2 ^ b) even
                ∙ mul_assoc (w / 2 ^ b / 2) 2 (2 ^ b)
                ∙ ap (λ t. w / 2 ^ b / 2 * t) (sym (pow2-suc b)));
    }

-- What lies below bit `a` counts for nothing from that bit on.
top_part : (h r b a : ℕ) → b < a → r < 2 ^ suc b → (h * 2 ^ suc b + r) / 2 ^ a ≡ h / 2 ^ (a - suc b)
top_part h r b a l s =
    let split : 2 ^ a ≡ 2 ^ suc b * 2 ^ (a - suc b) =
      pow2_multiple (suc b) a (omega arith) ∙ mul_comm _ _ in
    ap (λ t. (h * 2 ^ suc b + r) / t) split
    ∙ sym (div-div-eq-div-mul (h * 2 ^ suc b + r) (2 ^ suc b) (2 ^ (a - suc b)))
    ∙ ap (λ t. t / 2 ^ (a - suc b)) (multiple_div h (2 ^ suc b) r s)

-- Adding the clear bit `b` keeps the other bits.
add_other : (w b a : ℕ) → Clear w b → a ≢ b → (w + 2 ^ b) / 2 ^ a % 2 ≡ w / 2 ^ a % 2
add_other w b a c d = elim (dec_lt a b) [
  | yes less ↦
      let k = b - suc a in
      let split : 2 ^ b ≡ (2 ^ k * 2) * 2 ^ a =
        pow2_multiple (suc a) b (omega arith)
        ∙ ap (λ t. 2 ^ k * t) (pow2-suc a)
        ∙ sym (mul_assoc (2 ^ k) 2 (2 ^ a)) in
      let sum : (w + 2 ^ b) / 2 ^ a ≡ w / 2 ^ a + 2 ^ k * 2 =
        ap (λ t. (w + t) / 2 ^ a) split ∙ add-mul-div_right w (2 ^ k * 2) (pow2_pos a) in
      omega (arith, sum)
  | no more ↦
      let double = pow2-suc b in
      let with_bit : w + 2 ^ b ≡ c.above * 2 ^ suc b + (c.below + 2 ^ b) = omega (arith, c.form) in
      let lhs : (w + 2 ^ b) / 2 ^ a ≡ c.above / 2 ^ (a - suc b) =
        ap (λ t. t / 2 ^ a) with_bit
        ∙ top_part c.above (c.below + 2 ^ b) b a (omega arith) (omega (arith, double, c.small)) in
      let rhs : w / 2 ^ a ≡ c.above / 2 ^ (a - suc b) =
        ap (λ t. t / 2 ^ a) c.form
        ∙ top_part c.above c.below b a (omega arith) (omega (arith, double, c.small)) in
      ap (λ t. t % 2) (lhs ∙ sym rhs)
]

add_div : (w b : ℕ) → (w + 2 ^ b) / 2 ^ b ≡ w / 2 ^ b + 1
add_div w b =
    let one : 2 ^ b ≡ 1 * 2 ^ b = omega arith in
    ap (λ t. (w + t) / 2 ^ b) one ∙ add-mul-div_right w 1 (pow2_pos b)

-- A word whose bit `b` is set, without that bit.
pub record Set (w b : ℕ) : Type 0 where
  pub rest : ℕ
  pub form : w ≡ rest + 2 ^ b
  pub clear : rest / 2 ^ b % 2 ≡ 0

Set-intro : (w b : ℕ) → w / 2 ^ b % 2 ≡ 1 → Set w b
Set-intro w b h =
    let enough : 2 ^ b ≤ w =
      omega (arith, div-add-mod' w (2 ^ b), mul_mono 1 (w / 2 ^ b) (2 ^ b) (omega (arith, h))) in
    let back : w ≡ w - 2 ^ b + 2 ^ b = omega arith in
    let quotient : w / 2 ^ b ≡ (w - 2 ^ b) / 2 ^ b + 1 =
      ap (λ t. t / 2 ^ b) back ∙ add_div (w - 2 ^ b) b in
    record { rest = w - 2 ^ b; form = back; clear = omega (arith, quotient, h) }

abbrev bit_of : ℕ → ℕ → Bool
bit_of w a = w / 2 ^ a % 2 == 1

word_set :
    (w b a : ℕ)
    → bit_of (if bit_of w b then w else w + 2 ^ b) a ≡ (if a == b then true else bit_of w a)
word_set w b a = elim (ℕ_discrete a b) [
  | yes e ↦ let grown = add_div w b in rw e (ground (arith, grown))
  | no d ↦ elim (Bool-cases (bit_of w b)) [
    | inl s ↦ rw s (ground arith)
    | inr c ↦
        let kept = add_other w b a (Clear-intro w b (ground arith)) d in rw c (ground (arith, kept))
  ]
]

word_clr :
    (w b a : ℕ)
    → bit_of (if bit_of w b then w - 2 ^ b else w) a ≡ (if a == b then false else bit_of w a)
word_clr w b a = elim (Bool-cases (bit_of w b)) [
  | inr c ↦ rw c (elim (ℕ_discrete a b) [ yes e ↦ rw e (ground arith) | no d ↦ ground arith ])
  | inl s ↦
      let t = Set-intro w b (ground arith) in
      let less : w - 2 ^ b ≡ t.rest = omega (arith, t.form) in
      rw (s, less)
        (elim (ℕ_discrete a b) [
          | yes e ↦ rw e (ground (arith, t.clear))
          | no d ↦
              let kept =
                ap (λ x. x / 2 ^ a % 2) t.form
                ∙ add_other t.rest b a (Clear-intro t.rest b t.clear) d in
              ground (arith, kept)
        ])
]

isset_update :
    (n m x : ℕ) (v : ℕ → ℕ) (r : Bool)
    → ((n / 64 ≡ m / 64) → bit_of x (m % 64) ≡ (if m % 64 == n % 64 then r else bitops_isset m v))
    → bitops_isset m (update v (n / 64) x) ≡ (if m == n then r else bitops_isset m v)
isset_update n m x v r h = elim (ℕ_discrete (n / 64) (m / 64)) [
  | no d ↦
      let ne : (m == n) ≡ false = ground arith in rw (ne, update_other v (n / 64) (m / 64) x d) refl
  | yes e ↦
      let same : (m == n) ≡ (m % 64 == n % 64) = ground arith in
      rw (same, update_at v (n / 64) (m / 64) x e) (h e)
]

-- Setting a bit sets it, clearing a bit clears it, and neither changes any other bit.
pub isset_lem :
    (n m : ℕ) (v : ℕ → ℕ)
    → (bitops_isset m (bitops_set n v) ≡ (if m == n then true else bitops_isset m v))
      × (bitops_isset m (bitops_clr n v) ≡ (if m == n then false else bitops_isset m v))
isset_lem n m v = (
  isset_update n m _ v true (λ e. rw (sym e) (word_set (v (n / 64)) (n % 64) (m % 64))),
  isset_update n m _ v false (λ e. rw (sym e) (word_clr (v (n / 64)) (n % 64) (m % 64))),
)

set_fits : (w b : ℕ) → b < 64 → w < 2 ^ 64 → Clear w b → w + 2 ^ b < 2 ^ 64
set_fits w b p q c =
    let whole : 2 ^ 64 ≡ 2 ^ (63 - b) * 2 ^ suc b =
      pow2_multiple (suc b) 64 (omega arith) ∙ ap (λ t. 2 ^ t * 2 ^ suc b) (omega arith) in
    let less : c.above < 2 ^ (63 - b) =
      mul_lt_cancel _ _ (2 ^ suc b) (omega (arith, whole, q, c.form)) in
    let room = mul_mono (suc c.above) (2 ^ (63 - b)) (2 ^ suc b) less in
    let next : suc c.above * 2 ^ suc b ≡ c.above * 2 ^ suc b + 2 ^ suc b = grind arith in
    omega (arith, room, next, whole, c.form, c.small, pow2-suc b)

-- The elements stay words of 64 bits.
pub isset_bounds :
    (n i : ℕ) (v : ℕ → ℕ)
    → ((j : ℕ) → v j < 2 ^ 64)
    → (bitops_set n v i < 2 ^ 64) × (bitops_clr n v i < 2 ^ 64)
isset_bounds n i v h = (
  update_all (λ j x. x < 2 ^ 64) v (n / 64) _ i
      (elim (Bool-cases (bitops_isset n v)) [
        | inl s ↦ rw s (h (n / 64))
        | inr c ↦ rw c (
            set_fits (v (n / 64)) (n % 64) (omega arith) (h (n / 64))
              (Clear-intro _ _ (ground arith)))
      ])
      (h i),
  update_all (λ j x. x < 2 ^ 64) v (n / 64) _ i
      (elim (Bool-cases (bitops_isset n v)) [
        | inl s ↦ rw s (let below = h (n / 64) in omega arith)
        | inr c ↦ rw c (h (n / 64))
      ])
      (h i),
)

-- The first set bit that a search finds, as a bit of the map.
pub isset_first : (v : ℕ → ℕ) (j pos : ℕ) → FirstIn v 64 0 j pos → bitops_isset (pos - 1) v ≡ true
isset_first v j pos f =
    let word : (pos - 1) / 64 ≡ f.word = omega (arith, f.result, f.inside) in
    let place : (pos - 1) % 64 ≡ f.at = omega (arith, f.result, f.inside) in
    let zero_added : (2 * f.first.above + 1) * 2 ^ f.at ≡ (2 * f.first.above + 1) * 2 ^ f.at + 0 =
      omega arith in
    let quotient : v f.word / 2 ^ f.at ≡ 2 * f.first.above + 1 =
      ap (λ t. t / 2 ^ f.at) (f.first.form ∙ zero_added)
      ∙ multiple_div (2 * f.first.above + 1) (2 ^ f.at) 0 (pow2_pos f.at) in
    rw (word, place, quotient) (ground arith)

no_bit : (n k : ℕ) → n ≡ 0 → (n / 2 ^ k % 2 == 1) ≡ false
no_bit n k e = let z : 0 / 2 ^ k ≡ 0 = div-eq_of_lt (pow2_pos k) in rw (e, z) refl

pub isset_zero : (v : ℕ → ℕ) (j p : ℕ) → Zero v 0 j → p < 64 * j → bitops_isset p v ≡ false
isset_zero v j p z h = no_bit _ (p % 64) (z (p / 64) (omega arith) (omega arith))

regroup : (a b c : ℕ) → a * (b * 2 * c) ≡ a * b * 2 * c + 0
regroup a b c = grind arith

-- A multiple of a higher power of two does not have the bit.
even_below : (n m at k : ℕ) → n ≡ m * 2 ^ at → k < at → (n / 2 ^ k % 2 == 1) ≡ false
even_below n m at k e h =
    let split : 2 ^ at ≡ 2 ^ (at - suc k) * 2 * 2 ^ k =
      pow2_multiple (suc k) at (omega arith)
      ∙ ap (λ t. 2 ^ (at - suc k) * t) (pow2-suc k)
      ∙ sym (mul_assoc (2 ^ (at - suc k)) 2 (2 ^ k)) in
    let whole : n ≡ m * 2 ^ (at - suc k) * 2 * 2 ^ k + 0 =
      e ∙ ap (λ t. m * t) split ∙ regroup m (2 ^ (at - suc k)) (2 ^ k) in
    let quotient : n / 2 ^ k ≡ m * 2 ^ (at - suc k) * 2 =
      ap (λ t. t / 2 ^ k) whole ∙ multiple_div _ (2 ^ k) 0 (pow2_pos k) in
    rw quotient (ground arith)

pub isset_before :
    (v : ℕ → ℕ) (j pos p : ℕ) → FirstIn v 64 0 j pos → p < pos - 1 → bitops_isset p v ≡ false
isset_before v j pos p f h = elim (ℕ_discrete (p / 64) f.word) [
  | yes e ↦ rw e (
      even_below (v f.word) (2 * f.first.above + 1) f.at (p % 64) f.first.form
        (omega (arith, f.result, f.inside, e)))
  | no d ↦
      no_bit _ (p % 64) (f.before (p / 64) (omega arith) (omega (arith, f.result, f.inside, d)))
]
