-- ===== src/Klib/Memory/Move.antt =====
-- klib/memmove.c copies as if over a third region, whether or not its two regions overlap.
use native.Mathlib.Decide.{ℕ_discrete, dec_lt}
use risc_v_workshop.Prelude.{
  ℕ, zero, suc, ◌+◌, ◌-◌, ◌≤◌, ◌<◌, ◌≡◌, ◌⊎◌, inl, inr, refl, ap, sym, ◌∙◌, arith, Bool-cases, true,
  false, ◌&&◌, ltb, leb, ◌==◌, if◌then◌else◌, update, update_at, update_other,
}
use risc_v_workshop.Klib.Memory.{copy_down, copy_up, memmove}

-- memory after a copy of `count` bytes from `src` to `dest`
abbrev pub copied : ℕ → ℕ → ℕ → (ℕ → ℕ) → ℕ → ℕ
copied dest src count mem p =
    if leb dest p && ltb p (dest + count) then mem (src + (p - dest)) else mem p

-- what a copy does inside the region, and outside
copied_in :
    (dest src count p : ℕ) (mem : ℕ → ℕ)
    → dest ≤ p
    → p < dest + count
    → copied dest src count mem p ≡ mem (src + (p - dest))
copied_in dest src count p mem a b =
    let inside : (leb dest p && ltb p (dest + count)) ≡ true = ground arith in rw inside refl

copied_out :
    (dest src count p : ℕ) (mem : ℕ → ℕ)
    → (p < dest) ⊎ (dest + count ≤ p)
    → copied dest src count mem p ≡ mem p
copied_out dest src count p mem h =
    let outside : (leb dest p && ltb p (dest + count)) ≡ false = ground arith in rw outside refl

copy_up-copied :
    (len d s : ℕ) (mem : ℕ → ℕ)
    → (d < s) ⊎ (s + len ≤ d)
    → (p : ℕ) → copy_up len d s mem p ≡ copied d s len mem p
unfolding copy_up
copy_up-copied zero d s mem h p = sym (copied_out d s zero p mem (ground arith))
copy_up-copied (suc len) d s mem h p =
    let first = update mem d (mem s) in
    copy_up-copied len (d + 1) (s + 1) first (ground arith) p ∙ elim (dec_lt p d) [
      | yes less ↦
          copied_out (d + 1) (s + 1) len p first (inl (omega arith))
          ∙ update_other mem d p (mem s) (omega arith)
          ∙ sym (copied_out d s (suc len) p mem (inl less))
      | no l ↦ elim (dec_lt p (d + suc len)) [
        | no more ↦
            copied_out (d + 1) (s + 1) len p first (inr (omega arith))
            ∙ update_other mem d p (mem s) (omega arith)
            ∙ sym (copied_out d s (suc len) p mem (inr (omega arith)))
        | yes inside ↦ elim (ℕ_discrete d p) [
          | yes e ↦
              copied_out (d + 1) (s + 1) len p first (inl (omega arith))
              ∙ update_at mem d p (mem s) e
              ∙ ap mem (omega arith)
              ∙ sym (copied_in d s (suc len) p mem (omega arith) inside)
          | no ne ↦
              copied_in (d + 1) (s + 1) len p first (omega arith) (omega arith)
              ∙ update_other mem d (s + 1 + (p - (d + 1))) (mem s) (ground arith)
              ∙ ap mem (omega arith)
              ∙ sym (copied_in d s (suc len) p mem (omega arith) inside)
        ]
      ]
    ]

copy_down-copied :
    (len d s : ℕ) (mem : ℕ → ℕ)
    → s < d
    → (p : ℕ) → copy_down len (d + len) (s + len) mem p ≡ copied d s len mem p
unfolding copy_down
copy_down-copied zero d s mem h p = sym (copied_out d s zero p mem (ground arith))
copy_down-copied (suc len) d s mem h p =
    let d_last : d + suc len - 1 ≡ d + len = omega arith in
    let s_last : s + suc len - 1 ≡ s + len = omega arith in
    let last = update mem (d + len) (mem (s + len)) in
    rw (d_last, s_last)
      (copy_down-copied len d s last h p ∙ elim (dec_lt p d) [
        | yes less ↦
            copied_out d s len p last (inl less)
            ∙ update_other mem (d + len) p _ (omega arith)
            ∙ sym (copied_out d s (suc len) p mem (inl less))
        | no l ↦ elim (dec_lt p (d + suc len)) [
          | no more ↦
              copied_out d s len p last (inr (omega arith))
              ∙ update_other mem (d + len) p _ (omega arith)
              ∙ sym (copied_out d s (suc len) p mem (inr (omega arith)))
          | yes inside ↦ elim (ℕ_discrete (d + len) p) [
            | yes e ↦
                copied_out d s len p last (inr (omega arith))
                ∙ update_at mem (d + len) p _ e
                ∙ ap mem (omega arith)
                ∙ sym (copied_in d s (suc len) p mem (omega arith) inside)
            | no ne ↦
                copied_in d s len p last (omega arith) (omega arith)
                ∙ update_other mem (d + len) (s + (p - d)) _ (omega arith)
                ∙ sym (copied_in d s (suc len) p mem (omega arith) inside)
          ]
        ]
      ])

-- Moving bytes leaves, at each address of the destination, the byte that stood before at the matching
-- address of the source, and every other byte as it was, for all regions, overlapping or not.
pub memmove-copied :
    (dest src count : ℕ) (mem : ℕ → ℕ) (p : ℕ)
    → memmove dest src count mem p ≡ copied dest src count mem p
unfolding memmove
memmove-copied dest src count mem p = elim (ℕ_discrete dest src) [
  | yes e ↦
      let same : (dest == src) ≡ true = ground arith in
      rw same (elim (Bool-cases (leb dest p && ltb p (dest + count))) [
        | inl i ↦ rw i (ap mem (ground arith))
        | inr o ↦ rw o refl
      ])
  | no d ↦
      let apart : (dest == src) ≡ false = ground arith in
      rw (apart, memmove)
        (elim (Bool-cases (ltb src dest && ltb dest (src + count))) [
          | inl o ↦ rw o (copy_down-copied count dest src mem (ground arith) p)
          | inr o ↦ rw o (copy_up-copied count dest src mem (ground arith) p)
        ])
]
