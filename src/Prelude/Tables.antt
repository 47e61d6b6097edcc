-- ===== src/Prelude/Tables.antt =====
-- Arrays as functions of the index, updated at one place.
use risc_v_workshop.Prelude.Tests.{◌==◌, if◌then◌else◌}
use Prim.Native.Nat.{ℕ}
use mathlib.Core.Path.{◌≡◌, ap, subst, fun_ext}
use native.Mathlib.Decide.{ℕ_discrete}
use mathlib.Core.Logic.{◌≢◌}
use native.Mathlib.Omega.{arith}

module _ {ℓ} {A : Type ℓ} where
  -- a[i] = v
  abbrev pub update : (ℕ → A) → ℕ → A → ℕ → A
  update a i v j = if i == j then v else a j

  pub update_same : (a : ℕ → A) (i : ℕ) (v : A) → update a i v i ≡ v
  update_same a i v = ground arith

  pub update_other : (a : ℕ → A) (i j : ℕ) (v : A) → i ≢ j → update a i v j ≡ a j
  update_other a i j v h = ground arith

  -- What holds of the new value at its index and of the old ones elsewhere holds everywhere.
  pub update_all {κ} :
      (P : ℕ → A → Type κ) (a : ℕ → A) (i : ℕ) (v : A) (j : ℕ)
      → P i v
      → P j (a j)
      → P j (update a i v j)
  update_all P a i v j new old = elim (ℕ_discrete i j) [
    | yes e ↦ let same : update a i v j ≡ v = ground arith in rw same (subst (λ k. P k v) e new)
    | no d ↦ let other : update a i v j ≡ a j = ground arith in rw other old
  ]

  pub update_at : (a : ℕ → A) (i j : ℕ) (v : A) → i ≡ j → update a i v j ≡ v
  update_at a i j v e = ground arith

  update_twice_at :
      (a : ℕ → A) (i : ℕ) (v w : A) (j : ℕ) → update (update a i v) i w j ≡ update a i w j
  update_twice_at a i v w j = ground arith

  -- Of two updates at one place the first one is lost.
  pub update_twice : (a : ℕ → A) (i : ℕ) (v w : A) → update (update a i v) i w ≡ update a i w
  update_twice a i v w = fun_ext (update_twice_at a i v w)

  update_self_at : (a : ℕ → A) (i j : ℕ) → update a i (a i) j ≡ a j
  update_self_at a i j = elim (ℕ_discrete i j) [
    | yes e ↦ ground (arith, ap a e)
    | no d ↦ ground arith
  ]

  -- An update by what is there changes nothing.
  pub update_self : (a : ℕ → A) (i : ℕ) → update a i (a i) ≡ a
  update_self a i = fun_ext (update_self_at a i)
