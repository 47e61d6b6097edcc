-- ===== src/Prelude/Results.antt =====
-- Error codes, status returns, and code that a failed `kassert` stops.
use mathlib.Core.Path.{◌≡◌, subst}
use mathlib.Core.Option.{Option, none, some}

-- The negated errno values that the modelled functions return.
pub data Errno : Type 0 where
  einval enomem esrch enolck ebusy enoent eagain enodev eintr enospc : Errno

-- `rc == 0` with the out-parameter, or `rc == -errno`.
pub data Rc {ℓ} (A : Type ℓ) : Type ℓ where
  done : A → Rc A
  fail : Errno → Rc A

-- A run is `none` when a `kassert` fails: the kernel stops there.
infixl 5 ◌>>=◌
abbrev pub ◌>>=◌ {ℓ κ} : {A : Type ℓ} {B : Type κ} → Option A → (A → Option B) → Option B
none >>= f = none
some a >>= f = f a

-- The run ends with no failed `kassert`, and its result has the property.
abbrev pub Ensures {ℓ} : {A : Type ℓ} → (A → Type 0) → Option A → Type 0
Ensures P none = ⊥
Ensures P (some a) = P a

pub Ensures-bind {ℓ κ} :
    {A : Type ℓ} {B : Type κ} (P : A → Type 0) (Q : B → Type 0) (m : Option A) (f : A → Option B)
    → Ensures P m
    → ((a : A) → P a → Ensures Q (f a))
    → Ensures Q (m >>= f)
Ensures-bind P Q none f h k = absurd h
Ensures-bind P Q (some a) f h k = k a h

pub Ensures-map {ℓ} :
    {A : Type ℓ} (P Q : A → Type 0) (m : Option A)
    → ((a : A) → P a → Q a)
    → Ensures P m
    → Ensures Q m
Ensures-map P Q none f h = h
Ensures-map P Q (some a) f h = f a h

pub Ensures-some {ℓ} :
    {A : Type ℓ} (P : A → Type 0) {m : Option A} {a : A} → Ensures P m → m ≡ some a → P a
Ensures-some P {m} {a} h e = subst (Ensures P) e h

-- the value of a run that is known to end, for tests
abbrev pub value_or {ℓ} : {A : Type ℓ} → A → Option A → A
value_or d none = d
value_or d (some a) = a
