-- ===== src/Common/Result.antt =====
-- A computation that returns or raises an error of type `E`.
use mathlib.Core.Bool.{Bool, true, false}

pub data Result {ℓ κ} (E : Type κ) (A : Type ℓ) : Type (ℓ ⊔ κ) where
  ok : A → Result E A
  err : E → Result E A

module _ {ℓ κ ι} {E : Type ι} {A : Type ℓ} {B : Type κ} where
  infixl 5 ◌>>=◌
  abbrev pub ◌>>=◌ : Result E A → (A → Result E B) → Result E B
  ok a >>= f = f a
  err e >>= f = err e

module _ {ℓ ι} {E : Type ι} {B : Type ℓ} where
  infixl 5 ◌>>◌
  abbrev pub ◌>>◌ : Result E (Unit {0}) → Result E B → Result E B
  m >> k = m >>= λ _. k

-- `if test: raise e`
abbrev pub raise_if {ι} : {E : Type ι} → Bool → E → Result E (Unit {0})
raise_if true e = err e
raise_if false e = ok tt

module _ {ℓ κ} {E : Type κ} {A : Type ℓ} where
  abbrev pub is_ok : Result E A → Bool
  is_ok (ok a) = true
  is_ok (err e) = false

  -- What holds of the value that is returned, if one is.
  abbrev pub Returns {ι} : (A → Type ι) → Result E A → Type ι
  Returns P (ok a) = P a
  Returns P (err e) = Unit

module _ {ℓ κ ι} {E : Type ι} {A : Type ℓ} {B : Type κ} where
  pub Returns-bind {μ ν} :
      (P : A → Type μ) (Q : B → Type ν) (m : Result E A) (f : A → Result E B)
      → Returns P m
      → ((a : A) → P a → Returns Q (f a))
      → Returns Q (m >>= f)
  Returns-bind P Q (ok a) f h k = k a h
  Returns-bind P Q (err e) f h k = tt
