-- ===== src/Base/Returns.antt =====
-- Total correctness of a fallible computation: it returns, and what it returns has a property.
use mathlib.Core.Path.{◌≡◌, refl, subst, sym}
use mathlib.Core.Option.{Option, none, some}
use mathlib.Core.Logic.{◌⊎◌, inl, inr}
use mm_mem.Base.Tests.{◌>>=◌}

pub data Returns {ℓ κ} {A : Type ℓ} (P : A → Type κ) : Option A → Type (ℓ ⊔ κ) where
  returns : {a : A} → P a → Returns P (some a)

module _ {ℓ κ} {A : Type ℓ} {P : A → Type κ} where
  pub via : {m n : Option A} → m ≡ n → Returns P n → Returns P m
  via e r = subst (Returns P) (sym e) r

  pub bind {ν μ} :
      {B : Type ν} {Q : B → Type μ} {m : Option A} {f : A → Option B}
      → Returns P m
      → ((a : A) → P a → Returns Q (f a))
      → Returns Q (m >>= f)
  bind (returns p) next = next _ p

  pub mono {μ} : {Q : A → Type μ} {m : Option A} → Returns P m → ((a : A) → P a → Q a) → Returns Q m
  mono (returns p) weaken = returns (weaken _ p)

  -- What returns has a value.
  pub value_of : {m : Option A} → Returns P m → (a : A) × (m ≡ some a) × P a
  value_of (returns p) = (_, refl, p)

pub Option-cases {ℓ} : {A : Type ℓ} (o : Option A) → (o ≡ none) ⊎ ((a : A) × (o ≡ some a))
Option-cases none = inl refl
Option-cases (some a) = inr (a, refl)
