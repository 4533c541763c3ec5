-- ===== src/Prelude/Panic.antt =====
-- A Rust call that may panic: it returns a value, or unwinds.
use mathlib.Core.Path.{◌≡◌, refl}
use mathlib.Core.Logic.{◌⊎◌, inl, inr}
use native.Mathlib.Omega.{arith}

pub data Outcome {ℓ} (A : Type ℓ) : Type ℓ where
  returns : A → Outcome A
  panics : Outcome A

infixl 5 ◌>>=◌ ◌>>◌
abbrev pub ◌>>=◌ {ℓ κ} : {A : Type ℓ} {B : Type κ} → Outcome A → (A → Outcome B) → Outcome B
returns a >>= f = f a
panics >>= f = panics

abbrev pub ◌>>◌ {ℓ} : {B : Type ℓ} → Outcome (Unit {0}) → Outcome B → Outcome B
m >> k = m >>= λ _. k

pub Outcome-cases {ℓ} : {A : Type ℓ} (o : Outcome A) → (o ≡ panics) ⊎ ((a : A) × (o ≡ returns a))
Outcome-cases panics = inl refl
Outcome-cases (returns a) = inr (a, refl)

-- A call with a result had a result in its first step.
pub bind_returns {ℓ κ} :
    {A : Type ℓ} {B : Type κ} (o : Outcome A) (f : A → Outcome B) {b : B}
    → (o >>= f) ≡ returns b
    → (a : A) × (o ≡ returns a) × (f a ≡ returns b)
bind_returns panics f h = absurd (ground arith)
bind_returns (returns a) f h = (a, refl, h)

pub returns_injective {ℓ} : {A : Type ℓ} {a b : A} → returns a ≡ returns b → a ≡ b
returns_injective h = ground arith
