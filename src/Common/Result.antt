-- ===== src/Common/Result.antt =====
-- Rust's `Result`, with its `?` as the bind of a do block.
use mathlib.Core.Path.{◌≡◌, refl}
use mathlib.Core.Logic.{◌⊎◌, inl, inr}
use mathlib.Core.Option.{Option, none, some}
use mathlib.Core.Bool.{Bool, true, false}
use zeptocapsule.Common.{if◌then◌else◌}

-- `X` is the type of the errors.
pub data Result {ℓ κ} (X : Type ℓ) (A : Type κ) : Type (ℓ ⊔ κ) where
  ok : A → Result X A
  err : X → Result X A

module _ {ℓ κ μ} {X : Type ℓ} {A : Type κ} {B : Type μ} where
  infixl 5 ◌>>=◌ ◌>>◌
  abbrev pub ◌>>=◌ : Result X A → (A → Result X B) → Result X B
  ok a >>= next = next a
  err x >>= next = err x

  abbrev pub ◌>>◌ : Result X A → Result X B → Result X B
  m >> rest = m >>= λ _. rest

  -- A chain that returns has a first step that returns.
  pub ok_of_chain :
      {b : B} (next : A → Result X B) (m : Result X A)
      → (m >>= next) ≡ ok b
      → (a : A) × (m ≡ ok a) × (next a ≡ ok b)
  ok_of_chain next (ok a) returns = (a, refl, returns)
  ok_of_chain next (err x) returns = cc

module _ {ℓ κ} {X : Type ℓ} {A : Type κ} where
  -- `o.ok_or(x)`
  abbrev pub ok_or : X → Option A → Result X A
  ok_or x none = err x
  ok_or x (some a) = ok a

  pub ok_or-eq-ok : {a : A} (x : X) (o : Option A) → ok_or x o ≡ ok a → o ≡ some a
  ok_or-eq-ok x none returns = cc
  ok_or-eq-ok x (some a) returns = cc

  pub ok_injective : {a b : A} → ◌≡◌ {A = Result X A} (ok a) (ok b) → a ≡ b
  ok_injective same = cc

  pub Result-cases : (m : Result X A) → ((a : A) × (m ≡ ok a)) ⊎ ((x : X) × (m ≡ err x))
  Result-cases (ok a) = inl (a, refl)
  Result-cases (err x) = inr (x, refl)

  -- A guard that returns has a test that fails.
  pub ok_of_guard :
      {a : A} (b : Bool) (x : X) (m : Result X A)
      → (if b then err x else m) ≡ ok a
      → (b ≡ false) × (m ≡ ok a)
  ok_of_guard true x m returns = cc
  ok_of_guard false x m returns = (refl, returns)

-- What holds of every value and of every error holds of every result.
pub by_result {ℓ κ μ} :
    {X : Type ℓ} {A : Type κ} (P : Result X A → Type μ)
    → ((a : A) → P (ok a))
    → ((x : X) → P (err x))
    → (r : Result X A) → P r
by_result P good bad (ok a) = good a
by_result P good bad (err x) = bad x
