-- ===== src/Base/Chain.antt =====
-- The `(value, error)` pairs of Go, and their chains.
use mathlib.Core.Path.{◌≡◌, refl}
use mathlib.Core.Logic.{◌⊎◌, inl, inr}
use native.Mathlib.Omega.{arith}
use mathlib.Core.Bool.{Bool, true, false}

-- The error type comes first: each component has its own.
pub data Result {ℓ κ} (E : Type ℓ) (A : Type κ) : Type (ℓ ⊔ κ) where
  ok : A → Result E A
  err : E → Result E A

module _ {ℓ κ} {E : Type ℓ} {A : Type κ} where
  -- `if err != nil { return err }` between two steps.
  infixl 5 ◌>>=◌
  abbrev pub ◌>>=◌ {μ} : {B : Type μ} → Result E A → (A → Result E B) → Result E B
  m >>= next = elim m [ err e ↦ err e | ok a ↦ next a ]

  infixl 5 ◌>>◌
  abbrev pub ◌>>◌ : Result E (Unit {0}) → Result E A → Result E A
  m >> rest = elim m [ err e ↦ err e | ok done ↦ rest ]

  pub Result-cases : (m : Result E A) → ((a : A) × (m ≡ ok a)) ⊎ ((e : E) × (m ≡ err e))
  Result-cases (err e) = inr (e, refl)
  Result-cases (ok a) = inl (a, refl)

  -- A chain that succeeds has succeeded at each step.
  pub bind_ok {μ} :
      {B : Type μ} (m : Result E A) (next : A → Result E B) (b : B)
      → m >>= next ≡ ok b
      → (a : A) × (m ≡ ok a) × (next a ≡ ok b)
  bind_ok (ok a) next b h = (a, refl, h)
  bind_ok (err e) next b h = absurd (ground arith)

pub ok_unique {ℓ κ} :
    {E : Type ℓ} {A : Type κ} {a b : A} (m : Result E A) → m ≡ ok a → m ≡ ok b → a ≡ b
ok_unique m h k = ground arith

pub then_ok {ℓ κ} :
    {E : Type ℓ} {A : Type κ} (m : Result E (Unit {0})) (rest : Result E A) (a : A)
    → m >> rest ≡ ok a
    → rest ≡ ok a
then_ok (ok done) rest a h = h
then_ok (err e) rest a h = absurd (ground arith)

-- A call that fails with the error unless it succeeds.
abbrev pub ensure {ℓ} : {E : Type ℓ} → Bool → E → Result E (Unit {0})
ensure succeeds e = elim succeeds [ true ↦ ok tt | false ↦ err e ]
