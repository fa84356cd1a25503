-- ===== src/Base/Results.antt =====
-- What a function returns or raises: a value, or an error of the type `E`.
use mathlib.Core.Bool.{Bool, true, false}
use mathlib.Core.Logic.{◌⊎◌, inl, inr}
use mathlib.Core.Path.{◌≡◌, refl}
use mathlib.Core.Option.{Option, none, some}

pub data Result {ℓ κ} (E : Type ℓ) (A : Type κ) : Type (ℓ ⊔ κ) where
  ok : A → Result E A
  err : E → Result E A

module _ {ε} {E : Type ε} where
  infixl 5 ◌>>=◌ ◌>>◌
  -- goes on with the value, and passes an error on
  abbrev pub ◌>>=◌ {ℓ κ} : {A : Type ℓ} {B : Type κ} → Result E A → (A → Result E B) → Result E B
  x >>= next = elim x [ ok a ↦ next a | err e ↦ err e ]

  abbrev pub ◌>>◌ {ℓ} : {B : Type ℓ} → Result E (Unit {0}) → Result E B → Result E B
  x >> y = x >>= λ done. y

  -- raises the error unless the test holds
  abbrev pub guard : Bool → E → Result E (Unit {0})
  guard test e = elim test [ true ↦ ok tt | false ↦ err e ]

  -- `d[k]`, of what a lookup found
  abbrev pub the_or {ℓ} : {A : Type ℓ} → Option A → E → Result E A
  the_or found e = elim found [ none ↦ err e | some a ↦ ok a ]

  -- To split on a result and keep the equation.
  pub Result-cases {ℓ} :
      {A : Type ℓ} (x : Result E A) → ((a : A) × (x ≡ ok a)) ⊎ ((e : E) × (x ≡ err e))
  Result-cases (ok a) = inl (a, refl)
  Result-cases (err e) = inr (e, refl)
