-- ===== src/Common/Results.antt =====
-- What a Go function with an error result answers: the value, or the error.
use mathlib.Core.Path.{◌≡◌, refl}
use mathlib.Core.Logic.{◌⊎◌, ◌≢◌, inl, inr}
use mathlib.Core.Option.{some}

pub data Answer {ℓ κ} (E : Type ℓ) (A : Type κ) : Type (ℓ ⊔ κ) where
  good : A → Answer E A
  bad : E → Answer E A

pub Answer-cases {ℓ κ} :
    {E : Type ℓ} {A : Type κ} (r : Answer E A) → ((a : A) × (r ≡ good a)) ⊎ ((e : E) × (r ≡ bad e))
Answer-cases (good a) = inl (a, refl)
Answer-cases (bad e) = inr (e, refl)

pub bad≢good {ℓ κ} :
    {E : Type ℓ} {A : Type κ} {e : E} {a : A} → ◌≢◌ {A = Answer E A} (bad e) (good a)
bad≢good h = cc h

pub good_inj {ℓ κ} :
    {E : Type ℓ} {A : Type κ} {x y : A} → ◌≡◌ {A = Answer E A} (good x) (good y) → x ≡ y
good_inj h = cc h

pub some_inj {ℓ} : {A : Type ℓ} {x y : A} → some x ≡ some y → x ≡ y
some_inj h = cc h

pub bad_inj {ℓ κ} :
    {E : Type ℓ} {A : Type κ} {x y : E} → ◌≡◌ {A = Answer E A} (bad x) (bad y) → x ≡ y
bad_inj h = cc h
