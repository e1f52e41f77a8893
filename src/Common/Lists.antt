-- ===== src/Common/Lists.antt =====
-- Lists measured by native numbers, a filter by a Boolean test, and a predicate on all elements.
use Prim.Native.Nat.{ℕ, zero, suc, ◌+◌, ◌-◌, ◌≤◌}
use mathlib.Core.Path.{◌≡◌, refl, sym, ap, ◌∙◌}
use mathlib.Core.Logic.{inl, inr}
use mathlib.Core.Bool.{Bool, true, false, ◌||◌}
use mathlib.Core.List.{List, [], ◌∷◌, ◌++◌, map}
use native.Mathlib.Omega.{arith}
use opendrive_bridge.Common.Tests.{if◌then◌else◌, Bool-cases}

module _ {ℓ} {A : Type ℓ} where
  abbrev pub length : List A → ℕ
  length [] = 0
  length (x ∷ xs) = suc (length xs)

  abbrev pub filter : (A → Bool) → List A → List A
  filter p [] = []
  filter p (x ∷ xs) = let rest = filter p xs in if p x then x ∷ rest else rest

  abbrev pub any : (A → Bool) → List A → Bool
  any p [] = false
  any p (x ∷ xs) = p x || any p xs

  abbrev pub take : ℕ → List A → List A
  take zero xs = []
  take (suc n) [] = []
  take (suc n) (x ∷ xs) = x ∷ take n xs

  -- `s[n:]`.
  abbrev pub skip : ℕ → List A → List A
  skip zero xs = xs
  skip (suc n) [] = []
  skip (suc n) (x ∷ xs) = skip n xs

  pub take_empty : (n : ℕ) → take n [] ≡ []
  take_empty zero = refl
  take_empty (suc n) = refl

  abbrev pub sum_by : (A → ℕ) → List A → ℕ
  sum_by f [] = 0
  sum_by f (x ∷ xs) = f x + sum_by f xs

  pub length-append : (xs ys : List A) → length (xs ++ ys) ≡ length xs + length ys
  length-append [] ys = omega arith
  length-append (x ∷ xs) ys = omega (arith, length-append xs ys)

  pub length-take_le : (n : ℕ) (xs : List A) → length (take n xs) ≤ length xs
  length-take_le zero xs = omega arith
  length-take_le (suc n) [] = omega arith
  length-take_le (suc n) (x ∷ xs) = omega (arith, length-take_le n xs)

  pub length-take : (n : ℕ) (xs : List A) → n ≤ length xs → length (take n xs) ≡ n
  length-take zero xs h = omega arith
  length-take (suc n) [] h = absurd (omega (arith, h))
  length-take (suc n) (x ∷ xs) h = ap suc (length-take n xs (omega (arith, h)))

  pub take-skip : (n : ℕ) (xs : List A) → take n xs ++ skip n xs ≡ xs
  take-skip zero xs = refl
  take-skip (suc n) [] = refl
  take-skip (suc n) (x ∷ xs) = ap (λ s. x ∷ s) (take-skip n xs)

  pub take-all : (n : ℕ) (xs : List A) → length xs ≤ n → take n xs ≡ xs
  take-all n [] h = take_empty n
  take-all zero (x ∷ xs) h = absurd (omega (arith, h))
  take-all (suc n) (x ∷ xs) h = ap (λ s. x ∷ s) (take-all n xs (omega (arith, h)))

  pub take-add : (m n : ℕ) (xs : List A) → take (m + n) xs ≡ take m xs ++ take n (skip m xs)
  take-add zero n xs = ap (λ k. take k xs) (omega arith)
  take-add (suc m) n [] = take_empty (suc m + n) ∙ sym (take_empty n)
  take-add (suc m) n (x ∷ xs) =
      let e : suc m + n ≡ suc (m + n) = omega arith in
      ap (λ k. take k (x ∷ xs)) e ∙ ap (λ s. x ∷ s) (take-add m n xs)

  pub skip-append : (xs ys : List A) → skip (length xs) (xs ++ ys) ≡ ys
  skip-append [] ys = refl
  skip-append (x ∷ xs) ys = skip-append xs ys

  pub take-append : (xs ys : List A) → take (length xs) (xs ++ ys) ≡ xs
  take-append [] ys = refl
  take-append (x ∷ xs) ys = ap (λ s. x ∷ s) (take-append xs ys)

  pub take-append_le : (n : ℕ) (xs ys : List A) → n ≤ length xs → take n (xs ++ ys) ≡ take n xs
  take-append_le zero xs ys h = refl
  take-append_le (suc n) [] ys h = absurd (omega (arith, h))
  take-append_le (suc n) (x ∷ xs) ys h = ap (λ s. x ∷ s) (take-append_le n xs ys (omega (arith, h)))

  pub skip-all : (n : ℕ) (xs : List A) → length xs ≤ n → skip n xs ≡ []
  skip-all zero [] h = refl
  skip-all (suc n) [] h = refl
  skip-all zero (x ∷ xs) h = absurd (omega (arith, h))
  skip-all (suc n) (x ∷ xs) h = skip-all n xs (omega (arith, h))

  pub length-skip : (n : ℕ) (xs : List A) → length (skip n xs) ≡ length xs - n
  length-skip zero xs = omega arith
  length-skip (suc n) [] = omega arith
  length-skip (suc n) (x ∷ xs) = omega (arith, length-skip n xs)

-- The second list is the first with something behind it.
abbrev pub Begins {ℓ} : {A : Type ℓ} → List A → List A → Type ℓ
Begins xs ys = (zs : List _) × (xs ++ zs ≡ ys)

abbrev pub All {ℓ κ} : {A : Type ℓ} → (A → Type κ) → List A → Type κ
All P [] = Unit
All P (x ∷ xs) = P x × All P xs

module _ {ℓ κ μ} {A : Type ℓ} {P : A → Type κ} {Q : A → Type μ} where
  -- What passes a filter has passed its test.
  pub filter-All :
      (p : A → Bool)
      → ((x : A) → P x → p x ≡ true → Q x)
      → (xs : List A) → All P xs
      → All Q (filter p xs)
  filter-All p h [] hs = tt
  filter-All p h (x ∷ xs) hs = elim (Bool-cases (p x)) [
    | inl e ↦ rw e (h x hs.0 e, filter-All p h xs hs.1)
    | inr e ↦ rw e (filter-All p h xs hs.1)
  ]

module _ {ℓ κ μ} {A : Type ℓ} {B : Type κ} (P : B → Type μ) (f : A → B) where
  pub map-All : (xs : List A) → All (λ x. P (f x)) xs → All P (map f xs)
  map-All [] hs = tt
  map-All (x ∷ xs) hs = (hs.0, map-All xs hs.1)
