-- ===== src/Common/Sort.antt =====
-- `sort.Slice`: Go's sort is not stable and promises an order alone. The insertion sort here gives
-- one of the orders that it may give, and the theorems use only that it rearranges the slice.
use Prim.Native.Nat.{ℕ, ◌+◌}
use mathlib.Core.Path.{◌≡◌, refl}
use mathlib.Core.Bool.{Bool, true, false, ◌||◌}
use mathlib.Core.List.{List, [], ◌∷◌}
use native.Mathlib.Omega.{arith}
use opendrive_bridge.Common.Tests.{if◌then◌else◌}
use opendrive_bridge.Common.Lists.{any, sum_by, All}

module _ {ℓ} {A : Type ℓ} where
  -- `less x y` says that `x` goes before `y`.
  unfoldable pub insert_by : (A → A → Bool) → A → List A → List A
  insert_by less x [] = x ∷ []
  insert_by less x (y ∷ ys) = if less y x then y ∷ insert_by less x ys else x ∷ y ∷ ys

  unfoldable pub sort_by : (A → A → Bool) → List A → List A
  unfolding insert_by
  sort_by less [] = []
  sort_by less (x ∷ xs) = insert_by less x (sort_by less xs)

  sum_by-insert_by :
      (f : A → ℕ) (less : A → A → Bool) (x : A) (xs : List A)
      → sum_by f (insert_by less x xs) ≡ f x + sum_by f xs
  unfolding insert_by
  sum_by-insert_by f less x [] = refl
  sum_by-insert_by f less x (y ∷ ys) = ground (arith, sum_by-insert_by f less x ys)

  pub sum_by-sort_by :
      (f : A → ℕ) (less : A → A → Bool) (xs : List A) → sum_by f (sort_by less xs) ≡ sum_by f xs
  unfolding sort_by
  sum_by-sort_by f less [] = refl
  sum_by-sort_by f less (x ∷ xs) =
      omega (arith, sum_by-insert_by f less x (sort_by less xs), sum_by-sort_by f less xs)

module _ {ℓ κ} {A : Type ℓ} (P : A → Type κ) (less : A → A → Bool) where
  insert_by-All : (x : A) (xs : List A) → P x → All P xs → All P (insert_by less x xs)
  unfolding insert_by
  insert_by-All x [] h hs = (h, tt)
  insert_by-All x (y ∷ ys) h hs =
      (elim (less y x) as (λ b. All P (if b then y ∷ insert_by less x ys else x ∷ y ∷ ys)) [
        | true ↦ (hs.0, insert_by-All x ys h hs.1)
        | false ↦ (h, hs)
      ])

  pub sort_by-All : (xs : List A) → All P xs → All P (sort_by less xs)
  unfolding sort_by
  sort_by-All [] hs = tt
  sort_by-All (x ∷ xs) hs = insert_by-All x (sort_by less xs) hs.0 (sort_by-All xs hs.1)

module _ {ℓ} {A : Type ℓ} (p : A → Bool) (less : A → A → Bool) where
  any-insert_by : (x : A) (xs : List A) → any p (insert_by less x xs) ≡ (p x || any p xs)
  unfolding insert_by
  any-insert_by x [] = refl
  any-insert_by x (y ∷ ys) = ground (arith, any-insert_by x ys)

  -- Sorting a list does not change what is in it.
  pub any-sort_by : (xs : List A) → any p (sort_by less xs) ≡ any p xs
  unfolding sort_by
  any-sort_by [] = refl
  any-sort_by (x ∷ xs) = ground (arith, any-insert_by x (sort_by less xs), any-sort_by xs)
