-- ===== src/Common/Dict.antt =====
-- Go's `map[string]V`: an association list in the order of a range over it. The order is part of
-- the value, so what holds for every dictionary holds for every order that Go may choose.
use Prim.Native.Nat.{ℕ, ◌+◌, ◌≤◌}
use mathlib.Core.Path.{◌≡◌, refl, ap}
use mathlib.Core.Bool.{Bool, ◌&&◌}
use mathlib.Core.Logic.{inl, inr}
use mathlib.Core.Option.{Option, none, some}
use mathlib.Core.List.{List, [], ◌∷◌}
use native.Mathlib.Omega.{arith}
use opendrive_bridge.Common.Tests.{if◌then◌else◌, Bool-cases, is_some}
use opendrive_bridge.Common.Lists.{All, any, filter}
use opendrive_bridge.Common.Text.{Text, text_eq, text_eq_iff, text_eq_refl}

abbrev pub Dict {ℓ} : Type ℓ → Type ℓ
Dict V = List (Text × V)

module _ {ℓ} {V : Type ℓ} where
  unfoldable pub find : Text → Dict V → Option V
  find k [] = none
  find k ((j, v) ∷ m) = if text_eq j k then some v else find k m

  -- `m[k] = v`.
  unfoldable pub insert : Text → V → Dict V → Dict V
  insert k v [] = (k, v) ∷ []
  insert k v ((j, w) ∷ m) = if text_eq j k then (j, v) ∷ m else (j, w) ∷ insert k v m

  -- `delete(m, k)`.
  unfoldable pub delete : Text → Dict V → Dict V
  delete k [] = []
  delete k ((j, v) ∷ m) = let rest = delete k m in if text_eq j k then rest else (j, v) ∷ rest

  abbrev pub values : Dict V → List V
  values [] = []
  values ((k, v) ∷ m) = v ∷ values m

  abbrev pub keys : Dict V → List Text
  keys [] = []
  keys ((k, v) ∷ m) = k ∷ keys m

  -- A Go map has one entry for a key.
  abbrev pub IsDistinct : Dict V → Type ℓ
  IsDistinct [] = Unit
  IsDistinct ((k, v) ∷ m) = (find k m ≡ none) × IsDistinct m

  pub find-insert :
      (k j : Text) (v : V) (m : Dict V)
      → find j (insert k v m) ≡ (if text_eq k j then some v else find j m)
  unfolding find insert
  find-insert k j v [] = refl
  find-insert k j v ((i, w) ∷ m) =
      ground (arith, text_eq_iff k j, text_eq_iff i k, text_eq_iff i j, find-insert k j v m)

  pub find-delete :
      (k j : Text) (m : Dict V) → find j (delete k m) ≡ (if text_eq k j then none else find j m)
  unfolding find delete
  find-delete k j [] = ground arith
  find-delete k j ((i, w) ∷ m) =
      ground (arith, text_eq_iff k j, text_eq_iff i k, text_eq_iff i j, find-delete k j m)

  pub find-insert_self : (k : Text) (v : V) (m : Dict V) → find k (insert k v m) ≡ some v
  find-insert_self k v m = rw (find-insert, text_eq_refl k) refl

  pub find-delete_self : (k : Text) (m : Dict V) → find k (delete k m) ≡ none
  find-delete_self k m = rw (find-delete, text_eq_refl k) refl

  pub insert-IsDistinct : (k : Text) (v : V) (m : Dict V) → IsDistinct m → IsDistinct (insert k v m)
  unfolding insert find
  insert-IsDistinct k v [] h = (refl, tt)
  insert-IsDistinct k v ((j, w) ∷ m) h = elim (Bool-cases (text_eq j k)) [
    | inl e ↦ rw e h
    | inr e ↦ rw e (
      ground (arith, find-insert k j v m, text_eq_iff j k, text_eq_iff k j, h.0),
      insert-IsDistinct k v m h.1,
    )
  ]

  pub delete-IsDistinct : (k : Text) (m : Dict V) → IsDistinct m → IsDistinct (delete k m)
  unfolding delete find
  delete-IsDistinct k [] h = tt
  delete-IsDistinct k ((j, w) ∷ m) h = elim (Bool-cases (text_eq j k)) [
    | inl e ↦ rw e (delete-IsDistinct k m h.1)
    | inr e ↦ rw e (ground (arith, find-delete k j m, h.0), delete-IsDistinct k m h.1)
  ]

  -- The sum of a measure over the values, and the share of one key in it.
  abbrev pub total : (V → ℕ) → Dict V → ℕ
  total f [] = 0
  total f ((k, v) ∷ m) = f v + total f m

  abbrev pub share : (V → ℕ) → Option V → ℕ
  share f none = 0
  share f (some v) = f v

  pub total-insert :
      (f : V → ℕ) (k : Text) (v : V) (m : Dict V)
      → total f (insert k v m) + share f (find k m) ≡ total f m + f v
  unfolding insert find
  total-insert f k v [] = omega arith
  total-insert f k v ((j, w) ∷ m) = ground (arith, total-insert f k v m)

  delete_absent : (k : Text) (m : Dict V) → find k m ≡ none → delete k m ≡ m
  unfolding delete find
  delete_absent k [] h = refl
  delete_absent k ((j, w) ∷ m) h = ground (arith, delete_absent k m)

  pub total-delete :
      (f : V → ℕ) (k : Text) (m : Dict V)
      → IsDistinct m
      → total f (delete k m) + share f (find k m) ≡ total f m
  unfolding delete find
  total-delete f k [] h = omega arith
  total-delete f k ((j, w) ∷ m) h =
      ground (arith, total-delete f k m h.1, delete_absent k m, h.0, text_eq_iff j k)

  -- What a key's value adds to the sum is at most the sum.
  pub share-le-total : (f : V → ℕ) (k : Text) (m : Dict V) → share f (find k m) ≤ total f m
  unfolding find
  share-le-total f k [] = omega arith
  share-le-total f k ((j, w) ∷ m) = ground (arith, share-le-total f k m)

  -- What holds of the value under every key holds of every value.
  pub values-All {κ} :
      {P : V → Type κ} (m : Dict V)
      → IsDistinct m
      → ((k : Text) (v : V) → find k m ≡ some v → P v)
      → All P (values m)
  unfolding find
  values-All [] d h = tt
  values-All ((j, w) ∷ m) d h = (
    h j w (rw (text_eq_refl j)),
    values-All m d.1 (λ k v f. elim (Bool-cases (text_eq j k)) [
      | inl e ↦ absurd (ground (arith, text_eq_iff j k, d.0, f))
      | inr e ↦ h k v (rw e f)
    ]),
  )

-- Whether a text is in a list.
abbrev pub listed : Text → List Text → Bool
listed q ps = any (λ p. text_eq p q) ps

pub listed-keys {ℓ} : {V : Type ℓ} (q : Text) (m : Dict V) → listed q (keys m) ≡ is_some (find q m)
unfolding find
listed-keys q [] = refl
listed-keys q ((j, v) ∷ m) = ground (arith, listed-keys q m)

pub listed-filter :
    (f : Text → Bool) (q : Text) (ps : List Text) → listed q (filter f ps) ≡ (f q && listed q ps)
listed-filter f q [] = ground arith
listed-filter f q (p ∷ ps) = elim (Bool-cases (text_eq p q)) [
  | inl e ↦ ground (arith, listed-filter f q ps, ap f ((text_eq_iff p q).0 e), e)
  | inr e ↦ ground (arith, listed-filter f q ps, e)
]

-- What holds for every key that is found holds for the keys in their list.
pub keys-All {ℓ κ} :
    {V : Type ℓ} {P : Text → Type κ} (m : Dict V)
    → ((k : Text) (v : V) → find k m ≡ some v → P k)
    → All P (keys m)
unfolding find
keys-All [] f = tt
keys-All ((j, w) ∷ m) f = (
  f j w (ground (arith, text_eq_refl j)),
  keys-All m (λ k v g. elim (Bool-cases (text_eq j k)) [
    | inl e ↦ f k w (ground (arith, e))
    | inr e ↦ f k v (ground (arith, e, g))
  ]),
)
