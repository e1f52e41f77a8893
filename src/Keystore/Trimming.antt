-- ===== src/Keystore/Trimming.antt =====
-- What trimming leaves alone (`strings.TrimSpace` in internal/keystore/env.go).
use opendrive_bridge.Common.{
  ℕ, ◌≤◌, ◌≡◌, refl, sym, ap, ◌∙◌, true, false, ◌&&◌, [], ◌∷◌, ◌++◌, arith, length, inl, inr,
  Bool-cases,
}
use opendrive_bridge.Common.Text.{Text, is_empty, is_space, trim_left, trim_right, trim_space}

is_empty-append : (s t : Text) → is_empty t ≡ false → is_empty (s ++ t) ≡ false
is_empty-append [] t h = h
is_empty-append (c ∷ s) t h = refl

pub trim_right-append :
    (s t : Text) → is_empty (trim_right t) ≡ false → trim_right (s ++ t) ≡ s ++ trim_right t
unfolding trim_right
trim_right-append [] t h = refl
trim_right-append (c ∷ s) t h =
    ground (arith, trim_right-append s t h, is_empty-append s (trim_right t) h)

pub trim_right-solid :
    (c : ℕ) (s : Text) → is_space c ≡ false → trim_right (c ∷ s) ≡ c ∷ trim_right s
unfolding trim_right
trim_right-solid c s h = ground (arith, h)

pub trim_left-solid : (c : ℕ) (s : Text) → is_space c ≡ false → trim_left (c ∷ s) ≡ c ∷ s
unfolding trim_left
trim_left-solid c s h = ground (arith, h)

length-trim_left : (s : Text) → length (trim_left s) ≤ length s
unfolding trim_left
length-trim_left [] = omega arith
length-trim_left (c ∷ s) = elim (Bool-cases (is_space c)) [
  | inl e ↦ rw e (omega (arith, length-trim_left s))
  | inr e ↦ rw e (omega arith)
]

length-trim_right : (s : Text) → length (trim_right s) ≤ length s
unfolding trim_right
length-trim_right [] = omega arith
length-trim_right (c ∷ s) = elim (Bool-cases (is_space c && is_empty (trim_right s))) [
  | inl e ↦ rw e (omega arith)
  | inr e ↦ rw e (omega (arith, length-trim_right s))
]

trim_left-space : (c : ℕ) (s : Text) → is_space c ≡ true → trim_left (c ∷ s) ≡ trim_left s
unfolding trim_left
trim_left-space c s h = ground (arith, h)

-- A text that trimming leaves as it is starts with no space, and trimming its end leaves it too.
pub trim_space-fixed :
    (c : ℕ) (s : Text)
    → trim_space (c ∷ s) ≡ c ∷ s
    → (is_space c ≡ false) × (trim_right (c ∷ s) ≡ c ∷ s)
unfolding trim_space
trim_space-fixed c s h = elim (Bool-cases (is_space c)) [
  | inl e ↦ absurd (
      omega (
        arith,
        ap length h,
        length-trim_right (trim_left (c ∷ s)),
        ap length (trim_left-space c s e),
        length-trim_left s,
      ))
  | inr e ↦ (e, ap trim_right (sym (trim_left-solid c s e)) ∙ h)
]

pub trim_space-solid :
    (c : ℕ) (s : Text)
    → is_space c ≡ false
    → trim_right (c ∷ s) ≡ c ∷ s
    → trim_space (c ∷ s) ≡ c ∷ s
unfolding trim_space
trim_space-solid c s h r = ap trim_right (trim_left-solid c s h) ∙ r
