-- ===== src/Keystore/Quoting.antt =====
-- The escapes of quoted values (internal/keystore/env.go).
use opendrive_bridge.Common.{
  ℕ, ◌≡◌, refl, ap, ◌∙◌, false, [], ◌∷◌, arith, ◌==◌, inl, inr, Bool-cases, ==_iff,
}
use opendrive_bridge.Common.Text.{Text}
use opendrive_bridge.Keystore.Env.{
  replace_char, replace_pair, backslash, quote, escape_quoted, unescape_quoted,
}

-- The text with its backslashes doubled and its quotes as they were.
doubled : Text → Text
doubled s = replace_char backslash backslash backslash s

replace_pair-other :
    (a b r x : ℕ) (s : Text)
    → (x == a) ≡ false
    → replace_pair a b r (x ∷ s) ≡ x ∷ replace_pair a b r s
unfolding replace_pair
replace_pair-other a b r x [] h = refl
replace_pair-other a b r x (y ∷ s) h = ground arith

replace_pair-hit :
    (a b r : ℕ) (s : Text) → replace_pair a b r (a ∷ b ∷ s) ≡ r ∷ replace_pair a b r s
unfolding replace_pair
replace_pair-hit a b r s = ground (arith, ==_iff a a, ==_iff b b)

-- What is escaped does not start with a quote, so a backslash before it stands for itself.
unquote-backslash :
    (v : Text)
    → replace_pair backslash quote quote (backslash ∷ escape_quoted v)
      ≡ backslash ∷ replace_pair backslash quote quote (escape_quoted v)
unfolding escape_quoted replace_pair replace_char
unquote-backslash [] = refl
unquote-backslash (c ∷ v) = ground arith

unquote-backslashes :
    (s : Text)
    → replace_pair backslash quote quote (backslash ∷ backslash ∷ s)
      ≡ backslash ∷ replace_pair backslash quote quote (backslash ∷ s)
unfolding replace_pair
unquote-backslashes s = refl

-- The first pass of the reading leaves the backslashes doubled.
unquote-escape : (v : Text) → replace_pair backslash quote quote (escape_quoted v) ≡ doubled v
unfolding escape_quoted replace_char doubled
unquote-escape [] = unfold replace_pair in refl
unquote-escape (c ∷ v) = elim (Bool-cases (c == backslash)) [
  | inl e ↦ rw ((==_iff c backslash).0 e) (
      unquote-backslashes (escape_quoted v)
      ∙ (ap (λ x. backslash ∷ x) (unquote-backslash v)
          ∙ ap (λ x. backslash ∷ backslash ∷ x) (unquote-escape v)))
  | inr e ↦ elim (Bool-cases (c == quote)) [
    | inl q ↦ rw ((==_iff c quote).0 q) (
        replace_pair-hit backslash quote quote (escape_quoted v)
        ∙ ap (λ x. quote ∷ x) (unquote-escape v))
    | inr q ↦ rw e (
        rw q (
          replace_pair-other backslash quote quote c (escape_quoted v) e
          ∙ ap (λ x. c ∷ x) (unquote-escape v)))
  ]
]

undouble : (v : Text) → replace_pair backslash backslash backslash (doubled v) ≡ v
unfolding doubled replace_char
undouble [] = unfold replace_pair in refl
undouble (c ∷ v) = elim (Bool-cases (c == backslash)) [
  | inl e ↦ rw ((==_iff c backslash).0 e) (
      replace_pair-hit backslash backslash backslash (doubled v)
      ∙ ap (λ x. backslash ∷ x) (undouble v))
  | inr e ↦ rw e (
      replace_pair-other backslash backslash backslash c (doubled v) e
      ∙ ap (λ x. c ∷ x) (undouble v))
]

-- Reading what was escaped gives the value back, whatever it holds.
pub unescape-escape : (v : Text) → unescape_quoted (escape_quoted v) ≡ v
unfolding unescape_quoted
unescape-escape v = ap (replace_pair backslash backslash backslash) (unquote-escape v) ∙ undouble v
