-- ===== src/Paths/Repeating.antt =====
-- Normalising again (`NormalizeFolderPath` of pkg/opendrive/path.go).
use opendrive_bridge.Common.{
  ℕ, ◌≡◌, refl, sym, ap, subst, ◌∙◌, false, ◌||◌, List, [], ◌∷◌, ◌++◌, map, any, filter, filter-All,
  All, ◌==◌, inl, inr, Bool-cases, good,
}
use opendrive_bridge.Common.Text.{
  Text, is_empty, text_eq, eq_of_text_eq, has_prefix, is_space, trim_left, trim_right, trim_space,
  slash,
}
use opendrive_bridge.Paths.{
  onto, split_slash, join_slash, dot, is_kept, clean_rooted, trim_segments, root, has_dot_dot,
  rooted, check_clean, normalize_folder_path,
}
use opendrive_bridge.Paths.Segments.{trim_space-All}
use opendrive_bridge.Paths.Canonical.{IsCanonical, clean-IsCanonical, canonical_fixed}
use opendrive_bridge.Paths.Agreement.{normalize_good, check_clean-good, slash_stays, slash_no_dot}

-- What holds of all code points of a path, and of the slash, holds of the path that is made of it.
module _ (P : ℕ → Type 0) (slash_too : P slash) where
  split-All : (p : Text) → All P p → All (All P) (split_slash p)
  unfolding split_slash
  split-All [] h = (tt, tt)
  split-All (c ∷ s) h = elim (Bool-cases (c == slash)) [
    | inl e ↦ rw e (tt, split-All s h.1)
    | inr e ↦ rw e (onto-All c (split_slash s) h.0 (split-All s h.1))
  ]
    where
      onto-All : (c : ℕ) (ts : List Text) → P c → All (All P) ts → All (All P) (onto c ts)
      onto-All c [] k h = ((k, tt), tt)
      onto-All c (t ∷ ts) k h = ((k, h.0), h.1)

  append-All : (s t : Text) → All P s → All P t → All P (s ++ t)
  append-All [] t h k = k
  append-All (c ∷ s) t h k = (h.0, append-All s t h.1 k)

  join-All : (ts : List Text) → All (All P) ts → All P (join_slash ts)
  unfolding join_slash
  join-All [] h = tt
  join-All (t ∷ []) h = h.0
  join-All (t ∷ u ∷ ts) h =
      append-All t (slash ∷ join_slash (u ∷ ts)) h.0 (slash_too, join-All (u ∷ ts) h.1)

  trims-All : (ts : List Text) → All (All P) ts → All (All P) (map trim_space ts)
  trims-All [] h = tt
  trims-All (t ∷ ts) h = (trim_space-All P t h.0, trims-All ts h.1)

  clean-All : (p : Text) → All P p → All P (clean_rooted (trim_segments p))
  unfolding clean_rooted trim_segments
  clean-All p h =
      let ts = map trim_space (split_slash p) in
      let again =
        split-All (join_slash ts) (join-All ts (trims-All (split_slash p) (split-All p h))) in
      (
        slash_too,
        join-All (filter is_kept (split_slash (join_slash ts))) (
            filter-All {P = All P} {Q = All P} is_kept (λ t k b. k) (split_slash (join_slash ts))
              again),
      )

  rooted-All : (p : Text) → All P p → All P (rooted p)
  unfolding rooted
  rooted-All p h = elim (Bool-cases (has_prefix p root)) [
    | inl b ↦ rw b h
    | inr b ↦ rw b (slash_too, h)
  ]

NotNull : ℕ → Type 0
NotNull c = (c == 0) ≡ false

NotNull-of : (p : Text) → any (λ c. c == 0) p ≡ false → All NotNull p
unfolding NotNull
NotNull-of [] h = tt
NotNull-of (c ∷ p) h = elim (Bool-cases (c == 0)) [
  | inl b ↦ absurd (cc (h, b))
  | inr b ↦ (b, NotNull-of p (sym (rest b) ∙ h))
]
  where
    rest : (c == 0) ≡ false → any (λ d. d == 0) (c ∷ p) ≡ any (λ d. d == 0) p
    rest b = rw b refl

NotNull-none : (p : Text) → All NotNull p → any (λ c. c == 0) p ≡ false
unfolding NotNull
NotNull-none [] h = refl
NotNull-none (c ∷ p) h = rw (h.0) (NotNull-none p h.1)

-- The steps for a canonical path that is not the root.
steps :
    (p : Text)
    → any (λ c. c == 0) p ≡ false
    → (is_empty (trim_space p) || text_eq p root || text_eq p dot) ≡ false
    → has_dot_dot (trim_segments (rooted p)) ≡ false
    → normalize_folder_path p ≡ check_clean (clean_rooted (trim_segments (rooted p)))
unfolding normalize_folder_path
steps p z b d = rw z (rw b (rw d refl))

pub root_stays : normalize_folder_path root ≡ good root
unfolding normalize_folder_path trim_space trim_left trim_right is_space text_eq
root_stays = refl

rooted-slash : (s : Text) → rooted (slash ∷ s) ≡ slash ∷ s
unfolding rooted has_prefix
rooted-slash s = refl

-- Normalising a path that the library has normalised changes nothing.
pub normalize_idem :
    (p q : Text) → normalize_folder_path p ≡ good q → normalize_folder_path q ≡ good q
normalize_idem p q h = elim (normalize_good p q h).1 [
  | inl (b, e) ↦ ap normalize_folder_path e ∙ (root_stays ∙ ap good (sym e))
  | inr (d, c) ↦
      let (e, found) = check_clean-good (clean_rooted (trim_segments (rooted p))) q c in
      let (ts, shape, segs) = subst IsCanonical e (clean-IsCanonical (rooted p) d) in
      let x = slash ∷ join_slash ts in
      let (t, dots, clean) = canonical_fixed ts segs in
      let no_null : any (λ u. u == 0) x ≡ false = NotNull-none x (
        subst (All NotNull) (e ∙ shape) (
          clean-All NotNull slash_not_null (rooted p)
            (rooted-All NotNull slash_not_null p (NotNull-of p (normalize_good p q h).0)))) in
      let r = rooted-slash (join_slash ts) in
      let at_last : clean_rooted (trim_segments (rooted x)) ≡ x =
        ap (λ u. clean_rooted (trim_segments u)) r ∙ (ap clean_rooted t ∙ clean) in
      let checked : check_clean x ≡ good x =
        ap check_clean (sym (e ∙ shape)) ∙ (c ∙ ap good shape) in
      elim (Bool-cases (text_eq x root)) [
        | inl b ↦
            let y = shape ∙ eq_of_text_eq x root b in
            ap normalize_folder_path y ∙ (root_stays ∙ ap good (sym y))
        | inr b ↦
            ap normalize_folder_path shape
            ∙ (steps x no_null (not_blank (join_slash ts) b)
                  (ap (λ u. has_dot_dot (trim_segments u)) r ∙ (ap has_dot_dot t ∙ dots))
                ∙ (ap check_clean at_last ∙ (checked ∙ ap good (sym shape))))
      ]
]
  where
    slash_not_null : NotNull slash
    slash_not_null = unfold NotNull in refl

    not_blank :
        (s : Text)
        → text_eq (slash ∷ s) root ≡ false
        → (is_empty (trim_space (slash ∷ s)) || text_eq (slash ∷ s) root || text_eq (slash ∷ s) dot)
          ≡ false
    not_blank s b = rw (slash_stays s) (rw b (slash_no_dot s))
