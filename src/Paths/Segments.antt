-- ===== src/Paths/Segments.antt =====
-- Segments of a path (`strings.Split`, `strings.Join` and `strings.TrimSpace` in
-- pkg/opendrive/path.go and internal/server/paths.go).
use opendrive_bridge.Common.{
  ℕ, ◌≡◌, ◌⊎◌, refl, sym, ap, subst, ◌∙◌, false, ◌&&◌, List, [], ◌∷◌, ◌++◌, map, All, ◌==◌, inl,
  inr, Bool-cases,
}
use opendrive_bridge.Common.Text.{
  Text, is_empty, is_space, trim_left, trim_right, trim_space, slash,
}
use opendrive_bridge.Keystore.Trimming.{trim_left-solid, trim_right-solid}
use opendrive_bridge.Paths.{onto, split_slash, join_slash, trim_segments}

abbrev pub SlashFree : Text → Type 0
SlashFree t = All (λ c. (c == slash) ≡ false) t

-- Trimming keeps what holds of all code points.
module _ (P : ℕ → Type 0) where
  trim_left-All : (s : Text) → All P s → All P (trim_left s)
  unfolding trim_left
  trim_left-All [] h = tt
  trim_left-All (c ∷ s) h = elim (Bool-cases (is_space c)) [
    | inl e ↦ rw e (trim_left-All s h.1)
    | inr e ↦ rw e h
  ]

  trim_right-All : (s : Text) → All P s → All P (trim_right s)
  unfolding trim_right
  trim_right-All [] h = tt
  trim_right-All (c ∷ s) h = elim (Bool-cases (is_space c && is_empty (trim_right s))) [
    | inl e ↦ rw e tt
    | inr e ↦ rw e (h.0, trim_right-All s h.1)
  ]

  pub trim_space-All : (s : Text) → All P s → All P (trim_space s)
  unfolding trim_space
  trim_space-All s h = trim_right-All (trim_left s) (trim_left-All s h)

trim_right_idem : (s : Text) → trim_right (trim_right s) ≡ trim_right s
unfolding trim_right
trim_right_idem [] = refl
trim_right_idem (c ∷ s) = elim (Bool-cases (is_space c && is_empty (trim_right s))) [
  | inl e ↦ rw e refl
  | inr e ↦ rw e (rw (trim_right_idem s) (rw e refl))
]

-- A text trimmed at its left is empty or starts with no space.
trim_left-cases :
    (s : Text)
    → (trim_left s ≡ []) ⊎ ((c : ℕ) × ((t : Text) × (trim_left s ≡ c ∷ t) × (is_space c ≡ false)))
unfolding trim_left
trim_left-cases [] = inl refl
trim_left-cases (c ∷ s) = elim (Bool-cases (is_space c)) [
  | inl e ↦ rw e (trim_left-cases s)
  | inr e ↦ inr (c, (s, rw e refl, e))
]

pub trim_space_idem : (s : Text) → trim_space (trim_space s) ≡ trim_space s
unfolding trim_space
trim_space_idem s = elim (trim_left-cases s) [
  | inl e ↦ rw e (trim_nothing)
  | inr (c, (t, e, solid)) ↦
      let whole : trim_right (trim_left s) ≡ c ∷ trim_right t =
        ap trim_right e ∙ trim_right-solid c t solid in
      ap (λ u. trim_right (trim_left u)) whole
      ∙ (ap trim_right (trim_left-solid c (trim_right t) solid)
          ∙ (trim_right-solid c (trim_right t) solid
              ∙ (ap (λ u. c ∷ u) (trim_right_idem t) ∙ sym whole)))
]
  where
    trim_nothing : trim_right (trim_left (trim_right [])) ≡ trim_right []
    trim_nothing = unfold trim_right trim_left in refl

-- The segments of a path have no slash.
pub split-SlashFree : (p : Text) → All SlashFree (split_slash p)
unfolding split_slash
split-SlashFree [] = (tt, tt)
split-SlashFree (c ∷ s) = elim (Bool-cases (c == slash)) [
  | inl e ↦ rw e (tt, split-SlashFree s)
  | inr e ↦ rw e (onto-SlashFree c (split_slash s) e (split-SlashFree s))
]
  where
    onto-SlashFree :
        (c : ℕ) (ts : List Text)
        → (c == slash) ≡ false
        → All SlashFree ts
        → All SlashFree (onto c ts)
    onto-SlashFree c [] e h = ((e, tt), tt)
    onto-SlashFree c (t ∷ ts) e h = ((e, h.0), h.1)

split-one : (t : Text) → SlashFree t → split_slash t ≡ t ∷ []
unfolding split_slash
split-one [] h = refl
split-one (c ∷ t) h = rw (h.0) (ap (onto c) (split-one t h.1))

split-more : (t s : Text) → SlashFree t → split_slash (t ++ (slash ∷ s)) ≡ t ∷ split_slash s
unfolding split_slash
split-more [] s h = refl
split-more (c ∷ t) s h = rw (h.0) (ap (onto c) (split-more t s h.1))

-- Splitting what was joined gives the segments back.
pub split-join :
    (t : Text) (ts : List Text)
    → All SlashFree (t ∷ ts)
    → split_slash (join_slash (t ∷ ts)) ≡ t ∷ ts
unfolding join_slash
split-join t [] h = split-one t h.0
split-join t (u ∷ ts) h =
    split-more t (join_slash (u ∷ ts)) h.0 ∙ ap (λ l. t ∷ l) (split-join u ts h.1)

split-cases : (p : Text) → (t : Text) × ((ts : List Text) × (split_slash p ≡ t ∷ ts))
unfolding split_slash
split-cases [] = ([], ([], refl))
split-cases (c ∷ s) = elim (Bool-cases (c == slash)) [
  | inl e ↦ ([], (split_slash s, rw e refl))
  | inr e ↦ let (t, (ts, h)) = split-cases s in (c ∷ t, (ts, rw e (ap (onto c) h)))
]

map-trim-SlashFree : (ts : List Text) → All SlashFree ts → All SlashFree (map trim_space ts)
map-trim-SlashFree [] h = tt
map-trim-SlashFree (t ∷ ts) h =
    (trim_space-All (λ c. (c == slash) ≡ false) t h.0, map-trim-SlashFree ts h.1)

-- The segments of a path whose segments were trimmed.
pub split-trim_segments :
    (p : Text) → split_slash (trim_segments p) ≡ map trim_space (split_slash p)
unfolding trim_segments
split-trim_segments p =
    let (t, (ts, e)) = split-cases p in
    let free = map-trim-SlashFree (split_slash p) (split-SlashFree p) in
    ap (λ l. split_slash (join_slash (map trim_space l))) e
    ∙ (split-join (trim_space t) (map trim_space ts)
          (subst (λ l. All SlashFree (map trim_space l)) e free)
        ∙ ap (map trim_space) (sym e))
