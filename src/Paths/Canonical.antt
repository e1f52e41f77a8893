-- ===== src/Paths/Canonical.antt =====
-- The canonical form of paths (`NormalizeFolderPath` of pkg/opendrive/path.go and `normalisePath` of
-- internal/server/paths.go).
use opendrive_bridge.Common.{
  ◌≡◌, refl, sym, ap, ◌∙◌, Bool, true, false, ◌||◌, List, [], ◌∷◌, map, any, filter, filter-All,
  All, ◌==◌,
}
use opendrive_bridge.Common.Text.{Text, text_eq, trim_left, trim_right, trim_space, slash}
use opendrive_bridge.Paths.{
  split_slash, join_slash, dot_dot, is_kept, clean_rooted, trim_segments, has_dot_dot,
}
use opendrive_bridge.Paths.Segments.{
  SlashFree, trim_space_idem, split-SlashFree, split-join, split-trim_segments, trim_space-All,
}

-- A segment of a canonical path: not empty, no `.` and no `..`, without a slash, and trimmed.
pub record Segment (t : Text) : Type 0 where
  pub free : SlashFree t
  pub kept : is_kept t ≡ true
  pub no_dots : text_eq t dot_dot ≡ false
  pub trimmed : trim_space t ≡ t

-- The segments of a canonical path: one slash in front of each, and the root has none.
abbrev pub IsCanonical : Text → Type 0
IsCanonical q = (ts : List Text) × (q ≡ slash ∷ join_slash ts) × All Segment ts

Half : Text → Type 0
Half t = SlashFree t × (text_eq t dot_dot ≡ false) × (trim_space t ≡ t)

trimmed-Half :
    (ts : List Text)
    → All SlashFree ts
    → any (λ t. text_eq t dot_dot) (map trim_space ts) ≡ false
    → All Half (map trim_space ts)
unfolding Half
trimmed-Half [] h n = tt
trimmed-Half (t ∷ ts) h n = (
  (
    trim_space-All (λ c. (c == slash) ≡ false) t h.0,
    or_left (text_eq (trim_space t) dot_dot) (any (λ u. text_eq u dot_dot) (map trim_space ts)) n,
    trim_space_idem t,
  ),
  trimmed-Half ts h.1 (
      or_right (text_eq (trim_space t) dot_dot) (any (λ u. text_eq u dot_dot) (map trim_space ts))
        n),
)
  where
    or_left : (a b : Bool) → (a || b) ≡ false → a ≡ false
    or_left false b h = refl
    or_left true b h = absurd (cc h)

    or_right : (a b : Bool) → (a || b) ≡ false → b ≡ false
    or_right false b h = h
    or_right true b h = absurd (cc h)

-- What the cleaning of trimmed segments without `..` gives.
pub clean-IsCanonical :
    (p : Text)
    → has_dot_dot (trim_segments p) ≡ false
    → IsCanonical (clean_rooted (trim_segments p))
unfolding clean_rooted has_dot_dot
clean-IsCanonical p h =
    let ts = map trim_space (split_slash p) in
    let e = split-trim_segments p in
    let halves =
      trimmed-Half (split_slash p) (split-SlashFree p)
        (ap (any (λ t. text_eq t dot_dot)) (sym e) ∙ h) in
    (
      filter is_kept ts,
      ap (λ l. slash ∷ join_slash (filter is_kept l)) e,
      filter-All {P = Half} {Q = Segment} is_kept
          (λ t half k.
            unfold Half in record { free = half.0; kept = k; no_dots = half.1; trimmed = half.2 })
          ts halves,
    )

abbrev pieces : List Text → List Text
pieces [] = [] ∷ []
pieces (t ∷ ts) = t ∷ ts

frees : (ts : List Text) → All Segment ts → All SlashFree ts
frees [] h = tt
frees (t ∷ ts) h = (h.0.free, frees ts h.1)

pub split-tail : (ts : List Text) → All Segment ts → split_slash (join_slash ts) ≡ pieces ts
unfolding split_slash join_slash
split-tail [] h = refl
split-tail (t ∷ ts) h = split-join t ts (frees (t ∷ ts) h)

split-canonical :
    (ts : List Text) → All Segment ts → split_slash (slash ∷ join_slash ts) ≡ [] ∷ pieces ts
unfolding split_slash
split-canonical ts h = ap (λ l. [] ∷ l) (split-tail ts h)

map-trimmed : (ts : List Text) → All Segment ts → map trim_space ts ≡ ts
map-trimmed [] h = refl
map-trimmed (t ∷ ts) h = rw (h.0.trimmed) (ap (λ l. t ∷ l) (map-trimmed ts h.1))

trim_nothing : trim_space [] ≡ []
unfolding trim_space trim_left trim_right
trim_nothing = refl

trimmed-pieces : (ts : List Text) → All Segment ts → map trim_space (pieces ts) ≡ pieces ts
trimmed-pieces [] h = rw trim_nothing refl
trimmed-pieces (t ∷ ts) h = map-trimmed (t ∷ ts) h

join-pieces : (ts : List Text) → join_slash ([] ∷ pieces ts) ≡ slash ∷ join_slash ts
unfolding join_slash
join-pieces [] = refl
join-pieces (t ∷ ts) = refl

Segment-filter : (ts : List Text) → All Segment ts → filter is_kept ts ≡ ts
Segment-filter [] h = refl
Segment-filter (t ∷ ts) h = rw (h.0.kept) (ap (λ l. t ∷ l) (Segment-filter ts h.1))

kept-pieces : (ts : List Text) → All Segment ts → filter is_kept ([] ∷ pieces ts) ≡ ts
kept-pieces [] h = unfold is_kept in refl
kept-pieces (t ∷ ts) h = rw nothing_kept (Segment-filter (t ∷ ts) h)
  where
    nothing_kept : is_kept [] ≡ false
    nothing_kept = unfold is_kept in refl

no_dots-pieces :
    (ts : List Text) → All Segment ts → any (λ t. text_eq t dot_dot) (pieces ts) ≡ false
no_dots-pieces [] h = unfold text_eq in refl
no_dots-pieces (t ∷ []) h = rw (h.0.no_dots) refl
no_dots-pieces (t ∷ u ∷ ts) h = rw (h.0.no_dots) (no_dots-pieces (u ∷ ts) h.1)

-- A canonical path is what the three steps make of it.
pub canonical_fixed :
    (ts : List Text)
    → All Segment ts
    → (let q = slash ∷ join_slash ts in
        (trim_segments q ≡ q) × (has_dot_dot q ≡ false) × (clean_rooted q ≡ q))
unfolding trim_segments has_dot_dot clean_rooted
canonical_fixed ts h =
    let e = split-canonical ts h in
    (
      ap (λ l. join_slash (map trim_space l)) e
          ∙ (ap join_slash (
                ap (λ l. l ∷ map trim_space (pieces ts)) trim_nothing
                ∙ ap (λ l. [] ∷ l) (trimmed-pieces ts h))
              ∙ join-pieces ts),
      ap (any (λ t. text_eq t dot_dot)) e ∙ (unfold text_eq in no_dots-pieces ts h),
      ap (λ l. slash ∷ join_slash (filter is_kept l)) e
          ∙ ap (λ l. slash ∷ join_slash l) (kept-pieces ts h),
    )
