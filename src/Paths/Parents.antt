-- ===== src/Paths/Parents.antt =====
-- The parent of a canonical path (`ParentPath` of pkg/opendrive/path.go, `joinPath` of
-- internal/server/paths.go).
use mathlib.Core.List.{append-nil, append_assoc}
use opendrive_bridge.Common.{
  ℕ, ◌<◌, ◌≡◌, ◌≢◌, refl, sym, ap, ◌∙◌, true, false, none, some, List, [], ◌∷◌, ◌++◌, All, arith,
  length, length-append,
}
use opendrive_bridge.Common.Text.{Text, text_eq, slash}
use opendrive_bridge.Paths.{join_slash, root, cut_last, parent_of, parent_path, join_path, is_kept}
use opendrive_bridge.Paths.Segments.{SlashFree}
use opendrive_bridge.Paths.Canonical.{Segment, IsCanonical}

-- All segments but the last, behind one given, and the last.
abbrev pub inner : Text → List Text → List Text
inner t [] = []
inner t (u ∷ us) = t ∷ inner u us

abbrev pub final : Text → List Text → Text
final t [] = t
final t (u ∷ us) = final u us

-- The text of the segments in front of the last slash.
abbrev pub front : List Text → Text
front [] = []
front (t ∷ ts) = slash ∷ join_slash (t ∷ ts)

cut_last-free : (t : Text) → SlashFree t → cut_last t ≡ none
unfolding cut_last
cut_last-free [] h = refl
cut_last-free (c ∷ t) h = rw (cut_last-free t h.1) (rw (h.0) refl)

cut_last-append : (t s d l : Text) → cut_last s ≡ some (d, l) → cut_last (t ++ s) ≡ some (t ++ d, l)
unfolding cut_last
cut_last-append [] s d l h = h
cut_last-append (c ∷ t) s d l h = rw (cut_last-append t s d l h) refl

cut_last-single : (t : Text) → SlashFree t → cut_last (slash ∷ t) ≡ some ([], t)
unfolding cut_last
cut_last-single t h = rw (cut_last-free t h) refl

front-more : (t : Text) (ts : List Text) → slash ∷ (t ++ front ts) ≡ front (t ∷ ts)
unfolding join_slash
front-more t [] = ap (λ s. slash ∷ s) (append-nil t)
front-more t (u ∷ us) = refl

cut_last-onto :
    (c : ℕ) (s d l : Text) → cut_last s ≡ some (d, l) → cut_last (c ∷ s) ≡ some (c ∷ d, l)
unfolding cut_last
cut_last-onto c s d l h = rw h refl

pub cut_last-join :
    (t : Text) (ts : List Text)
    → All Segment (t ∷ ts)
    → cut_last (slash ∷ join_slash (t ∷ ts)) ≡ some (front (inner t ts), final t ts)
unfolding join_slash
cut_last-join t [] h = cut_last-single t h.0.free
cut_last-join t (u ∷ us) h =
    let rest = cut_last-join u us h.1 in
    cut_last-onto slash (t ++ (slash ∷ join_slash (u ∷ us))) (t ++ front (inner u us)) (final u us)
      (cut_last-append t (slash ∷ join_slash (u ∷ us)) (front (inner u us)) (final u us) rest)
    ∙ ap (λ d. some (d, final u us)) (front-more t (inner u us))

inner-All : (t : Text) (ts : List Text) → All Segment (t ∷ ts) → All Segment (inner t ts)
inner-All t [] h = tt
inner-All t (u ∷ us) h = (h.0, inner-All u us h.1)

pub final-Segment : (t : Text) (ts : List Text) → All Segment (t ∷ ts) → Segment (final t ts)
final-Segment t [] h = h.0
final-Segment t (u ∷ us) h = final-Segment u us h.1

-- The parent with the name of the last segment.
abbrev pub parent_text : List Text → Text
parent_text [] = root
parent_text (t ∷ ts) = slash ∷ join_slash (t ∷ ts)

-- A canonical path with a segment is not the root.
pub not_root :
    (t : Text) (ts : List Text) → Segment t → text_eq (slash ∷ join_slash (t ∷ ts)) root ≡ false
unfolding text_eq join_slash
not_root [] ts h = absurd (empty_kept h.kept)
  where
    empty_kept : is_kept [] ≢ true
    empty_kept k = unfold is_kept in cc k
not_root (c ∷ t) [] h = refl
not_root (c ∷ t) (u ∷ us) h = refl

-- The parent of a path with segments is the path of all but the last, which is the name.
pub parent_path-join :
    (t : Text) (ts : List Text)
    → All Segment (t ∷ ts)
    → parent_path (slash ∷ join_slash (t ∷ ts)) ≡ (parent_text (inner t ts), final t ts)
unfolding parent_path
parent_path-join t ts h =
    rw (not_root t ts h.0)
      (ap (parent_of (slash ∷ join_slash (t ∷ ts))) (cut_last-join t ts h) ∙ named t ts)
  where
    named :
        (t : Text) (ts : List Text)
        → parent_of (slash ∷ join_slash (t ∷ ts)) (some (front (inner t ts), final t ts))
          ≡ (parent_text (inner t ts), final t ts)
    named t [] = unfold join_slash in refl
    named t (u ∷ us) = refl

pub parent-IsCanonical :
    (t : Text) (ts : List Text) → All Segment (t ∷ ts) → IsCanonical (parent_text (inner t ts))
parent-IsCanonical t [] h = ([], unfold join_slash in refl, tt)
parent-IsCanonical t (u ∷ us) h = (inner t (u ∷ us), refl, inner-All t (u ∷ us) h)

join-inner :
    (t u : Text) (us : List Text)
    → join_slash (inner t (u ∷ us)) ++ (slash ∷ final t (u ∷ us)) ≡ join_slash (t ∷ u ∷ us)
unfolding join_slash
join-inner t u [] = refl
join-inner t u (v ∷ vs) =
    append_assoc t (slash ∷ join_slash (inner u (v ∷ vs))) (slash ∷ final u (v ∷ vs))
    ∙ ap (λ s. t ++ (slash ∷ s)) (join-inner u v vs)

-- A canonical path that is not the root is the path of its name in its parent.
pub join_path-parent_path :
    (q : Text)
    → IsCanonical q
    → text_eq q root ≡ false
    → join_path (parent_path q).0 (parent_path q).1 ≡ q
join_path-parent_path q ([], e, h) n = absurd (cc (n, ap (λ x. text_eq x root) e, root_same))
  where
    root_same : text_eq (slash ∷ join_slash []) root ≡ true
    root_same = unfold text_eq join_slash in refl
join_path-parent_path q (t ∷ ts, e, h) n =
    ap (λ x. join_path (parent_path x).0 (parent_path x).1) e
    ∙ (ap (λ x. join_path x.0 x.1) (parent_path-join t ts h) ∙ (joined t ts h ∙ sym e))
  where
    joined :
        (t : Text) (ts : List Text)
        → All Segment (t ∷ ts)
        → join_path (parent_text (inner t ts)) (final t ts) ≡ slash ∷ join_slash (t ∷ ts)
    joined t [] h = unfold join_path text_eq join_slash in rw (h.0.trimmed) refl
    joined t (u ∷ us) h =
        unfold join_path in
        rw ((final-Segment t (u ∷ us) h).trimmed)
          (rw (not_root t (inner u us) h.0) (ap (λ s. slash ∷ s) (join-inner t u us)))

kept_long : (t : Text) → is_kept t ≡ true → 1 < length (slash ∷ join_slash (t ∷ []))
unfolding is_kept join_slash
kept_long [] k = absurd (cc k)
kept_long (c ∷ t) k = omega arith

-- The parent is shorter.
pub parent-lt :
    (t : Text) (ts : List Text)
    → All Segment (t ∷ ts)
    → length (parent_text (inner t ts)) < length (slash ∷ join_slash (t ∷ ts))
parent-lt t [] h = kept_long t h.0.kept
parent-lt t (u ∷ us) h = omega (
  arith,
  ap length (join-inner t u us),
  length-append (join_slash (inner t (u ∷ us))) (slash ∷ final t (u ∷ us)),
)
