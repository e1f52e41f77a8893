-- ===== src/Paths/Agreement.antt =====
-- The server and the library name the same folder by the same path (`normalisePath` of
-- internal/server/paths.go, `NormalizeFolderPath` of pkg/opendrive/path.go).
use opendrive_bridge.Common.{
  ℕ, ◌≡◌, ◌≢◌, ◌⊎◌, refl, sym, ap, subst, ◌∙◌, Bool, true, false, ◌||◌, none, [], ◌∷◌, any, arith,
  ◌==◌, if◌then◌else◌, inl, inr, Bool-cases, Option-cases, Answer, good, bad, good_inj, bad≢good,
}
use opendrive_bridge.Common.Text.{
  Text, is_empty, text_eq, eq_of_text_eq, has_prefix, is_space, trim_right, trim_space, slash,
}
use opendrive_bridge.Keystore.Trimming.{trim_left-solid, trim_right-solid}
use opendrive_bridge.Paths.{
  PathError, traversal, split_slash, join_slash, dot, clean_rooted, trim_segments, root,
  has_dot_dot, drop_slash, rooted, check_segments, check_clean, normalize_folder_path, server_path,
}
use opendrive_bridge.Paths.Canonical.{IsCanonical, clean-IsCanonical, canonical_fixed}

-- What the server makes of a path with a slash in front.
server_of :
    (p : Text)
    → has_prefix p root ≡ true
    → server_path p ≡ (
        if has_dot_dot (trim_segments p)
        then bad traversal
        else good (clean_rooted (trim_segments p)))
unfolding server_path has_prefix
server_of [] h = absurd (cc h)
server_of (c ∷ s) h = rw h refl

pub server_path-canonical : (q : Text) → IsCanonical q → server_path q ≡ good q
server_path-canonical q (ts, e, h) =
    let (t, d, c) = canonical_fixed ts h in
    let p = slash ∷ join_slash ts in
    let first : has_prefix p root ≡ true = unfold has_prefix in refl in
    let dots : has_dot_dot (trim_segments p) ≡ false = ap has_dot_dot t ∙ d in
    let clean : clean_rooted (trim_segments p) ≡ p = ap clean_rooted t ∙ c in
    subst (λ x. server_path x ≡ good x) (sym e) (server_of p first ∙ rw dots (ap good clean))

no_slash : (p q : Text) → has_prefix p root ≡ false → server_path p ≢ good q
unfolding server_path
no_slash [] q b = λ h. bad≢good h
no_slash (c ∷ s) q b = rw b (λ h. bad≢good h)

-- A path that the server accepts becomes canonical: a slash in front of each segment, and no segment
-- is empty, `.` or `..`, or starts or ends with a space. Normalising it again changes nothing.
pub server_path-IsCanonical :
    (p q : Text) → server_path p ≡ good q → IsCanonical q × (server_path q ≡ good q)
server_path-IsCanonical p q h = elim (Bool-cases (has_prefix p root)) [
  | inr b ↦ absurd (no_slash p q b h)
  | inl b ↦ elim (Bool-cases (has_dot_dot (trim_segments p))) [
    | inl d ↦ absurd (bad≢good (sym (refused d) ∙ (sym (server_of p b) ∙ h)))
    | inr d ↦
        let e = good_inj (sym (accepted d) ∙ (sym (server_of p b) ∙ h)) in
        let c : IsCanonical q = subst IsCanonical e (clean-IsCanonical p d) in
        (c, server_path-canonical q c)
  ]
]
  where
    made : Answer PathError Text
    made =
        if has_dot_dot (trim_segments p)
        then bad traversal
        else good (clean_rooted (trim_segments p))

    refused : has_dot_dot (trim_segments p) ≡ true → made ≡ bad traversal
    refused d = rw d refl

    accepted : has_dot_dot (trim_segments p) ≡ false → made ≡ good (clean_rooted (trim_segments p))
    accepted d = rw d refl

-- What the library accepts: the root, or the cleaned path.
pub check_clean-good :
    (q r : Text)
    → check_clean q ≡ good r
    → (q ≡ r) × ((q ≡ root) ⊎ (check_segments (split_slash (drop_slash q)) ≡ none))
unfolding check_clean
check_clean-good q r = elim (Bool-cases (text_eq q root)) [
  | inl b ↦ let e = eq_of_text_eq q root b in rw b (λ h. (e ∙ good_inj h, inl e))
  | inr b ↦ elim (Option-cases (check_segments (split_slash (drop_slash q)))) [
    | inr (f, c) ↦ rw b (rw c (λ h. absurd (bad≢good h)))
    | inl c ↦ rw b (rw c (λ h. (good_inj h, inr refl)))
  ]
]

-- The library's steps for a path that is not blank.
pub normalize_good :
    (p q : Text)
    → normalize_folder_path p ≡ good q
    → (any (λ c. c == 0) p ≡ false)
      × (((is_empty (trim_space p) || text_eq p root || text_eq p dot) ≡ true) × (q ≡ root)
          ⊎ ((has_dot_dot (trim_segments (rooted p)) ≡ false)
              × (check_clean (clean_rooted (trim_segments (rooted p))) ≡ good q)))
unfolding normalize_folder_path
normalize_good p q = elim (Bool-cases (any (λ c. c == 0) p)) [
  | inl z ↦ rw z (λ h. absurd (bad≢good h))
  | inr z ↦ elim (Bool-cases (is_empty (trim_space p) || text_eq p root || text_eq p dot)) [
    | inl b ↦ rw z (rw b (λ h. (refl, inl (refl, sym (good_inj h)))))
    | inr b ↦ elim (Bool-cases (has_dot_dot (trim_segments (rooted p)))) [
      | inl d ↦ rw z (rw b (rw d (λ h. absurd (bad≢good h))))
      | inr d ↦ rw z (rw b (rw d (λ h. (refl, inr (refl, h)))))
    ]
  ]
]

root-IsCanonical : IsCanonical root
root-IsCanonical = ([], unfold join_slash in refl, tt)

rooted_same : (p : Text) → has_prefix p root ≡ true → rooted p ≡ p
unfolding rooted
rooted_same p h = rw h refl

first_slash : (c : ℕ) (s : Text) → has_prefix (c ∷ s) root ≡ true → c ≡ slash
unfolding has_prefix
first_slash c s h = ground (arith, h)

pub slash_stays : (s : Text) → is_empty (trim_space (slash ∷ s)) ≡ false
unfolding trim_space
slash_stays s =
    ap (λ t. is_empty (trim_right t)) (trim_left-solid slash s solid)
    ∙ ap is_empty (trim_right-solid slash s solid)
  where
    solid : is_space slash ≡ false
    solid = unfold is_space in refl

pub slash_no_dot : (s : Text) → text_eq (slash ∷ s) dot ≡ false
unfolding text_eq
slash_no_dot s = refl

empty_no_root : has_prefix [] root ≢ true
unfolding has_prefix
empty_no_root h = cc h

-- A path with a slash in front is blank or the root only as the root.
only_root :
    (p : Text)
    → has_prefix p root ≡ true
    → (is_empty (trim_space p) || text_eq p root || text_eq p dot) ≡ true
    → p ≡ root
only_root [] s b = absurd (empty_no_root s)
only_root (c ∷ t) s b =
    let e = first_slash c t s in
    let b' : (is_empty (trim_space (slash ∷ t))
          || text_eq (slash ∷ t) root
          || text_eq (slash ∷ t) dot)
        ≡ true =
      ap (λ d. is_empty (trim_space (d ∷ t)) || text_eq (d ∷ t) root || text_eq (d ∷ t) dot) (sym e)
      ∙ b in
    rw e (eq_of_text_eq (slash ∷ t) root (middle (slash_stays t) (slash_no_dot t) b'))
  where
    middle : {x y z : Bool} → x ≡ false → z ≡ false → (x || y || z) ≡ true → y ≡ true
    middle h k b = ground (arith, h, k, b)

-- A path that the library accepts becomes canonical, and the server takes it as it is. Where the path
-- that was given starts with a slash, the server makes the same of it.
pub normalize-server_path :
    (p q : Text)
    → normalize_folder_path p ≡ good q
    → IsCanonical q × (server_path q ≡ good q) × (has_prefix p root ≡ true → server_path p ≡ good q)
normalize-server_path p q h = elim (normalize_good p q h).1 [
  | inl (b, e) ↦
      let c : IsCanonical q = subst IsCanonical (sym e) root-IsCanonical in
      (
        c,
        server_path-canonical q c,
        λ s.
            ap server_path (only_root p s b)
            ∙ (server_path-canonical root root-IsCanonical ∙ ap good (sym e)),
      )
  | inr (d, c) ↦
      let (e, found) = check_clean-good (clean_rooted (trim_segments (rooted p))) q c in
      let k : IsCanonical q = subst IsCanonical e (clean-IsCanonical (rooted p) d) in
      (
        k,
        server_path-canonical q k,
        λ s.
            let same = rooted_same p s in
            server_of p s
            ∙ (ap
                  (λ x.
                    if has_dot_dot (trim_segments x)
                    then bad traversal
                    else good (clean_rooted (trim_segments x)))
                  (sym same)
                ∙ no_traversal (rooted p) d e),
      )
]
  where
    no_traversal :
        (x : Text)
        → has_dot_dot (trim_segments x) ≡ false
        → clean_rooted (trim_segments x) ≡ q
        → ◌≡◌ {A = Answer PathError Text}
            (if has_dot_dot (trim_segments x)
              then bad traversal
              else good (clean_rooted (trim_segments x)))
            (good q)
    no_traversal x d e = rw d (ap good e)
