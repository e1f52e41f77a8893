-- ===== src/Paths/Ensured.antt =====
-- Every `EnsurePath` comes to an end (pkg/opendrive/path.go).
use opendrive_bridge.Common.{
  ℕ, zero, suc, ◌+◌, ◌<◌, ◌≡◌, refl, sym, ap, subst, ◌∙◌, true, Option, none, some, List, [], ◌∷◌,
  All, arith, length, inl, inr, Bool-cases, good, bad, good_inj, Answer-cases,
}
use opendrive_bridge.Common.Text.{Text, text_eq, has_prefix, slash}
use opendrive_bridge.Paths.{join_slash, root, normalize_folder_path, parent_path, PathError}
use opendrive_bridge.Paths.Canonical.{Segment, IsCanonical}
use opendrive_bridge.Paths.Agreement.{normalize-server_path, server_path-canonical}
use opendrive_bridge.Paths.Repeating.{root_stays}
use opendrive_bridge.Paths.Parents.{
  inner, parent_text, parent_path-join, parent-IsCanonical, parent-lt,
}
use opendrive_bridge.Paths.Resolving.{
  FolderCalls, World, bad_path, Found, root_id, is_missing, resolve_clean, resolve_path,
  create_folder, made_folder, below_parent, unless_found, ensure_loop, ensure_path,
}

-- The library leaves a canonical path as it is, or refuses it.
canonical_kept : (q r : Text) → IsCanonical q → normalize_folder_path q ≡ good r → r ≡ q
canonical_kept q r (ts, e, h) n =
    let q' = slash ∷ join_slash ts in
    let first : has_prefix q root ≡ true = ap (λ x. has_prefix x root) e ∙ starts (join_slash ts) in
    good_inj (sym ((normalize-server_path q r n).2 first) ∙ server_path-canonical q (ts, e, h))
  where
    starts : (s : Text) → has_prefix (slash ∷ s) root ≡ true
    starts s = unfold has_prefix in refl

module _ {S : Type 0} (api : FolderCalls S) (now : ℕ) where
  Answered : Option (Found api now) → Type 0
  Answered o = (x : Found api now) × (o ≡ some x)

  unless_found-Answered :
      (x : Found api now) (o : Option (Found api now))
      → Answered o
      → Answered (unless_found api now x o)
  unfolding Answered
  unless_found-Answered (w, good id) o a = ((w, good id), refl)
  unless_found-Answered (w, bad e) o a = elim (Bool-cases (is_missing e)) [
    | inl b ↦ rw b a
    | inr b ↦ rw b ((w, bad e), refl)
  ]

  below_parent-Answered :
      (path name : Text) (o : Option (Found api now))
      → Answered o
      → Answered (below_parent api now path name o)
  unfolding Answered below_parent
  below_parent-Answered path name none (x, e) = absurd (cc e)
  below_parent-Answered path name (some (w, bad e)) a = ((w, bad e), refl)
  below_parent-Answered path name (some (w, good id)) a =
      (made_folder api now path (create_folder api now w name id), refl)

  accepted :
      (w : World S) (p q : Text)
      → normalize_folder_path p ≡ good q
      → resolve_path api now w p ≡ resolve_clean api now w q
  unfolding resolve_path
  accepted w p q h = rw (h, resolve_path) refl

  known : (w : World S) → resolve_clean api now w root ≡ (w, good root_id)
  unfolding resolve_clean text_eq
  known w = refl

  -- The root is known without a request.
  pub resolve_root : (w : World S) → resolve_path api now w root ≡ (w, good root_id)
  resolve_root w = accepted w root root root_stays ∙ known w

  round :
      (fuel : ℕ) (w : World S) (q r : Text)
      → normalize_folder_path q ≡ good r
      → ensure_loop api now (suc fuel) w q
        ≡ unless_found api now (resolve_path api now w r) (
            below_parent api now r
              (parent_path r).1
              (ensure_loop api now fuel (resolve_path api now w r).0 (parent_path r).0))
  unfolding ensure_loop
  round fuel w q r h = rw (h, ensure_loop) refl

  -- One round, if every shorter path is answered.
  deeper :
      (fuel : ℕ) (w : World S) (r : Text) (ts : List Text)
      → ((v : World S) (p : Text)
          → IsCanonical p
          → length p < fuel
          → Answered (ensure_loop api now fuel v p))
      → r ≡ slash ∷ join_slash ts
      → All Segment ts
      → length r < suc fuel
      → Answered (
          unless_found api now (resolve_path api now w r) (
            below_parent api now r
              (parent_path r).1
              (ensure_loop api now fuel (resolve_path api now w r).0 (parent_path r).0)))
  deeper fuel w r [] ih e h k =
      let found = ap (resolve_path api now w) (e ∙ no_segments) ∙ resolve_root w in
      subst
        (λ x. Answered (
          unless_found api now x (
            below_parent api now r (parent_path r).1
              (ensure_loop api now fuel (resolve_path api now w r).0 (parent_path r).0))))
        (sym found)
        (at_root (
          below_parent api now r (parent_path r).1
            (ensure_loop api now fuel (resolve_path api now w r).0 (parent_path r).0)))
    where
      no_segments : slash ∷ join_slash [] ≡ root
      no_segments = unfold join_slash in refl

      at_root : (o : Option (Found api now)) → Answered (unless_found api now (w, good root_id) o)
      at_root o = unfold Answered in ((w, good root_id), refl)
  deeper fuel w r (t ∷ ts) ih e h k =
      let x = resolve_path api now w r in
      let up : (parent_path r).0 ≡ parent_text (inner t ts) =
        ap (λ p. (parent_path p).0) e ∙ ap (λ p. p.0) (parent_path-join t ts h) in
      let shorter = parent-lt t ts h in
      unless_found-Answered x
        (below_parent api now r (parent_path r).1 (ensure_loop api now fuel x.0 (parent_path r).0))
        (below_parent-Answered r (parent_path r).1 (ensure_loop api now fuel x.0 (parent_path r).0)
          (ih x.0 (parent_path r).0 (subst IsCanonical (sym up) (parent-IsCanonical t ts h))
            (omega (arith, shorter, k, ap length e, ap length up))))

  refused :
      (fuel : ℕ) (w : World S) (q : Text) (f : PathError)
      → normalize_folder_path q ≡ bad f
      → Answered (ensure_loop api now (suc fuel) w q)
  unfolding Answered ensure_loop
  refused fuel w q f n = rw (n, ensure_loop) ((w, bad (bad_path f)), refl)

  ensure_loop-Answered :
      (fuel : ℕ) (w : World S) (q : Text)
      → IsCanonical q
      → length q < fuel
      → Answered (ensure_loop api now fuel w q)
  ensure_loop-Answered zero w q c h = absurd (omega (arith, h))
  ensure_loop-Answered (suc fuel) w q (ts, e, h) k = elim (Answer-cases (normalize_folder_path q)) [
    | inr (f, n) ↦ refused fuel w q f n
    | inl (r, n) ↦
        let same = canonical_kept q r (ts, e, h) n in
        subst Answered (sym (round fuel w q r n)) (
          deeper fuel w r ts (ensure_loop-Answered fuel) (same ∙ e) h
            (subst (λ x. length x < suc fuel) (sym same) k))
  ]

  -- Making a path sure comes to an end for every path, whatever upstream and the cache answer: each
  -- round goes on with the parent, which is shorter, and the root is known without a request.
  pub ensure_path-ends :
      (w : World S) (p : Text) → (x : Found api now) × (ensure_path api now w p ≡ some x)
  unfolding ensure_path Answered
  ensure_path-ends w p = elim (Answer-cases (normalize_folder_path p)) [
    | inr (f, n) ↦ rw (n, ensure_path) ((w, bad (bad_path f)), refl)
    | inl (q, n) ↦
        rw (n, ensure_path)
          (ensure_loop-Answered (length q + 1) w q (normalize-server_path p q n).0 (omega arith))
  ]
