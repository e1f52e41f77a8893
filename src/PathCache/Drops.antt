-- ===== src/PathCache/Drops.antt =====
-- What the drops of the path cache (internal/cache/pathcache.go) leave.
use opendrive_bridge.Common.{
  ◌≡◌, refl, Bool, false, none, List, [], ◌∷◌, arith, filter, inl, inr, Option-cases, if◌then◌else◌,
}
use opendrive_bridge.Common.Text.{Text, text_eq, text_eq_iff, is_empty}
use opendrive_bridge.Common.Dict.{find, keys, find-delete, listed, listed-keys, listed-filter}
use opendrive_bridge.PathCache.{PathCache, drop_path, drop_paths, drop_subtree, in_subtree}

pub find-drop_path :
    (p q : Text) (c : PathCache)
    → find q (drop_path p c).by_path ≡ (if text_eq p q then none else find q c.by_path)
unfolding drop_path
find-drop_path p q c = elim (Option-cases (find p c.by_path)) [
  | inl e ↦ rw (e, drop_path) (ground (arith, text_eq_iff p q))
  | inr (x, e) ↦ rw (e, drop_path) (find-delete p q c.by_path)
]

pub find-drop_paths :
    (ps : List Text) (q : Text) (c : PathCache)
    → find q (drop_paths ps c).by_path ≡ (if listed q ps then none else find q c.by_path)
unfolding drop_paths
find-drop_paths [] q c = refl
find-drop_paths (p ∷ ps) q c =
    ground (arith, find-drop_paths ps q (drop_path p c), find-drop_path p q c)

-- A drop of a subtree takes the entries in it, and no other.
pub find-drop_subtree :
    (path : Text) (include_self : Bool) (q : Text) (c : PathCache)
    → is_empty path ≡ false
    → find q (drop_subtree path include_self c).by_path
      ≡ (if in_subtree path include_self q then none else find q c.by_path)
unfolding drop_subtree
find-drop_subtree path include_self q c h =
    rw (h, drop_subtree)
      (ground (
        arith,
        find-drop_paths (filter (in_subtree path include_self) (keys c.by_path)) q c,
        listed-filter (in_subtree path include_self) q (keys c.by_path),
        listed-keys q c.by_path,
      ))
