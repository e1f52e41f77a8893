-- ===== src/PathCache/Invalidation.antt =====
-- What the invalidations of the path cache (internal/cache/pathcache.go) take, and what they miss.
use opendrive_bridge.Common.{
  ℕ, zero, suc, ◌+◌, ◌≡◌, true, false, not, ◌&&◌, ◌||◌, none, some, [], arith, length, inl, inr,
  Option-cases, ltb, ◌==◌, if_intro, if◌then◌else◌,
}
use opendrive_bridge.Common.Text.{Text, text_eq, is_empty, has_prefix}
use opendrive_bridge.Common.Dict.{find, insert, find-delete, find-delete_self}
use opendrive_bridge.PathCache.{
  Entry, PathCache, drop_path, in_subtree, subtree_prefix, invalidate_path, observe, lookup, store,
  evict, evict_loop, oldest,
}
use opendrive_bridge.PathCache.Drops.{find-drop_subtree}

-- After an invalidation of a path, the path and every path below it are unknown, and every other
-- path is known as it was.
pub find-invalidate_path :
    (path q : Text) (c : PathCache)
    → is_empty path ≡ false
    → find q (invalidate_path path c).by_path
      ≡ (if text_eq q path || has_prefix q (subtree_prefix path) then none else find q c.by_path)
unfolding invalidate_path in_subtree
find-invalidate_path path q c h = ground (arith, find-drop_subtree path true q c h)

-- A folder that the cache has a path for is seen with another update time than before. Every path
-- below it becomes unknown, and its own entry and every other stay.
pub find-observe :
    (id path : Text) (previous time : ℕ) (q : Text) (c : PathCache)
    → is_empty id ≡ false
    → (time == 0) ≡ false
    → (previous == time) ≡ false
    → find id c.updated ≡ some previous
    → find id c.by_id ≡ some path
    → is_empty path ≡ false
    → find q (observe id time c).by_path ≡ (
        if not (text_eq q path) && has_prefix q (subtree_prefix path)
        then none
        else find q c.by_path)
unfolding observe in_subtree
find-observe id path previous time q c i t v u b h =
    let c' : PathCache = record c { updated = insert id time c.updated } in
    rw (i, observe)
      (rw t (rw u (rw v (rw b (ground (arith, find-drop_subtree path false q c' h))))))

unseen-drop_path :
    (id p : Text) (c : PathCache)
    → find id c.updated ≡ none
    → find id (drop_path p c).updated ≡ none
unfolding drop_path
unseen-drop_path id p c h = elim (Option-cases (find p c.by_path)) [
  | inl e ↦ rw (e, drop_path) h
  | inr (x, e) ↦ rw (e, drop_path) (ground (arith, find-delete x.id id c.updated))
]

unseen-evict_loop :
    (fuel : ℕ) (id : Text) (c : PathCache)
    → find id c.updated ≡ none
    → find id (evict_loop fuel c).updated ≡ none
unfolding evict_loop
unseen-evict_loop zero id c h = h
unseen-evict_loop (suc fuel) id c h =
    let p = oldest c.by_path [] 0 in
    let c' = drop_path p c in
    ground (
      arith,
      unseen-evict_loop fuel id (record c' { evictions = c'.evictions + 1 })
          (unseen-drop_path id p c h),
    )

unseen-evict :
    (id : Text) (c : PathCache) → find id c.updated ≡ none → find id (evict c).updated ≡ none
unfolding evict
unseen-evict id c h = unseen-evict_loop (length c.by_path) id c h

unseen-store :
    (now : ℕ) (path id : Text) (c : PathCache)
    → find id c.updated ≡ none
    → find id (store now path id c).updated ≡ none
unfolding store
unseen-store now path id c h =
    let fresh : Entry = record { id = id; expires = now + c.ttl; last_used = now } in
    let c' : PathCache = record c {
      by_path = insert path fresh c.by_path;
      by_id = insert id path c.by_id;
    } in
    if_intro (λ (x : PathCache). find id x.updated ≡ none) (is_empty path || is_empty id) c
      (evict c') h (unseen-evict id c' h)

unseen-lookup :
    (now : ℕ) (path : Text) (e : Entry) (c : PathCache)
    → find path c.by_path ≡ some e
    → ltb e.expires now ≡ true
    → find e.id (lookup now path c).0.updated ≡ none
unfolding lookup drop_path
unseen-lookup now path e c f x =
    rw (f, lookup) (rw x (rw (f, drop_path) (find-delete_self e.id c.updated)))

-- A folder's entry has expired, the folder is looked up and stored again, and it is then seen with
-- a new update time. The change goes unnoticed: no path is dropped, also none below the folder.
pub expired_folder_hides_change :
    (now later time : ℕ) (path : Text) (e : Entry) (q : Text) (c : PathCache)
    → find path c.by_path ≡ some e
    → ltb e.expires now ≡ true
    → let c' = store later path e.id (lookup now path c).0 in
      find q (observe e.id time c').by_path ≡ find q c'.by_path
unfolding observe
expired_folder_hides_change now later time path e q c f x =
    let c' = store later path e.id (lookup now path c).0 in
    let unseen : find e.id c'.updated ≡ none =
      unseen-store later path e.id (lookup now path c).0 (unseen-lookup now path e c f x) in
    rw (unseen, observe) (ground arith)
