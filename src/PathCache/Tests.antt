-- ===== src/PathCache/Tests.antt =====
-- The path cache (internal/cache/pathcache.go) at concrete inputs.
use opendrive_bridge.Common.{
  ℕ, ◌+◌, ◌≤◌, ◌≡◌, refl, ◌||◌, none, some, List, [], ◌∷◌, arith, if◌then◌else◌,
}
use opendrive_bridge.Common.Text.{Text, codes, text_eq, has_prefix}
use opendrive_bridge.Common.Dict.{find, insert, delete}
use opendrive_bridge.PathCache.{
  Entry, PathCache, new_path_cache, lookup, store, observe, invalidate_path, Call, put, see,
  run_calls, subtree_prefix, evict,
}
use opendrive_bridge.PathCache.Invalidation.{find-invalidate_path, expired_folder_hides_change}
use opendrive_bridge.PathCache.Size.{Bounded}
use opendrive_bridge.PathCache.Freshness.{Made, lookup_is_recent}

abbrev folder : Text
folder = codes "/a"

abbrev child : Text
child = codes "/a/b"

abbrev id_one : Text
id_one = codes "1"

abbrev entry_one : Entry
entry_one = record { id = id_one; expires = 160; last_used = 100 }

-- A folder with a folder in it, both stored, the first seen with an update time.
abbrev filled : PathCache
filled = record (new_path_cache 60 2) {
  by_path =
      (folder, entry_one) ∷ (child, record { id = codes "2"; expires = 210; last_used = 150 }) ∷ [];
  by_id = (id_one, folder) ∷ (codes "2", child) ∷ [];
  updated = (id_one, 7) ∷ [];
}

-- The calls that lead to it.
abbrev calls : List Call
calls = put 100 folder id_one ∷ see id_one 7 ∷ put 150 child (codes "2") ∷ []

filled_test : run_calls calls (new_path_cache 60 2) ≡ filled
unfolding run_calls insert evict find text_eq
filled_test = refl

eviction_test : (find folder (store 155 (codes "/c") (codes "3") filled).by_path ≡ none)
unfolding store insert evict find text_eq delete
eviction_test = refl

find-invalidate_path_example : find child (invalidate_path folder filled).by_path ≡ (
    if text_eq child folder || has_prefix child (subtree_prefix folder)
    then none
    else find child filled.by_path)
find-invalidate_path_example = find-invalidate_path folder child filled refl

expired_folder_hides_change_example :
    let c = store 161 folder id_one (lookup 161 folder filled).0 in
    find child (observe id_one 8 c).by_path ≡ find child c.by_path
unfolding find text_eq
expired_folder_hides_change_example =
    expired_folder_hides_change 161 161 8 folder entry_one child filled refl refl

new-Bounded : Bounded (new_path_cache 60 2)
unfolding find
new-Bounded = record { no_empty = refl; within = omega arith }

answer_test : (lookup 155 folder (run_calls calls (new_path_cache 60 2))).1 ≡ some id_one
unfolding run_calls insert evict find text_eq lookup
answer_test = refl

lookup_is_recent_example : (stored : ℕ) × Made stored folder id_one calls × (155 ≤ stored + 60)
lookup_is_recent_example = lookup_is_recent calls 60 2 155 folder id_one answer_test
