-- ===== src/DataCache/Status.antt =====
-- What the gateway reports (internal/datacache/store.go, `Status`, `Unsent`, `ChildrenOf`).
use opendrive_bridge.Common.{
  ℕ, ◌+◌, ◌≡◌, refl, ◌∙◌, Bool, true, false, not, ◌&&◌, ◌||◌, Option, none, some, List, [], ◌∷◌,
  ◌++◌, arith, ltb, ◌==◌, length, filter, any, if◌then◌else◌,
}
use opendrive_bridge.Common.Text.{Text, text_eq, has_prefix, drop_prefix, slash}
use opendrive_bridge.Common.Dict.{Dict, values, total}
use opendrive_bridge.Common.Sort.{sort_by}
use opendrive_bridge.DataCache.Types.{unsent, Object, Cache}
use opendrive_bridge.DataCache.Index.{dirty_share, is_clean}
use opendrive_bridge.DataCache.Flush.{settled_all}
use opendrive_bridge.DataCache.Startup.{path_before}
use opendrive_bridge.DataCache.Accounting.{IsAccounted}

-- `Status`. `oldest_dirty` is the time from which `OldestDirtyAge` is counted, 0 where nothing waits.
-- The rate of hits and the durability note are left out.
pub record Status : Type 0 where
  pub write_back : Bool
  pub bytes : ℕ
  pub max_bytes : ℕ
  pub objects : ℕ
  pub dirty_bytes : ℕ
  pub dirty_objects : ℕ
  pub max_dirty_bytes : ℕ
  pub oldest_dirty : ℕ
  pub safe_to_shut_down : Bool
  pub hits : ℕ
  pub misses : ℕ

-- The loop over the index: the count of unsent objects, and the earliest time at which one of them
-- was stored.
unfoldable pub count_dirty : List Object → ℕ → ℕ → ℕ × ℕ
unfolding unsent
count_dirty [] n oldest = (n, oldest)
count_dirty (o ∷ os) n oldest =
    let earlier = if oldest == 0 || ltb o.stored_at oldest then o.stored_at else oldest in
    let counted = count_dirty os (n + 1) earlier in
    let skipped = count_dirty os n oldest in if unsent o.state then counted else skipped

unfoldable pub status : Cache → Status
unfolding count_dirty
status c =
    let (n, oldest) = count_dirty (values c.objs) 0 0 in
    record {
      write_back = c.cfg.write_back;
      bytes = c.bytes;
      max_bytes = c.cfg.max_bytes;
      objects = length c.objs;
      dirty_bytes = c.dirty_bytes;
      dirty_objects = n;
      max_dirty_bytes = c.cfg.max_dirty_bytes;
      oldest_dirty = oldest;
      safe_to_shut_down = n == 0;
      hits = c.hits;
      misses = c.misses;
    }

-- `Unsent`.
unfoldable pub unsent_by_path : Cache → List Object
unsent_by_path c =
    sort_by path_before
      (filter (λ (o : Object). not (is_clean o)) (sort_by path_before (values c.objs)))

-- What stands before the first slash, if there is a slash.
unfoldable pub first_segment : Text → Option Text
first_segment [] = none
first_segment (a ∷ s) =
    let rest = first_segment s in
    if a == slash then some [] else elim rest [ none ↦ none | some t ↦ some (a ∷ t) ]

-- `ChildrenOf`, with the folders found so far.
unfoldable pub children_from : Text → List Object → List Text → List Object × List Text
unfolding first_segment has_prefix drop_prefix text_eq
children_from prefix [] folders = ([], folders)
children_from prefix (o ∷ os) folders =
    let rest = drop_prefix o.remote_path prefix in
    let (files, same) = children_from prefix os folders in
    if not (has_prefix o.remote_path prefix) then (files, same) else elim (first_segment rest) [
      | none ↦ (o ∷ files, same)
      | some name ↦
          if any (text_eq name) folders
          then (files, same)
          else children_from prefix os (folders ++ (name ∷ []))
    ]

unfoldable pub children_of : List Object → Text → List Object × List Text
unfolding children_from
children_of objs dir =
    children_from (if text_eq dir (slash ∷ []) then dir else dir ++ (slash ∷ [])) objs []

count_dirty-none :
    (os : List Object) (n oldest : ℕ)
    → ((count_dirty os n oldest).0 == 0)
      ≡ ((n == 0) && not (any (λ (o : Object). unsent o.state) os))
unfolding count_dirty
count_dirty-none [] n oldest = ground arith
count_dirty-none (o ∷ os) n oldest =
    let earlier = if oldest == 0 || ltb o.stored_at oldest then o.stored_at else oldest in
    ground (arith, count_dirty-none os (n + 1) earlier, count_dirty-none os n oldest)

no_dirty_bytes :
    (m : Dict Object)
    → any (λ (o : Object). unsent o.state) (values m) ≡ false
    → total dirty_share m ≡ 0
unfolding dirty_share
no_dirty_bytes [] h = refl
no_dirty_bytes ((p, o) ∷ m) h = ground (arith, no_dirty_bytes m)

-- The report calls a shutdown safe exactly where a drain has nothing to wait for, and then it reports
-- no unsent bytes.
pub status-safe :
    (c : Cache)
    → IsAccounted c
    → ((status c).safe_to_shut_down ≡ settled_all c)
      × (settled_all c ≡ true → (status c).dirty_bytes ≡ 0)
unfolding status settled_all
status-safe c a = (
  ground (arith, count_dirty-none (values c.objs) 0 0),
  λ h. a.dirty_exact ∙ no_dirty_bytes c.objs (ground (arith, h)),
)
