-- ===== src/DataCache/Discard.antt =====
-- Taking objects out of the cache on request, and the drain (internal/datacache/writeback.go).
use opendrive_bridge.Common.{
  ℕ, Bool, true, not, ◌||◌, none, some, List, [], ◌∷◌, ◌++◌, map, ltb, filter, length, is_some,
  if◌then◌else◌,
}
use opendrive_bridge.Common.Text.{Text, text_eq, has_prefix, slash}
use opendrive_bridge.Common.Dict.{find, keys, values}
use opendrive_bridge.DataCache.Types.{
  unsent, Object, Cache, Digest, err_dirty, not_cached, Result, ok, err,
}
use opendrive_bridge.DataCache.Index.{forget, forget_all}
use opendrive_bridge.DataCache.Flush.{oldest_unsent, enqueue_all}

-- `Refresh`, on a normalised path.
unfoldable pub refresh : Digest → Text → Cache → Cache × Result (Unit {0})
unfolding unsent
refresh d p c = elim (find p c.objs) [
  | none ↦ (c, err not_cached)
  | some o ↦ if unsent o.state then (c, err err_dirty) else (forget d p c, ok tt)
]

-- One round of the loop of `Remove`: nothing there, gone (with whether it was unsent), or an upload
-- that was told to stop and has to return first.
pub data Removal : Type 0 where
  absent : Removal
  removed : Bool → Removal
  stopping : Removal

unfoldable pub remove : Digest → Text → Cache → Cache × Removal
unfolding unsent
remove d p c = elim (find p c.objs) [
  | none ↦ (c, absent)
  | some o ↦
      if is_some (find p c.in_flight)
      then (c, stopping)
      else (forget d p c, removed (unsent o.state))
]

-- The paths that `RemoveTree` goes through.
unfoldable pub tree_paths : Text → Cache → List Text
unfolding has_prefix text_eq
tree_paths dir c =
    let prefix = if text_eq dir (slash ∷ []) then slash ∷ [] else dir ++ (slash ∷ []) in
    filter (λ p. text_eq p dir || has_prefix p prefix) (keys c.objs)

-- `Clear`: all or nothing. The error counts the unsent objects.
pub data Clearing : Type 0 where
  cleared : Clearing
  holds_unsent : ℕ → Clearing

unfoldable pub clear : Digest → Cache → Cache × Clearing
unfolding unsent
clear d c =
    let n = length (filter (λ (o : Object). unsent o.state) (values c.objs)) in
    let clean_paths =
      map (λ (o : Object). o.remote_path)
        (filter (λ (o : Object). not (unsent o.state)) (values c.objs)) in
    if ltb 0 n then (c, holds_unsent n) else (forget_all d clean_paths c, cleared)

-- `Drain` up to its wait: no more writes, and everything that waits is queued.
unfoldable pub drain_begin : Cache → Cache
unfolding oldest_unsent enqueue_all
drain_begin c =
    if not c.cfg.write_back
    then c
    else (let c' = record c { draining = true } in enqueue_all (oldest_unsent 0x100000 c') c')

-- What `Drain` names when its time is up: the unsent objects.
unfoldable pub unsent_objects : Cache → List Object
unfolding unsent
unsent_objects c = filter (λ (o : Object). unsent o.state) (values c.objs)

-- The mark that `Close` sets: no write and no upload starts behind it. The journal is closed when the
-- workers have ended, and with it the run ends.
unfoldable pub close : Cache → Cache
close c = record c { closed = true }
