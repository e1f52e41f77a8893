-- ===== src/Paths/Resolving.antt =====
-- From a path to a folder (`ResolvePath` and `EnsurePath` of pkg/opendrive/path.go, with the request
-- of `IDByPath` of folder.go), over the state of upstream and the cache of paths. The two requests are
-- arguments, and so is the time.
use opendrive_bridge.Common.{
  ℕ, zero, suc, ◌+◌, Bool, true, false, Option, none, some, length, if◌then◌else◌, Answer, good,
  bad,
}
use opendrive_bridge.Common.Text.{Text, codes, text_eq, is_empty}
use opendrive_bridge.Sdk.Errors.{ApiError, Kind, not_found}
use opendrive_bridge.PathCache.{PathCache, lookup, store, invalidate_id}
use opendrive_bridge.Paths.{
  PathError, NameError, root, drop_slash, normalize_folder_path, parent_path, validate_name,
}

-- The errors of a resolution.
pub data FolderError : Type 0 where
  bad_path : PathError → FolderError
  bad_name : NameError → FolderError
  said : ApiError → FolderError
  no_folder_id : FolderError

-- The requests for the id of a path and for a new folder: name and parent.
pub record FolderCalls (S : Type 0) : Type 0 where
  pub id_by_path : S → Text → S × Answer ApiError Text
  pub create : S → Text → Text → S × Answer ApiError Text

pub record World (S : Type 0) : Type 0 where
  pub up : S
  pub cache : Option PathCache

abbrev pub root_id : Text
root_id = codes "0"

-- `ErrorKind(err) == KindNotFound`.
abbrev pub says_not_found : Kind → Bool
says_not_found not_found = true
says_not_found _ = false

abbrev pub is_missing : FolderError → Bool
is_missing (said e) = says_not_found e.kind
is_missing _ = false

module _ {S : Type 0} (api : FolderCalls S) (now : ℕ) where
  abbrev pub Found : Type 0
  Found = World S × Answer FolderError Text

  unfoldable pub remember : Text → Text → Option PathCache → Option PathCache
  unfolding store
  remember path id none = none
  remember path id (some c) = some (store now path id c)

  unfoldable pub look_up : Text → Option PathCache → Option PathCache × Option Text
  unfolding lookup
  look_up path none = (none, none)
  look_up path (some c) = let (c', id) = lookup now path c in (some c', id)

  -- `IDByPath` behind its normalisation, with the entry that `ResolvePath` makes.
  abbrev pub asked : Text → Option PathCache → S × Answer ApiError Text → Found
  asked path cache (up, bad e) = (record { up = up; cache = cache }, bad (said e))
  asked path cache (up, good id) =
      if is_empty id
      then (record { up = up; cache = cache }, bad no_folder_id)
      else (record { up = up; cache = remember path id cache }, good id)

  abbrev pub after_look : S → Text → Option PathCache × Option Text → Found
  after_look up path (cache, some id) = (record { up = up; cache = cache }, good id)
  after_look up path (cache, none) = asked path cache (api.id_by_path up (drop_slash path))

  -- `ResolvePath` of a normalised path.
  unfoldable pub resolve_clean : World S → Text → Found
  unfolding remember look_up text_eq
  resolve_clean w path =
      if text_eq path root then (w, good root_id) else after_look w.up path (look_up path w.cache)

  unfoldable pub resolve_path : World S → Text → Found
  unfolding normalize_folder_path resolve_clean
  resolve_path w p = elim (normalize_folder_path p) [
    | bad e ↦ (w, bad (bad_path e))
    | good path ↦ resolve_clean w path
  ]

  -- `Create` of folder.go for a name and a parent.
  unfoldable pub forget_children : Text → Option PathCache → Option PathCache
  unfolding invalidate_id
  forget_children id none = none
  forget_children id (some c) = some (invalidate_id id c)

  unfoldable pub created : Text → Option PathCache → S × Answer ApiError Text → Found
  unfolding forget_children
  created parent cache (up, bad e) = (record { up = up; cache = cache }, bad (said e))
  created parent cache (up, good id) =
      (record { up = up; cache = forget_children parent cache }, good id)

  unfoldable pub create_folder : World S → Text → Text → Found
  unfolding created validate_name
  create_folder w name parent0 =
      let parent = if is_empty parent0 then root_id else parent0 in
      elim (validate_name name) [
        | some e ↦ (w, bad (bad_name e))
        | none ↦ created parent w.cache (api.create w.up name parent)
      ]

  -- The end of `EnsurePath`: the answer of `Create`, and one more look where it failed.
  abbrev pub second_look : World S → FolderError → Found → Found
  second_look w e (w', good id) = (w', good id)
  second_look w e (w', bad again) = (w', bad e)

  unfoldable pub made_folder : Text → Found → Found
  unfolding resolve_path remember
  made_folder path (w, bad e) = second_look w e (resolve_path w path)
  made_folder path (w, good id) =
      if is_empty id
      then (w, bad no_folder_id)
      else (record { up = w.up; cache = remember path id w.cache }, good id)

  unfoldable pub below_parent : Text → Text → Option Found → Option Found
  unfolding create_folder made_folder
  below_parent path name none = none
  below_parent path name (some (w, bad e)) = some (w, bad e)
  below_parent path name (some (w, good parent)) =
      some (made_folder path (create_folder w name parent))

  abbrev pub unless_found : Found → Option Found → Option Found
  unless_found (w, good id) rest = some (w, good id)
  unless_found (w, bad e) rest = if is_missing e then rest else some (w, bad e)

  -- `EnsurePath`, on fuel.
  unfoldable pub ensure_loop : ℕ → World S → Text → Option Found
  unfolding normalize_folder_path resolve_path parent_path below_parent
  ensure_loop zero w p = none
  ensure_loop (suc fuel) w p = elim (normalize_folder_path p) [
    | bad e ↦ some (w, bad (bad_path e))
    | good path ↦
        let x = resolve_path w path in
        let (parent, name) = parent_path path in
        let rest = below_parent path name (ensure_loop fuel x.0 parent) in unless_found x rest
  ]

  -- The parent of a normalised path is shorter, so its length bounds the rounds.
  unfoldable pub ensure_path : World S → Text → Option Found
  unfolding ensure_loop normalize_folder_path
  ensure_path w p = elim (normalize_folder_path p) [
    | bad e ↦ some (w, bad (bad_path e))
    | good path ↦ ensure_loop (length path + 1) w path
  ]
