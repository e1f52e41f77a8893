-- ===== src/Upload/Pipeline.antt =====
-- The four steps of an upload (`Upload`, `transfer`, `createFile`, `closeFile`, `reclaimOrphan` of
-- pkg/opendrive/upload.go), over the state of upstream and the client's cache of paths. The digest is
-- an argument, and so are the compression and the judgement of a name.
use opendrive_bridge.Common.{
  ℕ, Bool, true, false, ◌||◌, Option, none, some, List, [], if◌then◌else◌, Answer, good, bad,
}
use opendrive_bridge.Common.Text.{Text, codes, is_empty}
use opendrive_bridge.Sdk.Errors.{ApiError}
use opendrive_bridge.PathCache.{PathCache, invalidate_id}
use opendrive_bridge.Upload.Types.{
  Created, created_id, Opened, UploadParams, Uploaded, UploadError, upstream_said, no_file_id,
  no_temp_location, chunk_size_of, validate_upload, create_body, open_body, close_body, Calls,
}
use opendrive_bridge.Upload.Chunks.{Place, Source, Sent, send_chunks, wire_of}

abbrev pub root_folder_id : Text
root_folder_id = codes "0"

-- The cache that follows a write into a folder.
unfoldable pub forget_listing : Text → Option PathCache → Option PathCache
unfolding invalidate_id
forget_listing folder none = none
forget_listing folder (some c) = some (invalidate_id folder c)

-- What the pipeline takes from the Go library and from the rest of the package.
pub record Tools : Type 0 where
  pub zip : List ℕ → List ℕ
  pub digest : List ℕ → Text
  pub name_error : Text → Option ApiError

-- The state of upstream behind a transfer, and how it ended.
pub record Transferred (S F : Type 0) : Type 0 where
  pub up : S
  pub result : Answer UploadError (Uploaded F)

-- How an upload ended, with the state of upstream and the cache.
pub record UploadEnd (S F : Type 0) : Type 0 where
  pub up : S
  pub cache : Option PathCache
  pub result : Answer UploadError (Uploaded F)

module _ {S F : Type 0} (api : Calls S F) (tools : Tools) where
  abbrev pub with_hash : UploadParams → Text → UploadParams
  with_hash p h = if is_empty p.hash then record p { hash = h } else p

  -- `closeFile`, with the result of the upload.
  abbrev pub closed : Bool → Bool → ℕ → ℕ → Text → S × Answer ApiError F → Transferred S F
  closed dedup zipped sent n h (up, bad e) = record { up = up; result = bad (upstream_said e) }
  closed dedup zipped sent n h (up, good f) = record {
    up = up;
    result = good (record {
      file = f;
      deduplicated = dedup;
      compressed = zipped;
      bytes_sent = sent;
      chunks = n;
      hash = h;
    });
  }

  unfoldable pub close_up : Text → Text → UploadParams → Bool → Bool → ℕ → ℕ → S → Transferred S F
  unfolding close_body
  close_up id temp p dedup zipped sent n up =
      closed dedup zipped sent n p.hash (api.close_file up (close_body id temp p zipped))

  -- Behind the chunk loop.
  unfoldable pub after_chunks :
      Text → Text → UploadParams → Bool → Option (Sent S) → Option (Transferred S F)
  unfolding close_up
  after_chunks id temp p zipped none = none
  after_chunks id temp p zipped (some x) = elim (x.failure) [
    | some e ↦ some (record { up = x.up; result = bad e })
    | none ↦ some (
        close_up id temp (with_hash p (tools.digest x.so_far.digested)) false zipped
          x.so_far.wire_offset x.so_far.chunks x.up)
  ]

  abbrev pub temp_of : Created → Opened → Text
  temp_of c o = if is_empty o.temp_location then c.temp_location else o.temp_location

  abbrev pub zipped_of : Created → Opened → Bool
  zipped_of c o = o.require_compression || c.require_compression

  -- Behind `openFile`.
  unfoldable pub after_open :
      Text → Created → UploadParams → Source → S × Answer ApiError Opened → Option (Transferred S F)
  unfolding after_chunks send_chunks chunk_size_of
  after_open id c p src (up, bad e) = some (record { up = up; result = bad (upstream_said e) })
  after_open id c p src (up, good o) =
      let temp = temp_of c o in
      let zipped = zipped_of c o in
      let place : Place = record { file_id = id; temp_location = temp } in
      let x = send_chunks api place (wire_of tools.zip zipped) (chunk_size_of p) p.size up src in
      if is_empty temp
      then some (record { up = up; result = bad no_temp_location })
      else after_chunks id temp p zipped x

  -- `transfer`. A file whose content upstream already has is closed without a temporary location.
  unfoldable pub transfer : S → Text → Created → UploadParams → Source → Option (Transferred S F)
  unfolding after_open close_up open_body
  transfer up id c p src =
      if c.require_hash_only
      then some (close_up id [] p true false 0 0 up)
      else after_open id c p src (api.open_file up (open_body id p))

  -- `reclaimOrphan`.
  unfoldable pub reclaim_orphan : S → Text → UploadParams → S
  reclaim_orphan up id p =
      if is_empty id || p.keep_on_failure || p.open_if_exists
      then up
      else (api.delete_trashed up id p.access_folder_id p.sharing_id).0

  abbrev pub refused : S → Option PathCache → UploadError → UploadEnd S F
  refused up cache e = record { up = up; cache = cache; result = bad e }

  unfoldable pub settle : Text → UploadParams → Option PathCache → Transferred S F → UploadEnd S F
  unfolding reclaim_orphan
  settle id p cache x = elim (x.result) [
    | good r ↦ record { up = x.up; cache = cache; result = good r }
    | bad e ↦ refused (reclaim_orphan x.up id p) cache e
  ]

  unfoldable pub settle_maybe :
      Text → UploadParams → Option PathCache → Option (Transferred S F) → Option (UploadEnd S F)
  unfolding settle
  settle_maybe id p cache none = none
  settle_maybe id p cache (some x) = some (settle id p cache x)

  -- Behind `createFile`.
  unfoldable pub after_create :
      Text
      → UploadParams
      → Source
      → Option PathCache
      → S × Answer ApiError Created
      → Option (UploadEnd S F)
  unfolding transfer settle_maybe forget_listing
  after_create folder p src cache (up, bad e) = some (refused up cache (upstream_said e))
  after_create folder p src cache (up, good c) =
      let cache' = forget_listing folder cache in
      if is_empty (created_id c)
      then some (refused up cache' no_file_id)
      else settle_maybe (created_id c) p cache' (transfer up (created_id c) c p src)

  -- `Upload`; `none` where the rounds of the chunk loop are not enough.
  unfoldable pub upload : S → Option PathCache → UploadParams → Source → Option (UploadEnd S F)
  unfolding after_create validate_upload create_body
  upload up cache p src = elim (validate_upload tools.name_error p) [
    | some e ↦ some (refused up cache e)
    | none ↦
        let folder = if is_empty p.folder_id then root_folder_id else p.folder_id in
        after_create folder p src cache (api.create_file up (create_body folder p))
  ]
