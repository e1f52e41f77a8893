-- ===== src/Upload/Types.antt =====
-- The parameters, the requests and the answers of an upload (pkg/opendrive/upload.go). Sizes are
-- natural numbers, so there is no negative one to refuse; the message of an error of the library's own
-- is left out, and so is `Progress`, which only reports.
use opendrive_bridge.Common.{
  ℕ, ◌*◌, Bool, not, ◌&&◌, ◌||◌, Option, none, some, List, [], ◌∷◌, ◌++◌, length, any, ltb, leb,
  ◌==◌, if◌then◌else◌, Answer,
}
use opendrive_bridge.Common.Text.{Text, codes, is_empty}
use opendrive_bridge.Common.Dict.{Dict}
use opendrive_bridge.Sdk.Errors.{ApiError}

abbrev pub default_chunk_size : ℕ
default_chunk_size = 50 * 1048576

abbrev pub min_chunk_size : ℕ
min_chunk_size = 64 * 1024

-- `createFileResponse`, as far as it is used.
pub record Created : Type 0 where
  pub file_id : Text
  pub file_id_upper : Text
  pub temp_location : Text
  pub require_compression : Bool
  pub require_hash_only : Bool

-- `id`.
abbrev pub created_id : Created → Text
created_id r = if not (is_empty r.file_id) then r.file_id else r.file_id_upper

-- `openFileResponse`, as far as it is used.
pub record Opened : Type 0 where
  pub temp_location : Text
  pub require_compression : Bool

-- `UploadParams`; a missing time is the zero one.
pub record UploadParams : Type 0 where
  pub folder_id : Text
  pub name : Text
  pub size : ℕ
  pub hash : Text
  pub mod_time : Option ℕ
  pub open_if_exists : Bool
  pub chunk_size : ℕ
  pub access_folder_id : Text
  pub sharing_id : Text
  pub keep_on_failure : Bool

-- `UploadResult`.
pub record Uploaded (F : Type 0) : Type 0 where
  pub file : F
  pub deduplicated : Bool
  pub compressed : Bool
  pub bytes_sent : ℕ
  pub chunks : ℕ
  pub hash : Text

-- The errors that the pipeline answers with.
pub data UploadError : Type 0 where
  upstream_said : ApiError → UploadError
  bad_name : ApiError → UploadError
  bad_hash no_file_id no_temp_location source_unreadable : UploadError
  wrong_written : ℕ → ℕ → ℕ → UploadError
  cannot_rewind : ℕ → ℕ → ApiError → UploadError
  size_differs : ℕ → ℕ → UploadError

-- `chunkSize`.
unfoldable pub chunk_size_of : UploadParams → ℕ
chunk_size_of p =
    if leb min_chunk_size p.chunk_size
    then p.chunk_size
    else if ltb 0 p.chunk_size
    then min_chunk_size
    else default_chunk_size

-- `hex.DecodeString` on a text of even length.
abbrev pub is_hex : ℕ → Bool
is_hex c = leb b'0' c && leb c b'9' || leb b'a' c && leb c b'f' || leb b'A' c && leb c b'F'

-- `validate`, with the judgement of the name.
unfoldable pub validate_upload : (Text → Option ApiError) → UploadParams → Option UploadError
validate_upload name p = elim (name p.name) [
  | some e ↦ some (bad_name e)
  | none ↦
      if not (is_empty p.hash) && (not (length p.hash == 32) || any (λ c. not (is_hex c)) p.hash)
      then some bad_hash
      else none
]

-- A value of a JSON body.
pub data Value : Type 0 where
  text : Text → Value
  number : ℕ → Value

-- The fields of a body that stand under a condition.
abbrev pub field_if : Bool → Text → Value → Dict Value
field_if b k v = if b then (k, v) ∷ [] else []

abbrev pub text_field : Text → Text → Dict Value
text_field k t = field_if (not (is_empty t)) k (text t)

abbrev pub scope_fields : UploadParams → Dict Value
scope_fields p =
    text_field (codes "access_folder_id") p.access_folder_id
    ++ text_field (codes "sharing_id") p.sharing_id

-- The body of `createFile`.
unfoldable pub create_body : Text → UploadParams → Dict Value
create_body folder p =
    (codes "folder_id", text folder)
    ∷ (codes "file_name", text p.name)
    ∷ (codes "file_size", number p.size)
    ∷ (codes "open_if_exists", number (if p.open_if_exists then 1 else 0))
    ∷ (text_field (codes "file_hash") p.hash ++ scope_fields p)

-- The body of `openFile`.
unfoldable pub open_body : Text → UploadParams → Dict Value
open_body id p =
    (codes "file_id", text id)
    ∷ (codes "file_size", number p.size)
    ∷ (text_field (codes "file_hash") p.hash ++ scope_fields p)

abbrev pub time_field : Option ℕ → Dict Value
time_field none = []
time_field (some t) = (codes "file_time", number t) ∷ []

-- The body of `closeFile`.
unfoldable pub close_body : Text → Text → UploadParams → Bool → Dict Value
close_body id temp p compressed =
    (codes "file_id", text id)
    ∷ (codes "file_size", number p.size)
    ∷ (text_field (codes "temp_location") temp
        ++ (text_field (codes "file_hash") p.hash
            ++ (time_field p.mod_time
                ++ (field_if (not (is_empty temp) && compressed) (codes "file_compressed")
                      (number 1)
                    ++ scope_fields p))))

-- The calls that an upload makes of its client, over the state of upstream: each is one `Do` at one
-- endpoint. A chunk goes out with its file, its temporary location, its offset and its bytes.
pub record Calls (S F : Type 0) : Type 0 where
  pub create_file : S → Dict Value → S × Answer ApiError Created
  pub open_file : S → Dict Value → S × Answer ApiError Opened
  pub send_chunk : S → Text → Text → ℕ → List ℕ → S × Answer ApiError ℕ
  pub close_file : S → Dict Value → S × Answer ApiError F
  pub delete_trashed : S → Text → Text → Text → S × Option ApiError
