-- ===== src/DataCache/Types.antt =====
-- The state of the caching gateway (internal/datacache/object.go, datacache.go, journal.go,
-- store.go). Times are Unix nanoseconds, 0 for the zero `time.Time`; sizes are `int64` values that
-- count bytes on a disk, so they are plain numbers here.
use opendrive_bridge.Common.{ℕ, Bool, true, false, Option, List}
use opendrive_bridge.Common.Text.{Text}
use opendrive_bridge.Common.Dict.{Dict}

pub data State : Type 0 where
  dirty uploading clean : State

-- The test of every rule: losing such an object would lose the user's data.
unfoldable pub unsent : State → Bool
unsent dirty = true
unsent uploading = true
unsent clean = false

pub record Object : Type 0 where
  pub remote_path : Text
  pub size : ℕ
  pub hash : Text
  pub state : State
  pub folder_id : Text
  pub name : Text
  pub upstream_file_id : Text
  pub stored_at : ℕ
  pub last_access : ℕ
  pub flush_attempts : ℕ
  pub last_error : Text

-- A state record. `hash` and `state` are optional in the log, and every record that the code
-- writes has a state and no hash. `of` is the version that it is about.
pub record StateChange : Type 0 where
  pub path : Text
  pub state : Option State
  pub file_id : Text
  pub hash : Text
  pub err : Text
  pub attempts : ℕ
  pub of : ℕ

-- The records of the journal. The timestamp of a record is read back for a touch alone.
pub data JournalRecord : Type 0 where
  op_put : Object → JournalRecord
  op_state : StateChange → JournalRecord
  op_drop : Text → JournalRecord
  op_touch : Text → ℕ → JournalRecord

-- What the disk answers to an append: `refused` is a failed `write`, with a flag for a part of
-- the line left in the file; `unflushed` is a failed `fsync` after the write.
pub data Answer : Type 0 where
  accepted : Answer
  refused : Bool → Answer
  unflushed : Answer

-- A line of the log file, as replay reads it: a record, or a line that does not parse.
pub data Line : Type 0 where
  whole : JournalRecord → Line
  broken : Line

-- The open log. `lines` is the file in order, `tail` tells whether it ends in a part of a line,
-- `flushed` is how many lines a completed fsync covers. `answers` is what the disk will say to the
-- appends to come; when it is used up, every append is accepted.
pub record Journal : Type 0 where
  pub lines : List Line
  pub tail : Bool
  pub flushed : ℕ
  pub records : ℕ
  pub syncs : ℕ
  pub answers : List Answer

-- `Config`, its watermarks in percent. The logger, the directory's name and the pool sizes do not
-- bear on the state.
pub record Config : Type 0 where
  pub max_bytes : ℕ
  pub max_dirty_bytes : ℕ
  pub high_watermark : ℕ
  pub low_watermark : ℕ
  pub write_back : Bool

-- `DataCache`. `files` is the content of the directory's `.bin` files by name. `in_flight` keeps
-- with each path the copy of the object that its upload works on.
pub record Cache : Type 0 where
  pub cfg : Config
  pub journal : Journal
  pub objs : Dict Object
  pub bytes : ℕ
  pub dirty_bytes : ℕ
  pub draining : Bool
  pub closed : Bool
  pub hits : ℕ
  pub misses : ℕ
  pub flush_queue : List Text
  pub in_flight : Dict Object
  pub files : Dict (List ℕ)

-- What the package takes from the Go library: the file name of a path (SHA-256 in hex, with
-- `.bin`), and the MD5 of the bytes in hex.
pub record Digest : Type 0 where
  pub content_name : Text → Text
  pub md5_hex : List ℕ → Text

pub data Error : Type 0 where
  cache_full err_dirty not_cached err_closed write_back_off io_error wrong_hash misuse : Error

pub data Result {ℓ} (A : Type ℓ) : Type ℓ where
  ok : A → Result A
  err : Error → Result A
