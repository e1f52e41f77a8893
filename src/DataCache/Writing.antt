-- ===== src/DataCache/Writing.antt =====
-- Writing into the cache (internal/datacache/store.go, writeback.go): the writer that both the
-- fill and the write-back path use, its commit, and the two ways to finish it.
use opendrive_bridge.Common.{
  ℕ, ◌+◌, ◌-◌, Bool, true, false, not, ◌&&◌, ◌||◌, Option, none, some, List, [], ◌∷◌, ◌++◌, ltb,
  ◌==◌, length, take, if◌then◌else◌,
}
use opendrive_bridge.Common.Text.{Text, is_empty}
use opendrive_bridge.Common.Dict.{find, insert, delete, share}
use opendrive_bridge.DataCache.Types.{
  dirty, clean, Object, op_put, Cache, Digest, cache_full, err_closed, write_back_off, io_error,
  wrong_hash, misuse, Result, ok, err,
}
use opendrive_bridge.DataCache.Journal.{append}
use opendrive_bridge.DataCache.Path.{normalise_path, base_name, equal_fold}
use opendrive_bridge.DataCache.Index.{dirty_share, index_put, evict_if_needed}

-- `writer`: the bytes in its temporary file, their number, and the most that it may take (0 for no
-- limit).
pub record Writer : Type 0 where
  pub path : Text
  pub buffer : List ℕ
  pub n : ℕ
  pub limit : ℕ
  pub closed : Bool

-- The room for unsent bytes. Where the unsent data already exceeds the allowance this is 0, and
-- the code's number is negative; both refuse the write.
unfoldable pub room_for : Text → Cache → ℕ
unfolding dirty_share
room_for p c = c.cfg.max_dirty_bytes + share dirty_share (find p c.objs) - c.dirty_bytes

abbrev pub open_writer : Bool → Text → ℕ → Result Writer
open_writer tmp_opens p limit =
    if tmp_opens
    then ok (record { path = p; buffer = []; n = 0; limit = limit; closed = false })
    else err io_error

-- `newWriter`. `tmp_opens` is the answer of `os.CreateTemp`.
unfoldable pub new_writer : Bool → Text → ℕ → Bool → Cache → Result Writer
unfolding room_for
new_writer tmp_opens p expected is_dirty c =
    if c.closed || is_dirty && c.draining
    then err err_closed
    else if is_dirty
    then (let room = room_for p c in
        if room == 0 || ltb 0 expected && ltb room expected
        then err cache_full
        else open_writer tmp_opens p room)
    else open_writer tmp_opens p 0

unfoldable pub abort : Writer → Writer
abort w = record w { closed = true }

abbrev pub take_bytes : List ℕ → Writer → Writer
take_bytes bs w = record w { buffer = w.buffer ++ bs; n = w.n + length bs }

-- `Write`. `stops` is the number of bytes after which the disk refuses the rest.
unfoldable pub write : Option ℕ → List ℕ → Writer → Writer × Result ℕ
unfolding abort
write stops bs w =
    if w.closed
    then (w, err misuse)
    else if ltb 0 w.limit && ltb w.limit (w.n + length bs)
    then (abort w, err cache_full)
    else elim stops [
      | none ↦ (take_bytes bs w, ok (length bs))
      | some k ↦ (take_bytes (take k bs) w, err io_error)
    ]

-- Where the file system stops a commit, if it does; the journal answers for itself.
pub data CommitStop : Type 0 where
  tmp_sync tmp_close rename dir_sync nowhere : CommitStop

-- The content is in place and its name is durable: the journal, then the index.
unfoldable pub record_put : Digest → Object → Cache → Cache × Result Object
unfolding index_put
record_put d o c =
    let (j, done) = append (op_put o) true c.journal in
    if done then (index_put o (record c { journal = j }), ok o) else (
      record c { journal = j; files = delete (d.content_name o.remote_path) c.files },
      err io_error,
    )

-- The rename replaces the content that stood under the name.
unfoldable pub renamed : Digest → List ℕ → Object → Cache → Cache
renamed d content o c = record c { files = insert (d.content_name o.remote_path) content c.files }

unfoldable pub commit_steps : Digest → CommitStop → List ℕ → Object → Cache → Cache × Result Object
unfolding record_put renamed
commit_steps d tmp_sync content o c = (c, err io_error)
commit_steps d tmp_close content o c = (c, err io_error)
commit_steps d rename content o c = (c, err io_error)
commit_steps d dir_sync content o c =
    let c' = renamed d content o c in
    (record c' { files = delete (d.content_name o.remote_path) c'.files }, err io_error)
commit_steps d nowhere content o c = record_put d o (renamed d content o c)

-- `commit`. The writer is closed whatever happens, so it is not returned.
unfoldable pub commit : Digest → CommitStop → Writer → Object → Cache → Cache × Result Object
unfolding commit_steps
commit d stop w o c = if w.closed then (c, err misuse) else commit_steps d stop w.buffer o c

pub record PutRequest : Type 0 where
  pub remote_path : Text
  pub folder_id : Text
  pub name : Text
  pub size : ℕ

pub record PutWriter : Type 0 where
  pub w : Writer
  pub req : PutRequest

abbrev pub named : PutRequest → PutRequest
named r =
    let p = normalise_path r.remote_path in
    record r { remote_path = p; name = if is_empty r.name then base_name p else r.name }

-- `Put`.
unfoldable pub put : Bool → PutRequest → Cache → Result PutWriter
unfolding new_writer
put tmp_opens req c =
    let r = named req in
    if not c.cfg.write_back
    then err write_back_off
    else elim (new_writer tmp_opens r.remote_path r.size true c) [
      | ok w ↦ ok (record { w = w; req = r })
      | err e ↦ err e
    ]

abbrev pub queue_capacity : ℕ
queue_capacity = 4096

-- `enqueue`: a full queue drops the path. There is no queue without write-back.
unfoldable pub enqueue : Text → Cache → Cache
enqueue p c =
    if c.cfg.write_back && ltb (length c.flush_queue) queue_capacity
    then record c { flush_queue = c.flush_queue ++ (p ∷ []) }
    else c

-- The object that `PutWriter.Commit` stores.
unfoldable pub put_object : Digest → ℕ → PutWriter → Object
put_object d now pw = record {
  remote_path = pw.req.remote_path;
  size = pw.w.n;
  hash = d.md5_hex pw.w.buffer;
  state = dirty;
  folder_id = pw.req.folder_id;
  name = pw.req.name;
  upstream_file_id = [];
  stored_at = now;
  last_access = now;
  flush_attempts = 0;
  last_error = [];
}

-- What a stored write is followed by.
unfoldable pub stored_put : Digest → Object → Cache × Result Object → Cache × Result Object
unfolding enqueue
stored_put d o (c, ok stored) = (evict_if_needed d (enqueue o.remote_path c), ok stored)
stored_put d o (c, err e) = (c, err e)

-- `PutWriter.Commit`.
unfoldable pub put_commit : Digest → CommitStop → ℕ → PutWriter → Cache → Cache × Result Object
unfolding put_object stored_put
put_commit d stop now pw c = let o = put_object d now pw in stored_put d o (commit d stop pw.w o c)

-- `Fill`, on a normalised path.
unfoldable pub fill : Bool → Text → Cache → Result Writer
unfolding new_writer
fill tmp_opens p c = new_writer tmp_opens p 0 false c

-- The object that `CommitClean` stores.
unfoldable pub fill_object : Digest → ℕ → Writer → Object
fill_object d now w = record {
  remote_path = w.path;
  size = w.n;
  hash = d.md5_hex w.buffer;
  state = clean;
  folder_id = [];
  name = [];
  upstream_file_id = [];
  stored_at = now;
  last_access = now;
  flush_attempts = 0;
  last_error = [];
}

unfoldable pub stored_fill : Digest → Cache × Result Object → Cache × Result Object
stored_fill d (c, ok stored) = (evict_if_needed d c, ok stored)
stored_fill d (c, err e) = (c, err e)

-- `FillWriter.CommitClean`: an empty `want` asks for no check.
unfoldable pub commit_clean :
    Digest → CommitStop → ℕ → Text → Writer → Cache → Cache × Result Object
unfolding fill_object stored_fill
commit_clean d stop now want w c =
    let o = fill_object d now w in
    if not (is_empty want) && not (equal_fold o.hash want)
    then (c, err wrong_hash)
    else stored_fill d (commit d stop w o c)
