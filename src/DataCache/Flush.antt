-- ===== src/DataCache/Flush.antt =====
-- The flusher (internal/datacache/writeback.go): the state changes of an object, one upload from
-- its start to its end, the queue, and what waits for it.
use opendrive_bridge.Common.{
  ℕ, ◌+◌, ◌-◌, Bool, true, false, not, ◌&&◌, ◌||◌, Option, none, some, List, [], ◌∷◌, ◌++◌, map,
  ltb, ◌==◌, filter, any, take, is_some, if◌then◌else◌,
}
use opendrive_bridge.Common.Text.{Text, is_empty, codes}
use opendrive_bridge.Common.Dict.{find, insert, delete, values}
use opendrive_bridge.Common.Sort.{sort_by}
use opendrive_bridge.DataCache.Types.{
  State, dirty, uploading, clean, unsent, Object, StateChange, op_state, Cache, Digest,
}
use opendrive_bridge.DataCache.Journal.{append}
use opendrive_bridge.DataCache.Path.{equal_fold}
use opendrive_bridge.DataCache.Index.{dirty_share, forget, evict_if_needed}
use opendrive_bridge.DataCache.Writing.{enqueue}

-- The arguments of `setState` behind the path.
pub record Change : Type 0 where
  pub of : ℕ
  pub state : State
  pub file_id : Text
  pub last_err : Text
  pub attempts : ℕ

-- The object after a change.
unfoldable pub changed : Change → Object → Object
changed ch o = record o {
  state = ch.state;
  last_error = ch.last_err;
  flush_attempts = ch.attempts;
  upstream_file_id = if is_empty ch.file_id then o.upstream_file_id else ch.file_id;
}

-- The second half of `setState`: the index moves if the version still stands there.
unfoldable pub move_state : Text → Change → Cache → Cache × Bool
unfolding changed dirty_share
move_state p ch c = elim (find p c.objs) [
  | none ↦ (c, false)
  | some o ↦
      if o.stored_at == ch.of
      then (
        record c {
          objs = insert p (changed ch o) c.objs;
          dirty_bytes = c.dirty_bytes - dirty_share o + dirty_share (changed ch o);
        },
        true,
      )
      else (c, false)
]

abbrev pub change_record : Text → Change → StateChange
change_record p ch = record {
  path = p;
  state = some ch.state;
  file_id = ch.file_id;
  hash = [];
  err = ch.last_err;
  attempts = ch.attempts;
  of = ch.of;
}

-- `setState`: the journal first, and nothing moves if it does not take the record.
unfoldable pub set_state : Text → Change → Cache → Cache × Bool
unfolding move_state
set_state p ch c = elim (find p c.objs) [
  | none ↦ (c, false)
  | some o ↦
      if o.stored_at == ch.of
      then (let (j, done) = append (op_state (change_record p ch)) true c.journal in
          let c' = record c { journal = j } in if done then move_state p ch c' else (c', false))
      else (c, false)
]

abbrev pub change_to : State → Text → ℕ → Object → Change
change_to st reason attempts o = record {
  of = o.stored_at;
  state = st;
  file_id = [];
  last_err = reason;
  attempts = attempts;
}

-- The end of `flushOne`'s deferred function without the queue.
abbrev pub release : Text → Cache → Cache
release p c = record c { in_flight = delete p c.in_flight }

-- The guard at the head of `flushOne`: the object to send, if there is one to send now.
unfoldable pub sendable : Text → Cache → Option Object
unfolding unsent
sendable p c = elim (find p c.objs) [
  | none ↦ none
  | some o ↦
      if not (unsent o.state) || is_some (find p c.in_flight) || c.closed then none else some o
]

-- `flushOne` up to the call of `Upload`. `opens` is the environment's part in `os.Open`. The
-- second result is what is sent.
unfoldable pub flush_begin : Digest → Bool → Text → Cache → Cache × Option (Object × List ℕ)
unfolding sendable set_state
flush_begin d opens p c = elim (sendable p c) [
  | none ↦ (c, none)
  | some o ↦
      let claimed = record c { in_flight = insert p o c.in_flight } in
      let c' = (set_state p (change_to uploading [] o.flush_attempts o) claimed).0 in
      elim (if opens then find (d.content_name p) c'.files else none) [
        | none ↦ (release p (forget d p c'), none)
        | some content ↦ (c', some (o, content))
      ]
]

-- What a failed upload says: its text, and for an error of the SDK the classifier's diagnosis and
-- the upstream's message.
pub record UploadError : Type 0 where
  pub text : Text
  pub is_api_error : Bool
  pub diagnosis : Text
  pub upstream_msg : Text

-- How `Upload` returns: stopped by a removal, failed, or with the hash that upstream reports.
pub data UploadResult : Type 0 where
  stopped : UploadResult
  failed : UploadError → UploadResult
  uploaded : Text → UploadResult

unfoldable pub reason_of : UploadError → Text
reason_of e =
    if not e.is_api_error
    then e.text
    else if not (is_empty e.diagnosis)
    then e.diagnosis
    else if not (is_empty e.upstream_msg)
    then e.upstream_msg
    else e.text

unfoldable pub hash_reason : Text → Text → Text
hash_reason got want =
    codes "OpenDrive stored something that hashes to "
    ++ (got
        ++ (codes " where this file hashes to "
            ++ (want ++ codes ", so it has not been accepted as uploaded")))

abbrev pub hash_fits : Text → Object → Bool
hash_fits hash o = is_empty hash || equal_fold hash o.hash

-- The upload of a version has ended well: clean, or superseded by a newer one, which is queued.
unfoldable pub settle_clean : Digest → Text → Cache × Bool → Cache
settle_clean d p (c, true) = release p (evict_if_needed d c)
settle_clean d p (c, false) = enqueue p (release p c)

unfoldable pub finish_upload : Digest → Text → Object → UploadResult → Cache → Cache
unfolding settle_clean reason_of hash_reason
finish_upload d p o stopped c = release p c
finish_upload d p o (failed e) c =
    release p (set_state p (change_to dirty (reason_of e) (o.flush_attempts + 1) o) c).0
finish_upload d p o (uploaded hash) c =
    if hash_fits hash o
    then settle_clean d p (set_state p (change_to clean [] o.flush_attempts o) c)
    else release p
        (set_state p (change_to dirty (hash_reason hash o.hash) (o.flush_attempts + 1) o) c).0

-- `flushOne` from the return of `Upload`.
unfoldable pub flush_end : Digest → Text → UploadResult → Cache → Cache
unfolding finish_upload
flush_end d p r c = elim (find p c.in_flight) [ none ↦ c | some o ↦ finish_upload d p o r c ]

abbrev pub stored_before : Object → Object → Bool
stored_before a b = ltb a.stored_at b.stored_at

-- `oldestUnsent`.
unfoldable pub oldest_unsent : ℕ → Cache → List Text
unfolding unsent
oldest_unsent n c =
    map (λ (o : Object). o.remote_path)
      (take n (
        sort_by stored_before (
          filter (λ (o : Object). unsent o.state && not (is_some (find o.remote_path c.in_flight)))
            (values c.objs))))

unfoldable pub enqueue_all : List Text → Cache → Cache
unfolding enqueue
enqueue_all [] c = c
enqueue_all (p ∷ ps) c = enqueue_all ps (enqueue p c)

-- `requeueUnsent`: what is unsent, oldest first, goes on the queue.
unfoldable pub unsent_paths : Cache → List Text
unfolding unsent
unsent_paths c =
    map (λ (o : Object). o.remote_path)
      (sort_by stored_before (filter (λ (o : Object). unsent o.state) (values c.objs)))

unfoldable pub requeue_unsent : Cache → Cache
unfolding enqueue_all unsent_paths
requeue_unsent c = enqueue_all (unsent_paths c) c

-- `settled` with no path, and with one.
unfoldable pub settled_all : Cache → Bool
unfolding unsent
settled_all c = not (any (λ (o : Object). unsent o.state) (values c.objs))

unfoldable pub settled : Text → Cache → Bool
unfolding unsent
settled p c = elim (find p c.objs) [ none ↦ true | some o ↦ not (unsent o.state) ]
