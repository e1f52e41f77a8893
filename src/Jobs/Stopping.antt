-- ===== src/Jobs/Stopping.antt =====
-- `Cancel` and `Recover` of the job engine (internal/jobs/engine.go).
use opendrive_bridge.Common.{
  ℕ, Bool, true, false, not, ◌&&◌, none, some, List, [], ◌∷◌, ◌++◌, length, ltb, if◌then◌else◌,
}
use opendrive_bridge.Common.Text.{Text, is_empty}
use opendrive_bridge.Common.Dict.{find, insert}
use opendrive_bridge.Jobs.Types.{
  JobState, queued, running, succeeded, cancelled, is_terminal, JobKind, upload, Job, Engine,
}
use opendrive_bridge.Jobs.Engine.{
  put_job, save, persist, InfoAnswer, Reclaim, reclaim, ask_deletion, forget_record, left_alone,
  whole_file,
}
use opendrive_bridge.Jobs.Submitting.{job_queue_capacity}

-- How `Cancel` answers up to its unlock; a job without a worker is finished by the caller.
pub data Cancelling : Type 0 where
  no_such_job already_over interrupted : Cancelling
  marked : Job → Cancelling

-- The call of the context's cancel function, if the job has a context.
abbrev pub cancel_context : Text → Engine → Engine
cancel_context id e = elim (find id e.cancels) [
  | none ↦ e
  | some c ↦ record e { cancels = insert id true e.cancels }
]

-- The job as `Cancel` marks it.
abbrev pub mark : ℕ → Job → Job
mark now j = record j { state = cancelled; updated_at = now }

-- `Cancel` of a job that is not over, by the state of the job.
unfoldable pub cancel_live : Text → ℕ → Job → JobState → Engine → Engine × Cancelling
unfolding find insert
cancel_live id now j running e = (cancel_context id e, interrupted)
cancel_live id now j _ e =
    let e' = cancel_context id e in
    (record e' { jobs = insert id (mark now j) e'.jobs }, marked (mark now j))

-- `Cancel` up to its unlock, with the call of the context's cancel function.
unfoldable pub cancel_begin : Text → ℕ → Engine → Engine × Cancelling
unfolding find cancel_live
cancel_begin id now e = elim (find id e.jobs) [
  | none ↦ (e, no_such_job)
  | some j ↦ if is_terminal j.state then (e, already_over) else cancel_live id now j j.state e
]

-- `Cancel` of a job without a worker, from there.
unfoldable pub cancel_end : (Text → Text → Bool) → InfoAnswer → Job → Bool → Engine → Engine
unfolding reclaim persist
cancel_end same_hash info snapshot saved e =
    persist saved snapshot.id (ask_deletion (reclaim same_hash info snapshot) snapshot e)

-- An interrupted upload that turned out to be whole, as `Recover` writes it.
abbrev pub found_whole : ℕ → Job → Job
found_whole now j = record j {
  state = succeeded;
  error = none;
  bytes_done = if ltb 0 j.bytes_total then j.bytes_total else j.bytes_done;
  upstream_file_id = [];
  upstream_temp_location = [];
  updated_at = now;
}

abbrev pub is_upload : JobKind → Bool
is_upload upload = true
is_upload _ = false

-- An interrupted job as `Recover` writes it.
abbrev pub interrupted_job : ℕ → Job → Job
interrupted_job now j =
    if is_upload j.kind && not (is_empty j.upstream_file_id)
    then record (forget_record j) { bytes_done = 0; state = queued; updated_at = now }
    else record j { state = queued; updated_at = now }

-- What `Recover` makes of an unfinished job, and how its record ended.
unfoldable pub recovered : (Text → Text → Bool) → InfoAnswer → ℕ → Job → Job × Reclaim
unfolding reclaim
recovered same_hash info now j =
    let r = if is_upload j.kind then reclaim same_hash info j else left_alone in
    (elim r [ whole_file ↦ found_whole now j | _ ↦ interrupted_job now j ], r)

-- The loop of `Recover`, with upstream's answer about a record and the outcome of a save; whether it
-- came to the end, or met a full queue.
unfoldable pub recover :
    (Text → Text → Bool) → (Text → InfoAnswer) → Bool → ℕ → List Job → Engine → Engine × Bool
unfolding recovered save insert
recover same_hash answer saved now [] e = (e, true)
recover same_hash answer saved now (j ∷ js) e =
    let kept = recover same_hash answer saved now js (put_job j e) in
    let (j', r) = recovered same_hash (answer j.upstream_file_id) now j in
    let e' = save saved j' (put_job j' (ask_deletion r j e)) in
    let done = recover same_hash answer saved now js e' in
    let queued_up =
      recover same_hash answer saved now js (record e' { queue = e'.queue ++ (j.id ∷ []) }) in
    if is_terminal j.state
    then kept
    else if is_terminal j'.state
    then done
    else if ltb (length e'.queue) job_queue_capacity
    then queued_up
    else (e', false)
