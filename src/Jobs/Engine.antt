-- ===== src/Jobs/Engine.antt =====
-- The job engine (internal/jobs/engine.go, and `initialPhase` and `setPhase` of cache.go). Whether a
-- save succeeds, what upstream answers and how a transfer ends are arguments.
use opendrive_bridge.Common.{
  ℕ, ◌+◌, Bool, true, false, not, ◌&&◌, ◌||◌, Option, none, some, [], ◌∷◌, ltb, leb, ◌==◌,
  if◌then◌else◌,
}
use opendrive_bridge.Common.Text.{Text, is_empty}
use opendrive_bridge.Common.Dict.{find, insert, delete}
use opendrive_bridge.Sdk.Errors.{ApiError, is_temporary}
use opendrive_bridge.Jobs.Types.{
  JobState, queued, running, succeeded, failed, cancelled, is_terminal, Phase, Failure, new_error,
  Spec, Job, Engine,
}

abbrev pub put_job : Job → Engine → Engine
put_job j e = record e { jobs = insert j.id j e.jobs }

-- `store.Save`, if it succeeds.
unfoldable pub save : Bool → Job → Engine → Engine
unfolding insert
save saved j e = if saved then record e { stored = insert j.id j e.stored } else e

-- `persist`.
unfoldable pub persist : Bool → Text → Engine → Engine
unfolding save find
persist saved id e = elim (find id e.jobs) [ none ↦ e | some j ↦ save saved j e ]

-- What upstream answers about a record: nothing there, an error, or its hash and size.
pub data InfoAnswer : Type 0 where
  not_there unreadable : InfoAnswer
  record_found : Text → ℕ → InfoAnswer

-- `recordIsWholeFile`; `same_hash` is `strings.EqualFold`.
unfoldable pub record_is_whole_file : (Text → Text → Bool) → Text → ℕ → Job → Bool
record_is_whole_file same_hash file_hash size j =
    let want = if j.spec.size == 0 then j.bytes_total else j.spec.size in
    if is_empty file_hash
    then false
    else if ltb 0 want && not (size == want)
    then false
    else if not (is_empty j.spec.hash) && not (same_hash j.spec.hash file_hash)
    then false
    else true

-- How `reclaim` ends: the record stays, it is a complete file, or its deletion is asked for.
pub data Reclaim : Type 0 where
  left_alone whole_file asked : Reclaim

-- `reclaim`, up to the answer of the deletion.
unfoldable pub reclaim : (Text → Text → Bool) → InfoAnswer → Job → Reclaim
unfolding record_is_whole_file
reclaim same_hash info j =
    if is_empty j.upstream_file_id || j.spec.overwrite then left_alone else elim info [
      | not_there ↦ left_alone
      | unreadable ↦ left_alone
      | record_found file_hash size ↦
          if record_is_whole_file same_hash file_hash size j
          then whole_file
          else if not (is_empty file_hash) || not (size == 0)
          then left_alone
          else asked
    ]

-- The deletion of `reclaim`.
abbrev pub ask_deletion : Reclaim → Job → Engine → Engine
ask_deletion asked j e = record e { deletions = j.upstream_file_id ∷ e.deletions }
ask_deletion _ j e = e

abbrev pub forget_record : Job → Job
forget_record j = record j { upstream_file_id = []; upstream_temp_location = [] }

-- `reclaimByID`.
unfoldable pub reclaim_by_id : (Text → Text → Bool) → InfoAnswer → Text → Engine → Engine
unfolding reclaim find insert
reclaim_by_id same_hash info id e = elim (find id e.jobs) [
  | none ↦ e
  | some j ↦
      let e' = ask_deletion (reclaim same_hash info j) j e in
      record e' { jobs = insert id (forget_record j) e'.jobs }
]

-- The job as `finish` writes it.
abbrev pub finished : JobState → Option Failure → ℕ → Job → Job
finished st f now j = record j {
  state = st;
  error = elim f [ none ↦ none | some x ↦ some (new_error x) ];
  updated_at = now;
  bytes_done = elim st [
    | succeeded ↦ if ltb 0 j.bytes_total then j.bytes_total else j.bytes_done
    | _ ↦ j.bytes_done
  ];
}

-- `finish`.
unfoldable pub finish : Text → JobState → Option Failure → ℕ → Bool → Engine → Engine
unfolding new_error save find insert
finish id st f now saved e = elim (find id e.jobs) [
  | none ↦ e
  | some j ↦
      let next = finished st f now j in
      let e' = save saved next e in record e' { jobs = insert id next e'.jobs }
]

-- A round of `run` up to the transfer: the attempt and the specification that it starts, if it does.
unfoldable pub run_begin : Text → ℕ → Bool → Engine → Engine × Option (ℕ × Spec)
unfolding persist find insert
run_begin id now saved e = elim (find id e.jobs) [
  | none ↦ (e, none)
  | some j ↦
      if is_terminal j.state
      then (e, none)
      else (let j' = record j {
        state = running;
        attempts = j.attempts + 1;
        error = none;
        updated_at = now;
      } in
          (
            persist saved id
                (record e { jobs = insert id j' e.jobs; cancels = insert id false e.cancels }),
            some (j'.attempts, j'.spec),
          ))
]

-- `maxAttempts`.
unfoldable pub max_attempts_of : Option ApiError → ℕ → ℕ
max_attempts_of none attempts = attempts
max_attempts_of (some x) attempts =
    if ltb 0 x.retry_budget && ltb x.retry_budget attempts then x.retry_budget else attempts

-- How a round of `run` goes on: it is over, or the job sleeps before the next one.
pub data Rest : Type 0 where
  over again : Rest

-- `cancelled`.
unfoldable pub is_cancelled : Text → Engine → Bool
unfolding find
is_cancelled id e = elim (find id e.jobs) [
  | none ↦ false
  | some j ↦ elim (j.state) [ cancelled ↦ true | _ ↦ false ]
]

-- The job that waits for its next attempt.
abbrev pub requeued : Failure → ℕ → Job → Job
requeued f now j = record j { state = queued; error = some (new_error f); updated_at = now }

unfoldable pub requeue : Text → Failure → ℕ → Bool → Engine → Engine
unfolding new_error persist find insert
requeue id f now saved e = elim (find id e.jobs) [
  | none ↦ e
  | some j ↦ persist saved id (record e { jobs = insert id (requeued f now j) e.jobs })
]

-- A round of `run` from the return of the transfer to the sleep.
unfoldable pub run_end :
    (Text → Text → Bool)
    → InfoAnswer
    → Text
    → ℕ
    → Option Failure
    → ℕ
    → Bool
    → Engine
    → Engine × Rest
unfolding reclaim_by_id finish requeue is_cancelled max_attempts_of is_temporary delete
run_end same_hash info id attempt outcome now saved e0 =
    let e = record e0 { cancels = delete id e0.cancels } in
    elim outcome [
      | none ↦ (finish id succeeded none now saved e, over)
      | some f ↦
          if is_cancelled id e || f.is_canceled
          then (finish id cancelled none now saved (reclaim_by_id same_hash info id e), over)
          else if not (is_temporary f.api) || leb (max_attempts_of f.api e.max_attempts) attempt
          then (finish id failed (some f) now saved (reclaim_by_id same_hash info id e), over)
          else (requeue id f now saved e, again)
    ]

-- The end of `run` where the sleep is cut short.
unfoldable pub sleep_cut : (Text → Text → Bool) → InfoAnswer → Text → ℕ → Bool → Engine → Engine
unfolding reclaim_by_id finish
sleep_cut same_hash info id now saved e =
    finish id cancelled none now saved (reclaim_by_id same_hash info id e)

abbrev pub change_job : (Job → Job) → Text → Engine → Engine
change_job f id e = elim (find id e.jobs) [
  | none ↦ e
  | some j ↦ record e { jobs = insert id (f j) e.jobs }
]

-- `OnRecordCreated`.
unfoldable pub record_created : Text → Text → Text → ℕ → Bool → Engine → Engine
unfolding persist find insert
record_created id file_id temp now saved e = persist saved id (
    change_job
      (λ j. record j {
        upstream_file_id = file_id;
        upstream_temp_location = temp;
        updated_at = now;
      })
      id e)

-- `progress`.
unfoldable pub progress : Text → ℕ → ℕ → ℕ → Engine → Engine
unfolding find insert
progress id done total now e =
    change_job
      (λ j. record j {
        bytes_done = done;
        bytes_total = if ltb 0 total then total else j.bytes_total;
        updated_at = now;
      })
      id e

-- `setPhase`.
unfoldable pub set_phase : Text → Phase → ℕ → Bool → Engine → Engine
unfolding persist find insert
set_phase id p now saved e =
    persist saved id (change_job (λ j. record j { phase = p; updated_at = now }) id e)

-- The end of `runUpload`, behind the wait for the file to be visible.
unfoldable pub upload_verified : Text → Engine → Engine
unfolding find insert
upload_verified id e = change_job forget_record id e
