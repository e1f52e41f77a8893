-- ===== src/Jobs/Submitting.antt =====
-- `Submit` of the job engine (internal/jobs/engine.go, and `initialPhase` of cache.go).
use opendrive_bridge.Common.{ℕ, Bool, not, ◌&&◌, none, [], ◌∷◌, ◌++◌, length, ltb, if◌then◌else◌}
use opendrive_bridge.Common.Text.{Text, is_empty}
use opendrive_bridge.Common.Dict.{insert, delete}
use opendrive_bridge.Jobs.Types.{
  queued, Phase, caching, uploading, downloading, JobKind, upload, download, other_kind, Spec, Job,
  Engine,
}
use opendrive_bridge.Jobs.Engine.{put_job, save}

-- `initialPhase`, of an engine with a cache that takes writes or not.
abbrev pub initial_phase : Bool → JobKind → Phase
initial_phase write_back download = downloading
initial_phase write_back _ = if write_back then caching else uploading

-- The errors of `validateSpec`.
pub data SpecError : Type 0 where
  upload_without_path download_without_source download_without_path unknown_kind : SpecError

pub data Valid : Type 0 where
  invalid : SpecError → Valid
  valid : Spec → Valid

-- `validateSpec`; `base` is `filepath.Base`.
unfoldable pub validate_spec : (Text → Text) → Spec → Valid
validate_spec base s = elim (s.kind) [
  | upload ↦
      if is_empty s.local_path
      then invalid upload_without_path
      else if is_empty s.name
      then valid (record s { name = base s.local_path })
      else valid s
  | download ↦
      if is_empty s.file_id && is_empty s.remote_path
      then invalid download_without_source
      else if is_empty s.local_path
      then invalid download_without_path
      else valid s
  | other_kind k ↦ invalid unknown_kind
]

pub data Submitted : Type 0 where
  refused : SpecError → Submitted
  not_persisted queue_full : Submitted
  accepted : Job → Submitted

abbrev pub new_job : Bool → Text → ℕ → Spec → Job
new_job write_back id now s = record {
  id = id;
  kind = s.kind;
  state = queued;
  phase = initial_phase write_back s.kind;
  local_path = s.local_path;
  remote_path = s.remote_path;
  bytes_done = 0;
  bytes_total = s.size;
  error = none;
  created_at = now;
  updated_at = now;
  attempts = 0;
  spec = s;
  upstream_file_id = [];
  upstream_temp_location = [];
}

abbrev pub job_queue_capacity : ℕ
job_queue_capacity = 1024

-- `Submit` behind the validation; `removed` says whether the deletion from the store succeeds.
unfoldable pub submit_valid : Job → Bool → Bool → Engine → Engine × Submitted
unfolding save insert delete
submit_valid j saved removed e =
    if not saved
    then (e, not_persisted)
    else if ltb (length e.queue) job_queue_capacity
    then (record (put_job j (save saved j e)) { queue = e.queue ++ (j.id ∷ []) }, accepted j)
    else (let e' = put_job j (save saved j e) in
        (
          record e' {
            jobs = delete j.id e'.jobs;
            stored = if removed then delete j.id e'.stored else e'.stored;
          },
          queue_full,
        ))

-- `Submit`; `id` is what `newJobID` drew.
unfoldable pub submit :
    (Text → Text) → Bool → Text → ℕ → Spec → Bool → Bool → Engine → Engine × Submitted
unfolding validate_spec submit_valid
submit base write_back id now s saved removed e = elim (validate_spec base s) [
  | invalid x ↦ (e, refused x)
  | valid s' ↦ submit_valid (new_job write_back id now s') saved removed e
]
