-- ===== src/Jobs/Types.antt =====
-- The jobs of the engine (internal/jobs/job.go), without the speed that a job shows.
use opendrive_bridge.Common.{ℕ, Bool, true, false, Option, none, some, List, if◌then◌else◌}
use opendrive_bridge.Common.Text.{Text, is_empty}
use opendrive_bridge.Common.Dict.{Dict}
use opendrive_bridge.Sdk.Errors.{
  Kind, no_kind, upstream_error, Diagnosis, no_diagnosis, ApiError, is_temporary, error_kind,
}

-- `State`.
pub data JobState : Type 0 where
  queued running succeeded failed cancelled : JobState

-- `Terminal`.
abbrev pub is_terminal : JobState → Bool
is_terminal succeeded = true
is_terminal failed = true
is_terminal cancelled = true
is_terminal _ = false

pub data Phase : Type 0 where
  caching uploading downloading : Phase

-- `Kind` of a job; the third is any other text.
pub data JobKind : Type 0 where
  upload download : JobKind
  other_kind : Text → JobKind

-- What a job's error says: the error's own words, upstream's, or what was concluded beyond them.
pub data Message : Type 0 where
  own : Text → Message
  upstream : Text → Message
  concluded : Diagnosis → Message

-- `Error`.
pub record JobError : Type 0 where
  pub code : Kind
  pub message : Message
  pub retryable : Bool
  pub http_status : ℕ

-- A Go error as the engine reads it: the library's error in its chain, if there is one, whether
-- `context.Canceled` is in it, and its words.
pub record Failure : Type 0 where
  pub api : Option ApiError
  pub is_canceled : Bool
  pub words : Text

abbrev pub or_upstream : Kind → Kind
or_upstream no_kind = upstream_error
or_upstream k = k

abbrev pub concluded_or : Diagnosis → Message → Message
concluded_or no_diagnosis m = m
concluded_or d m = concluded d

-- `newError` for an error.
unfoldable pub new_error : Failure → JobError
unfolding is_temporary error_kind
new_error f = record {
  code = or_upstream (error_kind f.api);
  message = elim (f.api) [
    | none ↦ own f.words
    | some e ↦
        concluded_or e.diagnosis
          (if is_empty e.upstream_msg then own f.words else upstream e.upstream_msg)
  ];
  retryable = is_temporary f.api;
  http_status = elim (f.api) [ none ↦ 0 | some e ↦ e.http_code ];
}

pub record Spec : Type 0 where
  pub kind : JobKind
  pub local_path : Text
  pub folder_id : Text
  pub name : Text
  pub file_id : Text
  pub remote_path : Text
  pub size : ℕ
  pub hash : Text
  pub overwrite : Bool

pub record Job : Type 0 where
  pub id : Text
  pub kind : JobKind
  pub state : JobState
  pub phase : Phase
  pub local_path : Text
  pub remote_path : Text
  pub bytes_done : ℕ
  pub bytes_total : ℕ
  pub error : Option JobError
  pub created_at : ℕ
  pub updated_at : ℕ
  pub attempts : ℕ
  pub spec : Spec
  pub upstream_file_id : Text
  pub upstream_temp_location : Text

-- `Engine`: the bound on the attempts, the jobs in memory, those on the disk, the queue, the contexts
-- of the running jobs with whether they were cancelled, and the records whose deletion was asked for.
pub record Engine : Type 0 where
  pub max_attempts : ℕ
  pub jobs : Dict Job
  pub stored : Dict Job
  pub queue : List Text
  pub cancels : Dict Bool
  pub deletions : List Text
