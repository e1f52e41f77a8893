-- ===== src/Sdk/Errors.antt =====
-- The errors of the client library (pkg/opendrive/errors.go), without the wrapped cause of an error
-- and its printed form. Status codes are natural numbers, and so are times and their differences.
use opendrive_bridge.Common.{
  ℕ, Bool, true, false, not, ◌&&◌, ◌||◌, Option, none, some, leb, ◌==◌, if◌then◌else◌,
}
use opendrive_bridge.Common.Text.{Text}

-- `Kind`, with the empty one that `ErrorKind` answers for other errors.
pub data Kind : Type 0 where
  no_kind keystore_unavailable reauth_required token_expired captcha_required : Kind
  unauthorized edge_rejected not_found conflict quota_exceeded bandwidth_exceeded : Kind
  invalid_name upstream_error rate_limited network invalid_response : Kind
  invalid_request refresh_token_failed : Kind

pub data BodyShape : Type 0 where
  shape_unset shape_empty shape_json shape_html shape_text : BodyShape

-- `retryState`.
pub data RetryState : Type 0 where
  retry_default retry_yes retry_no : RetryState

-- What was concluded beyond upstream's own words, as `resolve` says it.
pub data Diagnosis : Type 0 where
  no_diagnosis credential_refused account_restricted : Diagnosis
  transient_refusal one_more_attempt operation_restricted : Diagnosis

pub record ApiError : Type 0 where
  pub kind : Kind
  pub http_code : ℕ
  pub upstream_code : ℕ
  pub upstream_msg : Text
  pub oauth_error : Text
  pub op : Text
  pub url : Text
  pub retry_after : ℕ
  pub shape : BodyShape
  pub scope : Text
  pub ambiguous : Bool
  pub resolved : Bool
  pub retry : RetryState
  pub retry_budget : ℕ
  pub diagnosis : Diagnosis

-- A body that may carry a verdict about the credential: one of the library's own, or JSON.
abbrev pub is_trusted : BodyShape → Bool
is_trusted shape_unset = true
is_trusted shape_json = true
is_trusted _ = false

-- `decisive`.
unfoldable pub decisive : ApiError → Bool
decisive e = is_trusted e.shape && (not e.ambiguous || e.resolved)

-- `drivesAuth`.
unfoldable pub drives_auth : ApiError → Bool
drives_auth e = if e.ambiguous && not e.resolved then false else is_trusted e.shape

-- `Temporary` where the classifier left it to the kind.
abbrev pub temporary_kind : Kind → ℕ → Bool
temporary_kind rate_limited code = true
temporary_kind network code = true
temporary_kind upstream_error code = code == 0 || leb 500 code
temporary_kind edge_rejected code = code == 0 || leb 500 code
temporary_kind _ code = false

abbrev pub temporary_by : RetryState → Kind → ℕ → Bool
temporary_by retry_default k code = temporary_kind k code
temporary_by retry_yes k code = true
temporary_by retry_no k code = false

-- `Temporary`.
unfoldable pub temporary : ApiError → Bool
temporary e = temporary_by e.retry e.kind e.http_code

-- `replaySafe`.
unfoldable pub replay_safe : ApiError → Bool
replay_safe e = e.http_code == 403 || e.http_code == 429

-- `IsTemporary`, `RetryAfter` and `ErrorKind`, for an error with the library's in its chain or not.
unfoldable pub is_temporary : Option ApiError → Bool
unfolding temporary
is_temporary none = false
is_temporary (some e) = temporary e

unfoldable pub retry_after_of : Option ApiError → ℕ
retry_after_of none = 0
retry_after_of (some e) = e.retry_after

unfoldable pub error_kind : Option ApiError → Kind
error_kind none = no_kind
error_kind (some e) = e.kind
