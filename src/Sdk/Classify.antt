-- ===== src/Sdk/Classify.antt =====
-- The classification of a response (pkg/opendrive/classify.go). Bodies are texts.
use opendrive_bridge.Common.{
  ℕ, Bool, true, false, ◌||◌, Option, none, some, List, [], ◌∷◌, any, leb, ◌==◌, if◌then◌else◌,
}
use opendrive_bridge.Common.Text.{Text, codes, text_eq, contains}
use opendrive_bridge.Sdk.Errors.{
  Kind, reauth_required, token_expired, captcha_required, edge_rejected, not_found, conflict,
  quota_exceeded, bandwidth_exceeded, invalid_name, upstream_error, rate_limited, invalid_request,
  refresh_token_failed, BodyShape, shape_empty, RetryState, retry_default, retry_yes, retry_no,
  ApiError,
}
use opendrive_bridge.Sdk.Evidence.{Evidence, Reader, is_json, is_page, bare_error, read_body}

-- `containsAny`.
abbrev pub contains_any : Text → List Text → Bool
contains_any haystack needles = any (λ n. contains haystack n) needles

abbrev pub bad_credential_phrases : List Text
bad_credential_phrases =
    codes "invalid username or password"
    ∷ codes "invalid username"
    ∷ codes "invalid password"
    ∷ codes "wrong password"
    ∷ codes "incorrect password"
    ∷ codes "username or password"
    ∷ codes "account is suspended"
    ∷ codes "account suspended"
    ∷ []

abbrev pub permanent_denial_phrases : List Text
permanent_denial_phrases = codes "account users cannot" ∷ codes "restricted user" ∷ []

abbrev pub ambiguous_permission_phrases : List Text
ambiguous_permission_phrases =
    codes "your user access enables you only to view"
    ∷ codes "you do not have permission"
    ∷ codes "permission denied"
    ∷ []

abbrev pub session_expired_phrases : List Text
session_expired_phrases =
    codes "session does not exist"
    ∷ codes "session expired"
    ∷ codes "re-login"
    ∷ codes "invalid session"
    ∷ []

abbrev pub quota_phrases : List Text
quota_phrases =
    codes "quota" ∷ codes "storage limit" ∷ codes "not enough space" ∷ codes "space limit" ∷ []

abbrev pub name_phrases : List Text
name_phrases =
    codes "invalid file name" ∷ codes "invalid folder name" ∷ codes "illegal character" ∷ []

-- `verdict`.
pub record Verdict : Type 0 where
  pub kind : Kind
  pub ambiguous : Bool
  pub retry : RetryState

abbrev pub plain : Kind → RetryState → Verdict
plain k r = record { kind = k; ambiguous = false; retry = r }

-- `edgeRetry`.
unfoldable pub edge_retry : ℕ → RetryState
edge_retry status = if status == 0 || leb 500 status || status == 429 then retry_yes else retry_no

-- The answers by `OAuthError`.
unfoldable pub oauth_verdict : Text → Option Verdict
unfolding text_eq
oauth_verdict e =
    if text_eq e (codes "invalid_token") || text_eq e (codes "expired_token")
    then some (plain token_expired retry_default)
    else if text_eq e (codes "invalid_grant")
    then some (plain refresh_token_failed retry_default)
    else if text_eq e (codes "invalid_client")
        || text_eq e (codes "unauthorized_client")
        || text_eq e (codes "access_denied")
    then some (plain reauth_required retry_no)
    else none

-- The answers by the phrases of the message.
unfoldable pub phrase_verdict : Text → Option Verdict
unfolding contains
phrase_verdict msg =
    if contains_any msg permanent_denial_phrases
    then some (plain upstream_error retry_no)
    else if contains_any msg bad_credential_phrases
    then some (plain reauth_required retry_no)
    else if contains msg (codes "bandwidth")
    then some (plain bandwidth_exceeded retry_no)
    else if contains_any msg quota_phrases
    then some (plain quota_exceeded retry_no)
    else if contains_any msg name_phrases
    then some (plain invalid_name retry_no)
    else if contains_any msg session_expired_phrases
    then some (plain token_expired retry_default)
    else none

abbrev pub is_empty_shape : BodyShape → Bool
is_empty_shape shape_empty = true
is_empty_shape _ = false

abbrev pub doubtful : Verdict
doubtful = record { kind = upstream_error; ambiguous = true; retry = retry_no }

-- The status, or the code in the body where there is none.
abbrev pub effective_code : ℕ → ℕ → ℕ
effective_code status upstream_code = if status == 0 then upstream_code else status

-- The answers by the code.
unfoldable pub code_verdict : ℕ → BodyShape → Text → Verdict
unfolding contains
code_verdict code shape msg =
    if code == 401
    then (if is_json shape then plain token_expired retry_default else doubtful)
    else if code == 403
    then (if contains_any msg ambiguous_permission_phrases
        then doubtful
        else plain upstream_error retry_no)
    else if code == 400
    then plain invalid_request retry_no
    else if code == 404
    then plain not_found retry_no
    else if code == 409
    then plain conflict retry_no
    else if code == 429
    then plain rate_limited retry_yes
    else if code == 413
    then plain quota_exceeded retry_no
    else if leb 500 code || code == 0
    then plain upstream_error retry_yes
    else record { kind = upstream_error; ambiguous = is_empty_shape shape; retry = retry_no }

-- `classify` behind its first test, of the message in lower case.
unfoldable pub classify_message : Text → Text → ℕ → BodyShape → Verdict
unfolding oauth_verdict phrase_verdict code_verdict contains
classify_message msg oauth_error code shape =
    if contains msg (codes "captcha")
    then plain captcha_required retry_no
    else elim (oauth_verdict oauth_error) [
      | some v ↦ v
      | none ↦ elim (phrase_verdict msg) [ some v ↦ v | none ↦ code_verdict code shape msg ]
    ]

-- `classify`.
unfoldable pub classify : Reader → Evidence → ApiError → Verdict
unfolding edge_retry classify_message
classify w ev e =
    if is_page e.shape
    then plain edge_rejected (edge_retry ev.status)
    else classify_message (w.lower e.upstream_msg) e.oauth_error
        (effective_code ev.status e.upstream_code) e.shape

-- `classifyResponse`.
unfoldable pub classify_response : Reader → Evidence → ApiError
unfolding bare_error read_body classify
classify_response w ev =
    let e = read_body w (bare_error w ev) ev.body in
    let v = classify w ev e in record e { kind = v.kind; ambiguous = v.ambiguous; retry = v.retry }
