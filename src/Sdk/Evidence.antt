-- ===== src/Sdk/Evidence.antt =====
-- What the classifier looks at (pkg/opendrive/classify.go), and the error that it reads from a response.
-- Bodies are texts.
use opendrive_bridge.Common.{
  ℕ, Bool, true, false, not, ◌||◌, Option, none, some, List, [], ◌∷◌, ◌==◌, if◌then◌else◌,
}
use opendrive_bridge.Common.Text.{Text, codes, contains, is_empty, trim_space}
use opendrive_bridge.Sdk.Errors.{
  no_kind, BodyShape, shape_empty, shape_json, shape_html, shape_text, retry_default, no_diagnosis,
  ApiError,
}

-- `Evidence`, with the delay that `parseRetryAfter` read from the header.
pub record Evidence : Type 0 where
  pub status : ℕ
  pub retry_after : ℕ
  pub body : Text
  pub content_type : Text
  pub op : Text
  pub scope : Text
  pub url : Text

-- `wireError`, its field `error` undecoded, and `wireErrorObject`.
pub record WireError : Type 0 where
  pub error : Text
  pub error_description : Text
  pub message : Text

pub record WireErrorObject : Type 0 where
  pub code : ℕ
  pub message : Text
  pub error : Text
  pub error_description : Text

-- What the classifier takes from the Go library: lower case, the three readings of JSON (the second
-- and third give what they could fill in), and the cut of a text to 300 bytes.
pub record Reader : Type 0 where
  pub lower : Text → Text
  pub read_error : Text → Option WireError
  pub read_object : Text → WireErrorObject
  pub read_string : Text → Text
  pub truncate : Text → Text

-- `firstNonEmpty`.
abbrev pub first_non_empty : List Text → Text
first_non_empty [] = []
first_non_empty (v ∷ vs) = if not (is_empty v) then v else first_non_empty vs

abbrev pub first_char : Text → ℕ
first_char [] = 0
first_char (c ∷ s) = c

-- `bodyShape`.
unfoldable pub body_shape : Reader → Text → Text → BodyShape
unfolding trim_space contains
body_shape w body content_type =
    let trimmed = trim_space body in
    if is_empty trimmed
    then shape_empty
    else if first_char trimmed == b'{' || first_char trimmed == b'['
    then shape_json
    else if first_char trimmed == b'<'
    then shape_html
    else if contains (w.lower content_type) (codes "html")
    then shape_html
    else shape_text

-- The object that `parseErrorEnvelope` reads.
unfoldable pub error_object : Reader → WireError → WireErrorObject
error_object w env =
    if first_char env.error == b'{'
    then w.read_object env.error
    else if first_char env.error == b'"'
    then record {
      code = 0;
      message = [];
      error = w.read_string env.error;
      error_description = env.error_description;
    }
    else record { code = 0; message = env.message; error = []; error_description = [] }

-- `parseErrorEnvelope`.
unfoldable pub parse_error_envelope : Reader → ApiError → Text → ApiError
unfolding error_object
parse_error_envelope w e body = elim (w.read_error body) [
  | none ↦ e
  | some env ↦
      let obj = error_object w env in
      record e {
        upstream_code = obj.code;
        oauth_error = obj.error;
        upstream_msg =
            first_non_empty
              (obj.message ∷ obj.error_description ∷ env.error_description ∷ env.message ∷ []);
      }
]

abbrev pub is_json : BodyShape → Bool
is_json shape_json = true
is_json _ = false

abbrev pub is_page : BodyShape → Bool
is_page shape_html = true
is_page shape_text = true
is_page _ = false

-- The error that `classifyResponse` starts with.
unfoldable pub bare_error : Reader → Evidence → ApiError
unfolding body_shape
bare_error w ev = record {
  kind = no_kind;
  http_code = ev.status;
  upstream_code = 0;
  upstream_msg = [];
  oauth_error = [];
  op = ev.op;
  url = ev.url;
  retry_after = ev.retry_after;
  shape = body_shape w ev.body ev.content_type;
  scope = ev.scope;
  ambiguous = false;
  resolved = false;
  retry = retry_default;
  retry_budget = 0;
  diagnosis = no_diagnosis;
}

-- The error with what the body says.
unfoldable pub read_body : Reader → ApiError → Text → ApiError
unfolding parse_error_envelope trim_space
read_body w e body =
    if is_json e.shape
    then parse_error_envelope w e body
    else if is_page e.shape
    then record e { upstream_msg = w.truncate (trim_space body) }
    else e
