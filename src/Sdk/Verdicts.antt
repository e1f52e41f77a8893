-- ===== src/Sdk/Verdicts.antt =====
-- What a response can be judged to be (pkg/opendrive/classify.go).
use opendrive_bridge.Common.{
  ℕ, ◌≡◌, ◌⊎◌, refl, sym, ap, ◌∙◌, Bool, true, false, ◌||◌, some, [], arith, leb, ◌==◌, inl, inr,
  Bool-cases, Option-cases,
}
use opendrive_bridge.Common.Text.{Text, codes, text_eq, contains, has_prefix}
use opendrive_bridge.Sdk.Errors.{
  Kind, keystore_unavailable, reauth_required, token_expired, captcha_required, unauthorized,
  edge_rejected, refresh_token_failed, BodyShape, shape_empty, shape_json, shape_html, shape_text,
  shape_unset, ApiError, temporary, temporary_by,
}
use opendrive_bridge.Sdk.Classify.{
  Verdict, edge_retry, oauth_verdict, phrase_verdict, code_verdict, effective_code,
  classify_message, classify, classify_response, plain,
}
use opendrive_bridge.Sdk.Evidence.{
  Evidence, Reader, body_shape, bare_error, read_body, is_json, is_page, parse_error_envelope,
}

-- The kinds that say something of the credential.
abbrev pub is_credential : Kind → Bool
is_credential keystore_unavailable = true
is_credential reauth_required = true
is_credential token_expired = true
is_credential captcha_required = true
is_credential unauthorized = true
is_credential refresh_token_failed = true
is_credential _ = false

-- A code that tells of pressure: none, a server error, or too many requests.
abbrev pub is_pressure : ℕ → Bool
is_pressure code = code == 0 || leb 500 code || code == 429

-- A verdict that asks for no repetition by itself, whatever the status.
abbrev Calm : Verdict → Type 0
Calm v = ((code : ℕ) → temporary_by v.retry v.kind code ≡ false) × (v.ambiguous ≡ false)

oauth_verdict-Calm : (e : Text) (v : Verdict) → oauth_verdict e ≡ some v → Calm v
unfolding oauth_verdict
oauth_verdict-Calm e v h = (λ code. ground (arith, h), ground (arith, h))

phrase_verdict-Calm : (msg : Text) (v : Verdict) → phrase_verdict msg ≡ some v → Calm v
unfolding phrase_verdict
phrase_verdict-Calm msg v h = (λ code. ground (arith, h), ground (arith, h))

code_verdict-pressure :
    (code status : ℕ) (s : BodyShape) (msg : Text)
    → (let v = code_verdict code s msg in temporary_by v.retry v.kind status) ≡ true
    → is_pressure code ≡ true
unfolding code_verdict
code_verdict-pressure code status s msg h = ground (arith, h)

parse_error_envelope-shape :
    (w : Reader) (e : ApiError) (body : Text) → (parse_error_envelope w e body).shape ≡ e.shape
unfolding parse_error_envelope
parse_error_envelope-shape w e body = ground arith

read_body-shape : (w : Reader) (e : ApiError) (body : Text) → (read_body w e body).shape ≡ e.shape
unfolding read_body
read_body-shape w e body = ground (arith, parse_error_envelope-shape w e body)

parse_error_envelope-http_code :
    (w : Reader) (e : ApiError) (body : Text)
    → (parse_error_envelope w e body).http_code ≡ e.http_code
unfolding parse_error_envelope
parse_error_envelope-http_code w e body = ground arith

read_body-http_code :
    (w : Reader) (e : ApiError) (body : Text) → (read_body w e body).http_code ≡ e.http_code
unfolding read_body
read_body-http_code w e body = ground (arith, parse_error_envelope-http_code w e body)

pub classify-page :
    (w : Reader) (ev : Evidence) (e : ApiError)
    → is_page e.shape ≡ true
    → classify w ev e ≡ plain edge_rejected (edge_retry ev.status)
unfolding classify
classify-page w ev e h = ground (arith, h)

-- What is not a page is judged by the captcha, by the word of OAuth, by a phrase or by the code.
pub classify_message-cases :
    (msg oauth_error : Text) (code : ℕ) (s : BodyShape)
    → Calm (classify_message msg oauth_error code s)
      ⊎ (classify_message msg oauth_error code s ≡ code_verdict code s msg)
unfolding classify_message
classify_message-cases msg oauth_error code s = elim (Bool-cases (contains msg (codes "captcha"))) [
  | inl c ↦ inl (rw (c, classify_message) (λ code. refl, refl))
  | inr c ↦ elim (Option-cases (oauth_verdict oauth_error)) [
    | inr (v, o) ↦ inl (rw (c, classify_message) (rw o (oauth_verdict-Calm oauth_error v o)))
    | inl o ↦ elim (Option-cases (phrase_verdict msg)) [
      | inr (v, p) ↦ inl (rw (c, classify_message) (rw o (rw p (phrase_verdict-Calm msg v p))))
      | inl p ↦ inr (rw (c, classify_message) (rw o (rw p refl)))
    ]
  ]
]

pub classify-message :
    (w : Reader) (ev : Evidence) (e : ApiError)
    → is_page e.shape ≡ false
    → classify w ev e
      ≡ classify_message
          (w.lower e.upstream_msg)
          e.oauth_error
          (effective_code ev.status e.upstream_code)
          e.shape
unfolding classify
classify-message w ev e h = rw h refl

edge_retry-pressure :
    (status other : ℕ) (k : Kind)
    → temporary_by (edge_retry status) k other ≡ true
    → is_pressure status ≡ true
unfolding edge_retry
edge_retry-pressure status other k h = ground (arith, h)

page-is_json : (s : BodyShape) → is_page s ≡ true → is_json s ≡ false
page-is_json shape_unset h = refl
page-is_json shape_empty h = refl
page-is_json shape_json h = absurd (cc h)
page-is_json shape_html h = refl
page-is_json shape_text h = refl

page-upstream_code :
    (w : Reader) (e : ApiError) (body : Text)
    → is_page e.shape ≡ true
    → (read_body w e body).upstream_code ≡ e.upstream_code
unfolding read_body
page-upstream_code w e body h = rw (page-is_json e.shape h) (rw h refl)

classify-pressure :
    (w : Reader) (ev : Evidence) (e : ApiError)
    → (is_page e.shape ≡ true → e.upstream_code ≡ 0)
    → (let v = classify w ev e in temporary_by v.retry v.kind ev.status) ≡ true
    → is_pressure (effective_code ev.status e.upstream_code) ≡ true
classify-pressure w ev e z h = elim (Bool-cases (is_page e.shape)) [
  | inl p ↦
      let edge : is_pressure ev.status ≡ true =
        edge_retry-pressure ev.status ev.status edge_rejected
          (ap (λ v. temporary_by v.retry v.kind ev.status) (sym (classify-page w ev e p)) ∙ h) in
      ground (arith, z p, edge)
  | inr p ↦
      let code = effective_code ev.status e.upstream_code in
      let msg = w.lower e.upstream_msg in
      let again : Verdict → Bool = λ v. temporary_by v.retry v.kind ev.status in
      let h' : again (classify_message msg e.oauth_error code e.shape) ≡ true =
        ap again (sym (classify-message w ev e p)) ∙ h in
      elim (classify_message-cases msg e.oauth_error code e.shape) [
        | inl calm ↦ absurd (cc (calm.0 ev.status, h'))
        | inr by_code ↦
            code_verdict-pressure code ev.status e.shape msg (ap again (sym by_code) ∙ h')
      ]
]

-- A response is judged to be worth repeating only where its status, or the code in its body where
-- there is no status, tells of pressure: 0, 429, or 500 and above.
pub retried_under_pressure :
    (w : Reader) (ev : Evidence)
    → temporary (classify_response w ev) ≡ true
    → (let e = classify_response w ev in is_pressure (effective_code e.http_code e.upstream_code))
      ≡ true
unfolding temporary classify_response
retried_under_pressure w ev h =
    let b = bare_error w ev in
    let e = read_body w b ev.body in
    let code : e.http_code ≡ ev.status = read_body-http_code w b ev.body in
    ap (λ x. is_pressure (effective_code x e.upstream_code)) code
    ∙ classify-pressure w ev e
        (λ p. page-upstream_code w b ev.body (ap is_page (sym (read_body-shape w b ev.body)) ∙ p))
        (ap (λ x. let v = classify w ev e in temporary_by v.retry v.kind x) (sym code) ∙ h)

body_shape-is_set :
    (w : Reader) (body content_type : Text)
    → is_json (body_shape w body content_type) ≡ false
    → is_page (body_shape w body content_type) ≡ false
    → body_shape w body content_type ≡ shape_empty
unfolding body_shape
body_shape-is_set w body content_type j p = ground (arith, j, p)

is_json_iff : (s : BodyShape) → is_json s ≡ true → s ≡ shape_json
is_json_iff shape_json h = refl
is_json_iff shape_unset h = absurd (cc h)
is_json_iff shape_empty h = absurd (cc h)
is_json_iff shape_html h = absurd (cc h)
is_json_iff shape_text h = absurd (cc h)

code_verdict-silent : (code : ℕ) → is_credential (code_verdict code shape_empty []).kind ≡ false
unfolding code_verdict
code_verdict-silent code = ground arith

-- Without a word of upstream's, no answer speaks of the credential.
classify_message-silent :
    (code : ℕ) → is_credential (classify_message [] [] code shape_empty).kind ≡ false
unfolding classify_message oauth_verdict phrase_verdict contains has_prefix text_eq
classify_message-silent code = code_verdict-silent code

classify-silent :
    (w : Reader) (ev : Evidence) (e : ApiError)
    → w.lower e.upstream_msg ≡ []
    → e.oauth_error ≡ []
    → e.shape ≡ shape_empty
    → is_credential (classify w ev e).kind ≡ false
classify-silent w ev e m o s =
    let code = effective_code ev.status e.upstream_code in
    ap (λ v. is_credential v.kind) (classify-message w ev e (ap is_page s))
    ∙ rw m (rw o (rw s (classify_message-silent code)))

-- Only a JSON body gives a verdict about the credential: a page, a text and an empty body never do,
-- whatever their status. Lower case is taken to leave the empty text empty.
pub credential_kinds_from_json :
    (w : Reader)
    → w.lower [] ≡ []
    → (ev : Evidence) → is_credential (classify_response w ev).kind ≡ true
    → body_shape w ev.body ev.content_type ≡ shape_json
unfolding classify_response bare_error
credential_kinds_from_json w l ev h =
    let s = body_shape w ev.body ev.content_type in
    let b = bare_error w ev in
    let e = read_body w b ev.body in
    let shape : e.shape ≡ s = read_body-shape w b ev.body in
    elim (Bool-cases (is_json s)) [
      | inl j ↦ is_json_iff s j
      | inr j ↦ elim (Bool-cases (is_page s)) [
        | inl p ↦
            absurd
              (cc (ap (λ v. is_credential v.kind) (classify-page w ev e (ap is_page shape ∙ p)), h))
        | inr p ↦
            let same : e ≡ b = unfold read_body in rw j (rw p refl) in
            let silent =
              classify-silent w ev b l refl (body_shape-is_set w ev.body ev.content_type j p) in
            absurd (cc (sym (ap (λ x. is_credential (classify w ev x).kind) same) ∙ h, silent))
      ]
    ]
