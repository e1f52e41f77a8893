-- ===== src/Sdk/Doubts.antt =====
-- How the errors are settled that a response leaves open (pkg/opendrive/classify.go).
use opendrive_bridge.Common.{
  ℕ, ◌≡◌, ◌⊎◌, ◌≤◌, ◌-◌, refl, sym, ap, ◌∙◌, true, false, not, ◌&&◌, ◌||◌, Option, none, some,
  arith, inl, inr, Bool-cases, is_some, Option-cases,
}
use opendrive_bridge.Common.Text.{Text}
use opendrive_bridge.Common.Dict.{find}
use opendrive_bridge.Sdk.Errors.{Kind, BodyShape, retry_no, ApiError, temporary, decisive}
use opendrive_bridge.Sdk.Classify.{
  code_verdict, effective_code, classify_message, classify, classify_response,
}
use opendrive_bridge.Sdk.Evidence.{Evidence, Reader, bare_error, read_body, is_page}
use opendrive_bridge.Sdk.Verdicts.{classify_message-cases, classify-message, classify-page}
use opendrive_bridge.Sdk.Resolve.{
  ProbeAnswer, works, fails, Disambiguator, witness_key, saw_success, mark_denied, Turn, check,
  is_refusal, resolve_failed, resolve_working, resolve_by, resolve,
}

-- An open verdict asks for no repetition.
code_verdict-doubt :
    (code : ℕ) (s : BodyShape) (msg : Text)
    → (code_verdict code s msg).ambiguous ≡ true
    → (code_verdict code s msg).retry ≡ retry_no
unfolding code_verdict
code_verdict-doubt code s msg h = ground (arith, h)

classify_message-doubt :
    (msg oauth_error : Text) (code : ℕ) (s : BodyShape)
    → (classify_message msg oauth_error code s).ambiguous ≡ true
    → (classify_message msg oauth_error code s).retry ≡ retry_no
classify_message-doubt msg oauth_error code s h =
    elim (classify_message-cases msg oauth_error code s) [
      | inl calm ↦ absurd (cc (calm.1, h))
      | inr by_code ↦
          ap (λ v. v.retry) by_code
          ∙ code_verdict-doubt code s msg (ap (λ v. v.ambiguous) (sym by_code) ∙ h)
    ]

classify-doubt :
    (w : Reader) (ev : Evidence) (e : ApiError)
    → (classify w ev e).ambiguous ≡ true
    → (classify w ev e).retry ≡ retry_no
classify-doubt w ev e h = elim (Bool-cases (is_page e.shape)) [
  | inl p ↦ absurd (cc (ap (λ v. v.ambiguous) (classify-page w ev e p), h))
  | inr p ↦
      let same = classify-message w ev e p in
      ap (λ v. v.retry) same
      ∙ classify_message-doubt (w.lower e.upstream_msg) e.oauth_error
          (effective_code ev.status e.upstream_code) e.shape (ap (λ v. v.ambiguous) (sym same) ∙ h)
]

-- No refusal of a call is remembered that is younger than the interval.
abbrev pub NotRefused : Disambiguator → Text → ℕ → Type 0
NotRefused d key now =
    (find key d.denied ≡ none)
    ⊎ ((at : ℕ) × (find key d.denied ≡ some at) × (d.interval ≤ now - at))

-- Why an open error may be repeated: the probe found the credential working, and the call has
-- succeeded before or is not remembered as refused within the interval.
abbrev pub Excused : Disambiguator → ApiError → ℕ → Option ProbeAnswer → Type 0
Excused d e now v =
    let key = witness_key e.op e.scope in
    (v ≡ some works) × ((saw_success d key ≡ true) ⊎ NotRefused d key now)

mark_denied-NotRefused :
    (d : Disambiguator) (key : Text) (now : ℕ)
    → (mark_denied d key now).1 ≡ true
    → NotRefused d key now
unfolding mark_denied
mark_denied-NotRefused d key now h = elim (Option-cases (find key d.denied)) [
  | inl n ↦ inl n
  | inr (at, f) ↦ inr (at, f, ground (arith, f, h))
]

resolve_working-NotRefused :
    (d : Disambiguator) (e : ApiError) (now : ℕ)
    → e.retry ≡ retry_no
    → temporary (resolve_working d e now).1 ≡ true
    → (let key = witness_key e.op e.scope in (saw_success d key ≡ true) ⊎ NotRefused d key now)
unfolding resolve_working temporary
resolve_working-NotRefused d e now r h =
    let key = witness_key e.op e.scope in
    elim (Bool-cases (saw_success d key)) [
      | inl s ↦ inl s
      | inr s ↦ inr (mark_denied-NotRefused d key now (ground (arith, r, s, h)))
    ]

resolve_by-Excused :
    (d : Disambiguator) (e : ApiError) (now : ℕ) (v : Option ProbeAnswer)
    → e.retry ≡ retry_no
    → temporary (resolve_by d e now v).1 ≡ true
    → Excused d e now v
unfolding resolve_by resolve_failed temporary
resolve_by-Excused d e now none r h = absurd (ground (arith, r, h))
resolve_by-Excused d e now (some works) r h = (refl, resolve_working-NotRefused d e now r h)
resolve_by-Excused d e now (some (fails none)) r h = absurd (ground (arith, r, h))
resolve_by-Excused d e now (some (fails (some pe))) r h = absurd (ground (arith, r, h))

resolve_settled :
    (d : Disambiguator) (e : ApiError) (t : Turn) (now : ℕ)
    → (not e.ambiguous || e.resolved) ≡ true
    → resolve d e t now ≡ (d, e)
unfolding resolve
resolve_settled d e t now h = rw h refl

resolve_open :
    (d : Disambiguator) (e : ApiError) (t : Turn) (now : ℕ)
    → (not e.ambiguous || e.resolved) ≡ false
    → resolve d e t now ≡ resolve_by (check d t).0 e now (check d t).1
unfolding resolve
resolve_open d e t now h = rw h refl

temporary-calm : (e : ApiError) → e.retry ≡ retry_no → temporary e ≡ false
unfolding temporary
temporary-calm e h = rw h refl

-- A response whose judgement is open is repeated only for a reason: the credential was found to
-- work, and the same call is remembered to have succeeded before, or is not remembered as refused
-- within the interval.
pub open_error_retried_for_reason :
    (w : Reader) (ev : Evidence) (d : Disambiguator) (t : Turn) (now : ℕ)
    → (classify_response w ev).ambiguous ≡ true
    → temporary (resolve d (classify_response w ev) t now).1 ≡ true
    → (let (d', v) = check d t in Excused d' (classify_response w ev) now v)
open_error_retried_for_reason w ev d t now a h =
    let e = classify_response w ev in
    let calm : e.retry ≡ retry_no =
      unfold classify_response in classify-doubt w ev (read_body w (bare_error w ev) ev.body) a in
    elim (Bool-cases (not e.ambiguous || e.resolved)) [
      | inl s ↦
          absurd
            (cc (temporary-calm e calm, ap (λ x. temporary x.1) (resolve_settled d e t now s), h))
      | inr s ↦
          resolve_by-Excused (check d t).0 e now (check d t).1 calm
            (ap (λ x. temporary x.1) (sym (resolve_open d e t now s)) ∙ h)
    ]

resolve_by-settles :
    (d : Disambiguator) (e : ApiError) (now : ℕ) (v : Option ProbeAnswer)
    → is_some v ≡ true
    → (resolve_by d e now v).1.resolved ≡ true
unfolding resolve_by resolve_failed resolve_working
resolve_by-settles d e now none h = absurd (cc h)
resolve_by-settles d e now (some works) h = ground arith
resolve_by-settles d e now (some (fails none)) h = refl
resolve_by-settles d e now (some (fails (some pe))) h = ground arith

-- An error is settled once: where the check had an answer, no later probe, success or refusal changes
-- what was concluded.
pub resolve_once :
    (d d' : Disambiguator) (e : ApiError) (t t' : Turn) (now now' : ℕ)
    → is_some (check d t).1 ≡ true
    → resolve d' (resolve d e t now).1 t' now' ≡ (d', (resolve d e t now).1)
resolve_once d d' e t t' now now' h = elim (Bool-cases (not e.ambiguous || e.resolved)) [
  | inl s ↦ let same = resolve_settled d e t now s in rw same (resolve_settled d' e t' now' s)
  | inr s ↦
      let opened = resolve_open d e t now s in
      let settled : (resolve d e t now).1.resolved ≡ true =
        ap (λ x. x.1.resolved) opened ∙ resolve_by-settles (check d t).0 e now (check d t).1 h in
      resolve_settled d' (resolve d e t now).1 t' now' (ground (arith, settled))
]

-- What a probe's error must be for its kind to be taken over.
abbrev pub Decides : Option ProbeAnswer → Kind → Type 0
Decides v k =
    (pe : ApiError) × (v ≡ some (fails (some pe)))
    × (decisive pe ≡ true)
    × (is_refusal pe.kind ≡ true)
    × (pe.kind ≡ k)

resolve_by-kind :
    (d : Disambiguator) (e : ApiError) (now : ℕ) (v : Option ProbeAnswer)
    → ((resolve_by d e now v).1.kind ≡ e.kind)
      ⊎ (Decides v (resolve_by d e now v).1.kind × ((resolve_by d e now v).1.retry ≡ retry_no))
unfolding resolve_by resolve_failed resolve_working
resolve_by-kind d e now none = inl refl
resolve_by-kind d e now (some works) = inl (ground arith)
resolve_by-kind d e now (some (fails none)) = inl refl
resolve_by-kind d e now (some (fails (some pe))) =
    elim (Bool-cases (decisive pe && is_refusal pe.kind)) [
      | inl b ↦ inr (rw b ((pe, refl, ground (arith, b), ground (arith, b), refl), refl))
      | inr b ↦ inl (rw b refl)
    ]

-- Settling an error leaves its kind, or gives it the kind of the probe's error; the latter only where
-- that error is decisive and says that the credential is refused, and then the call is not repeated.
pub resolve-kind :
    (d : Disambiguator) (e : ApiError) (t : Turn) (now : ℕ)
    → ((resolve d e t now).1.kind ≡ e.kind)
      ⊎ (Decides (check d t).1 (resolve d e t now).1.kind
          × (temporary (resolve d e t now).1 ≡ false))
resolve-kind d e t now = elim (Bool-cases (not e.ambiguous || e.resolved)) [
  | inl s ↦ inl (ap (λ x. x.1.kind) (resolve_settled d e t now s))
  | inr s ↦
      let opened = resolve_open d e t now s in
      elim (resolve_by-kind (check d t).0 e now (check d t).1) [
        | inl k ↦ inl (ap (λ x. x.1.kind) opened ∙ k)
        | inr (dec, r) ↦
            inr (rw opened (dec, temporary-calm (resolve_by (check d t).0 e now (check d t).1).1 r))
      ]
]

resolve_by-http_code :
    (d : Disambiguator) (e : ApiError) (now : ℕ) (v : Option ProbeAnswer)
    → (resolve_by d e now v).1.http_code ≡ e.http_code
unfolding resolve_by resolve_failed resolve_working
resolve_by-http_code d e now none = refl
resolve_by-http_code d e now (some works) = ground arith
resolve_by-http_code d e now (some (fails none)) = refl
resolve_by-http_code d e now (some (fails (some pe))) = ground arith

pub resolve-http_code :
    (d : Disambiguator) (e : ApiError) (t : Turn) (now : ℕ)
    → (resolve d e t now).1.http_code ≡ e.http_code
resolve-http_code d e t now = elim (Bool-cases (not e.ambiguous || e.resolved)) [
  | inl s ↦ ap (λ x. x.1.http_code) (resolve_settled d e t now s)
  | inr s ↦
      ap (λ x. x.1.http_code) (resolve_open d e t now s)
      ∙ resolve_by-http_code (check d t).0 e now (check d t).1
]
