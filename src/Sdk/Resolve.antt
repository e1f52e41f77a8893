-- ===== src/Sdk/Resolve.antt =====
-- The errors that a response alone does not settle (pkg/opendrive/classify.go): the access probe, the
-- record of successes and refusals, and `resolve`.
use opendrive_bridge.Common.{
  ℕ, ◌+◌, ◌-◌, Bool, true, false, not, ◌&&◌, ◌||◌, Option, none, some, [], ◌∷◌, ◌++◌, length, ltb,
  leb, ◌==◌, if◌then◌else◌,
}
use opendrive_bridge.Common.Text.{Text, is_empty}
use opendrive_bridge.Common.Dict.{Dict, find, insert, delete}
use opendrive_bridge.Sdk.Errors.{
  Kind, keystore_unavailable, reauth_required, captcha_required, retry_yes, retry_no,
  credential_refused, account_restricted, transient_refusal, one_more_attempt, operation_restricted,
  ApiError, decisive,
}

-- What the probe returned: nothing, or an error with the library's in its chain or not.
pub data ProbeAnswer : Type 0 where
  works : ProbeAnswer
  fails : Option ApiError → ProbeAnswer

-- `disambiguator`; `can_probe` says that there is a probe, `in_flight` that one runs.
pub record Disambiguator : Type 0 where
  pub can_probe : Bool
  pub interval : ℕ
  pub last : ℕ
  pub result : ProbeAnswer
  pub have : Bool
  pub in_flight : Bool
  pub probes : ℕ
  pub witness : Dict Bool
  pub denied : Dict ℕ

abbrev pub max_witnessed : ℕ
max_witnessed = 512

-- `DefaultProbeInterval`, in nanoseconds as every time here.
abbrev pub default_probe_interval : ℕ
default_probe_interval = 30000000000

-- `newDisambiguator`. An interval that is not above 0 is 0 here.
unfoldable pub new_disambiguator : Bool → ℕ → Disambiguator
new_disambiguator can_probe interval = record {
  can_probe = can_probe;
  interval = if interval == 0 then default_probe_interval else interval;
  last = 0;
  result = works;
  have = false;
  in_flight = false;
  probes = 0;
  witness = [];
  denied = [];
}

-- `witnessKey`.
unfoldable pub witness_key : Text → Text → Text
witness_key op scope = if is_empty scope then op else op ++ 0 ∷ scope

-- `noteSuccess`.
unfoldable pub note_success : Disambiguator → Text → Disambiguator
unfolding insert delete
note_success d key =
    if is_empty key
    then d
    else if leb max_witnessed (length d.witness)
    then record d { denied = delete key d.denied }
    else record d { denied = delete key d.denied; witness = insert key true d.witness }

-- A refusal that is remembered and not older than the interval.
abbrev pub is_recent : Option ℕ → ℕ → ℕ → Bool
is_recent none now interval = false
is_recent (some at) now interval = ltb (now - at) interval

-- `d.denied[key] != (time.Time{})`.
abbrev pub is_noted : Option ℕ → Bool
is_noted none = false
is_noted (some at) = not (at == 0)

-- `markDenied`.
unfoldable pub mark_denied : Disambiguator → Text → ℕ → Disambiguator × Bool
unfolding find insert
mark_denied d key now =
    let before = find key d.denied in
    if is_recent before now d.interval
    then (d, false)
    else if ltb (length d.denied) max_witnessed || is_noted before
    then (record d { denied = insert key now d.denied }, true)
    else (d, true)

-- `sawSuccess`.
unfoldable pub saw_success : Disambiguator → Text → Bool
unfolding find
saw_success d key = elim (find key d.witness) [ none ↦ false | some b ↦ b ]

-- How `check` goes on.
pub data Check : Type 0 where
  no_check must_wait must_probe : Check
  cached : ProbeAnswer → Check

-- `check` up to the wait or the call of the probe.
unfoldable pub check_begin : Disambiguator → Bool → ℕ → Disambiguator × Check
check_begin d within_probe now =
    if not d.can_probe || within_probe
    then (d, no_check)
    else if d.have && ltb (now - d.last) d.interval
    then (d, cached d.result)
    else if d.in_flight
    then (d, must_wait)
    else (record d { in_flight = true; probes = d.probes + 1 }, must_probe)

-- `check` behind the probe.
unfoldable pub check_end : Disambiguator → ProbeAnswer → ℕ → Disambiguator
check_end d answer now = record d { result = answer; have = true; last = now; in_flight = false }

-- The verdict of a call that waited, or that gave up waiting.
unfoldable pub check_waited : Disambiguator → Bool → Option ProbeAnswer
check_waited d gave_up = if gave_up then none else if d.have then some d.result else none

-- What happens around one call of `check`: the time of its start, what the probe answers and when, if
-- it runs; and if it waits, the state it wakes up in and whether its context ended first.
pub record Turn : Type 0 where
  pub within_probe : Bool
  pub now : ℕ
  pub answer : ProbeAnswer
  pub later : ℕ
  pub woken : Disambiguator
  pub gave_up : Bool

-- `check`.
unfoldable pub check : Disambiguator → Turn → Disambiguator × Option ProbeAnswer
unfolding check_begin check_end check_waited
check d t =
    let (d', c) = check_begin d t.within_probe t.now in
    elim c [
      | no_check ↦ (d', none)
      | cached r ↦ (d', some r)
      | must_wait ↦ (t.woken, check_waited t.woken t.gave_up)
      | must_probe ↦ (check_end d' t.answer t.later, some t.answer)
    ]

-- The kinds of a probe's error that `resolve` takes over.
abbrev pub is_refusal : Kind → Bool
is_refusal reauth_required = true
is_refusal captcha_required = true
is_refusal keystore_unavailable = true
is_refusal _ = false

-- `resolve` where the probe failed.
unfoldable pub resolve_failed : ApiError → Option ApiError → ApiError
unfolding decisive
resolve_failed e none = record e {
  resolved = true;
  retry = retry_no;
  diagnosis = account_restricted;
}
resolve_failed e (some pe) =
    if decisive pe && is_refusal pe.kind
    then record e {
      resolved = true;
      retry = retry_no;
      kind = pe.kind;
      diagnosis = credential_refused;
    }
    else record e { resolved = true; retry = retry_no; diagnosis = account_restricted }

-- `resolve` where the credential works.
unfoldable pub resolve_working : Disambiguator → ApiError → ℕ → Disambiguator × ApiError
unfolding witness_key saw_success mark_denied
resolve_working d e now =
    let key = witness_key e.op e.scope in
    let (d', first) = mark_denied d key now in
    if saw_success d key
    then (d, record e { resolved = true; retry = retry_yes; diagnosis = transient_refusal })
    else if first
    then (
      d',
      record e {
        resolved = true;
        retry = retry_yes;
        retry_budget = 1;
        diagnosis = one_more_attempt;
      },
    )
    else (d', record e { resolved = true; retry = retry_no; diagnosis = operation_restricted })

unfoldable pub resolve_by :
    Disambiguator → ApiError → ℕ → Option ProbeAnswer → Disambiguator × ApiError
unfolding resolve_failed resolve_working
resolve_by d e now none = (d, e)
resolve_by d e now (some works) = resolve_working d e now
resolve_by d e now (some (fails pe)) = (d, resolve_failed e pe)

-- `resolve`; `now` is the time at which it looks at the refusals.
unfoldable pub resolve : Disambiguator → ApiError → Turn → ℕ → Disambiguator × ApiError
unfolding check resolve_by
resolve d e t now =
    if not e.ambiguous || e.resolved
    then (d, e)
    else (let (d', verdict) = check d t in resolve_by d' e now verdict)
