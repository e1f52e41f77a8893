-- ===== src/Sdk/Tests.antt =====
-- The judgement of upstream's answers (pkg/opendrive) at concrete inputs.
use opendrive_bridge.Common.{
  ℕ, ◌+◌, ◌≡◌, zero, suc, refl, true, false, none, some, List, [], ◌∷◌, arith, length,
}
use opendrive_bridge.Common.Text.{Text, codes, text_eq, contains, has_prefix, trim_space}
use opendrive_bridge.Common.Dict.{Dict, find, insert}
use opendrive_bridge.Sdk.Errors.{shape_json, temporary, replay_safe}
use opendrive_bridge.Sdk.Classify.{
  oauth_verdict, phrase_verdict, code_verdict, classify_message, classify, edge_retry,
  classify_response, effective_code,
}
use opendrive_bridge.Sdk.Evidence.{
  Evidence, Reader, body_shape, error_object, parse_error_envelope, bare_error, read_body,
}
use opendrive_bridge.Sdk.Resolve.{
  ProbeAnswer, works, Disambiguator, new_disambiguator, witness_key, saw_success, mark_denied, Turn,
  check, check_begin, check_end, resolve, resolve_by, resolve_working,
}
use opendrive_bridge.Sdk.Verdicts.{is_pressure, retried_under_pressure, credential_kinds_from_json}
use opendrive_bridge.Sdk.Doubts.{Excused, open_error_retried_for_reason}
use opendrive_bridge.Sdk.Denials.{
  refused, succeeded, run_events, confirmed_once, full_memory_grants_always,
}
use opendrive_bridge.Sdk.Call.{default_retry_policy, Request, Round, retryable, do_loop, Ended}
use opendrive_bridge.Sdk.Ending.{Finishes, call_ends, Risky, unsafe_sent_once}

-- A reader that takes every body for an object with the message `permission denied`.
abbrev reader : Reader
reader = record {
  lower = λ s. s;
  read_error = λ s. some (record { error = codes "{"; error_description = []; message = [] });
  read_object = λ s. record {
    code = 0;
    message = codes "permission denied";
    error = [];
    error_description = [];
  };
  read_string = λ s. s;
  truncate = λ s. s;
}

-- A reader that finds no object in any body.
abbrev blank_reader : Reader
blank_reader = record reader { read_error = λ s. none }

abbrev answer : ℕ → Text → Evidence
answer status body = record {
  status = status;
  retry_after = 0;
  body = body;
  content_type = [];
  op = codes "POST /a";
  scope = [];
  url = [];
}

abbrev unavailable : Evidence
unavailable = answer 503 (codes "<html>")

retried_under_pressure_example :
    (let e = classify_response reader unavailable in
      is_pressure (effective_code e.http_code e.upstream_code))
    ≡ true
unfolding classify_response bare_error read_body body_shape parse_error_envelope trim_space classify
    edge_retry temporary
retried_under_pressure_example = retried_under_pressure reader unavailable refl

credential_kinds_from_json_example : body_shape blank_reader (codes "{}") [] ≡ shape_json
unfolding classify_response bare_error read_body body_shape parse_error_envelope trim_space classify
    classify_message oauth_verdict phrase_verdict code_verdict contains has_prefix text_eq
credential_kinds_from_json_example =
    credential_kinds_from_json blank_reader refl (answer 401 (codes "{}")) refl

-- A probe that finds the credential working.
abbrev probing : ProbeAnswer → Turn
probing a = record {
  within_probe = false;
  now = 100;
  answer = a;
  later = 101;
  woken = new_disambiguator true 10;
  gave_up = false;
}

abbrev fresh : Disambiguator
unfolding new_disambiguator
fresh = new_disambiguator true 10

abbrev denied : Evidence
denied = answer 403 (codes "{}")

open_error_retried_for_reason_example :
    (let (d', v) = check fresh (probing works) in
      Excused d' (classify_response reader denied) 102 v)
unfolding fresh new_disambiguator resolve resolve_by resolve_working mark_denied saw_success
    witness_key check check_begin check_end find insert classify_response bare_error read_body
    body_shape parse_error_envelope error_object trim_space classify classify_message oauth_verdict
    phrase_verdict code_verdict contains has_prefix text_eq temporary
open_error_retried_for_reason_example =
    open_error_retried_for_reason reader denied fresh (probing works) 102 refl refl

abbrev key : Text
key = codes "POST /a"

confirmed_once_example :
    (mark_denied
      (run_events
        (refused (codes "b") 105 ∷ succeeded (codes "c") ∷ [])
        (mark_denied fresh key 100).0)
      key
      106).1
    ≡ false
unfolding fresh new_disambiguator mark_denied find insert text_eq
confirmed_once_example =
    confirmed_once fresh key 100 (refused (codes "b") 105 ∷ succeeded (codes "c") ∷ []) 106
      (omega arith) refl ((omega arith, omega arith), (refl, tt)) (omega arith) (omega arith)

-- Refusals of as many keys as are remembered; a key is a text with one number.
abbrev many : ℕ → Dict ℕ
many zero = []
many (suc n) = ((n ∷ []), 100) ∷ many n

abbrev crowded : Disambiguator
unfolding fresh
crowded = record fresh { denied = many 512 }

length-many : (n : ℕ) → length (many n) ≡ n
length-many zero = refl
length-many (suc n) = omega (arith, length-many n)

long_key-new : (n : ℕ) → find key (many n) ≡ none
unfolding find text_eq
long_key-new zero = refl
long_key-new (suc n) = ground (arith, long_key-new n)

full_memory_grants_always_example :
    (mark_denied (run_events (refused key 100 ∷ refused key 101 ∷ []) crowded) key 102).1 ≡ true
unfolding crowded
full_memory_grants_always_example =
    full_memory_grants_always crowded key (refused key 100 ∷ refused key 101 ∷ []) 102
      (omega (arith, length-many 512)) (long_key-new 512) (tt, (tt, tt))

-- A read that fails with the same server error in every round.
abbrev round : Round
round = record {
  outcome = some (classify_response reader unavailable);
  turn = probing works;
  now = 102;
  renewal = none;
  drawn = 0;
  cut_short = false;
}

abbrev reading : Request
reading = record {
  method = codes "GET";
  marked_retryable = none;
  omits_session = false;
  has_auth = true;
}

abbrev writing : Request
writing = record reading { method = codes "POST" }

abbrev seven_rounds : List Round
seven_rounds = round ∷ round ∷ round ∷ round ∷ round ∷ round ∷ round ∷ []

call_ends_example :
    Finishes (do_loop default_retry_policy reading seven_rounds false 0 fresh) (5 + 2) 1
call_ends_example = call_ends default_retry_policy reading seven_rounds fresh (omega arith)

unavailable-Risky : Risky round
unfolding classify_response bare_error read_body body_shape parse_error_envelope trim_space classify
    edge_retry replay_safe
unavailable-Risky e h = ground (arith, h)

unsafe_sent_once_example :
    (y : Ended) × (do_loop default_retry_policy writing (round ∷ []) false 0 fresh ≡ some y)
    × (y.sent ≡ 1)
unfolding retryable text_eq
unsafe_sent_once_example =
    unsafe_sent_once default_retry_policy writing round [] fresh refl unavailable-Risky
