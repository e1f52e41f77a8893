-- ===== src/Sdk/Call.antt =====
-- The loop of a call (`Do` of pkg/opendrive/client.go): repetition, renewal and settling. One attempt
-- over the network is an argument, and so are the renewal of the token and the random delay.
use opendrive_bridge.Common.{
  ℕ, ◌+◌, ◌*◌, ◌/◌, ◌%◌, ◌^◌, Bool, true, false, not, ◌&&◌, ◌||◌, Option, none, some, List, [], ◌∷◌,
  ltb, leb, ◌==◌, if◌then◌else◌,
}
use opendrive_bridge.Common.Text.{Text, codes, text_eq}
use opendrive_bridge.Sdk.Errors.{
  Kind, token_expired, network, shape_unset, retry_default, no_diagnosis, ApiError, drives_auth,
  replay_safe, temporary,
}
use opendrive_bridge.Sdk.Resolve.{Disambiguator, Turn, resolve}

-- `RetryPolicy`, with its default jitter, in nanoseconds.
pub record RetryPolicy : Type 0 where
  pub max : ℕ
  pub base : ℕ
  pub cap : ℕ

-- `DefaultRetryPolicy`.
abbrev pub default_retry_policy : RetryPolicy
default_retry_policy = record { max = 5; base = 1000000000; cap = 60000000000 }

-- `base << attempt` on 64 bits with a sign, or the cap where that is above it or not above 0.
abbrev pub capped : ℕ → ℕ → ℕ
capped cap d = if d == 0 || leb (2 ^ 63) d || ltb cap d then cap else d

unfoldable pub interval : ℕ → ℕ → ℕ → ℕ
interval base cap attempt = capped cap (base * 2 ^ attempt % 2 ^ 64)

abbrev pub or_default : ℕ → ℕ → ℕ
or_default n d = if n == 0 then d else n

-- `backoff`, with the number that was drawn.
unfoldable pub backoff : RetryPolicy → ℕ → ℕ → ℕ
backoff p attempt drawn =
    let d = interval (or_default p.base 1000000000) (or_default p.cap 60000000000) attempt in
    d / 2 + drawn % (d / 2 + 1)

-- What the loop reads of a `Request` and of its client.
pub record Request : Type 0 where
  pub method : Text
  pub marked_retryable : Option Bool
  pub omits_session : Bool
  pub has_auth : Bool

-- `retryable`.
unfoldable pub retryable : Request → Bool
unfolding text_eq
retryable r = elim (r.marked_retryable) [
  | some b ↦ b
  | none ↦ text_eq r.method (codes "GET") || text_eq r.method (codes "HEAD")
]

-- What happens in one round: how the attempt ends, what settling it meets, how the renewal ends, what
-- is drawn for the delay, and whether the sleep is cut short.
pub record Round : Type 0 where
  pub outcome : Option ApiError
  pub turn : Turn
  pub now : ℕ
  pub renewal : Option ApiError
  pub drawn : ℕ
  pub cut_short : Bool

-- How a round goes on: the call ends, the token is renewed, or the attempt is repeated after a delay.
pub data Next : Type 0 where
  stop renew : Next
  wait : ℕ → Next

-- `networkError`.
unfoldable pub network_error : Text → Text → ApiError
network_error op url = record {
  kind = network;
  http_code = 0;
  upstream_code = 0;
  upstream_msg = [];
  oauth_error = [];
  op = op;
  url = url;
  retry_after = 0;
  shape = shape_unset;
  scope = [];
  ambiguous = false;
  resolved = false;
  retry = retry_default;
  retry_budget = 0;
  diagnosis = no_diagnosis;
}

abbrev pub is_expired : Kind → Bool
is_expired token_expired = true
is_expired _ = false

-- The repetitions that an error allows.
abbrev pub budget_of : ℕ → ApiError → ℕ
budget_of max e = if ltb 0 e.retry_budget && ltb e.retry_budget max then e.retry_budget else max

-- The decision about an error that has been settled.
unfoldable pub next_step : RetryPolicy → Request → Bool → ℕ → ℕ → ApiError → Next
unfolding drives_auth retryable replay_safe temporary backoff
next_step p r refreshed attempt drawn e =
    if is_expired e.kind && drives_auth e && r.has_auth && not refreshed && not r.omits_session
    then renew
    else if not (retryable r) && not (replay_safe e) || not (temporary e)
    then stop
    else if leb (budget_of p.max e) attempt
    then stop
    else wait (if e.retry_after == 0 then backoff p attempt drawn else e.retry_after)

-- How a call ended, with the requests that it sent, its renewals and its delays.
pub record Ended : Type 0 where
  pub error : Option ApiError
  pub amb : Disambiguator
  pub sent : ℕ
  pub renewals : ℕ
  pub delays : List ℕ

abbrev pub ended : Disambiguator → Option ApiError → Ended
ended d e = record { error = e; amb = d; sent = 1; renewals = 0; delays = [] }

abbrev pub after_renewal : Option Ended → Option Ended
after_renewal none = none
after_renewal (some x) = some (record x { sent = x.sent + 1; renewals = x.renewals + 1 })

abbrev pub after_delay : ℕ → Option Ended → Option Ended
after_delay n none = none
after_delay n (some x) = some (record x { sent = x.sent + 1; delays = n ∷ x.delays })

-- The end of a renewal that failed, and of a sleep that was cut short.
abbrev pub failed_renewal : Disambiguator → ApiError → Ended
failed_renewal d f = record { error = some f; amb = d; sent = 1; renewals = 1; delays = [] }

abbrev pub cut_sleep : Disambiguator → ℕ → ApiError → Ended
cut_sleep d n e = record {
  error = some (network_error e.op e.url);
  amb = d;
  sent = 1;
  renewals = 0;
  delays = n ∷ [];
}

-- The loop of `Do`, over what happens in its rounds; `none` where those given are not enough.
unfoldable pub do_loop :
    RetryPolicy → Request → List Round → Bool → ℕ → Disambiguator → Option Ended
unfolding resolve next_step network_error
do_loop p r [] refreshed attempt d = none
do_loop p r (x ∷ xs) refreshed attempt d = elim (x.outcome) [
  | none ↦ some (ended d none)
  | some e0 ↦
      let (d', e) = resolve d e0 x.turn x.now in
      let renewed = do_loop p r xs true attempt d' in
      let repeated = do_loop p r xs refreshed (attempt + 1) d' in
      elim (next_step p r refreshed attempt x.drawn e) [
        | stop ↦ some (ended d' (some e))
        | renew ↦ elim (x.renewal) [
          | some f ↦ some (failed_renewal d' f)
          | none ↦ after_renewal renewed
        ]
        | wait n ↦ if x.cut_short then some (cut_sleep d' n e) else after_delay n repeated
      ]
]
