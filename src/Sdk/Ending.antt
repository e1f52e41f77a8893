-- ===== src/Sdk/Ending.antt =====
-- How a call ends, and what it sends (`Do` of pkg/opendrive/client.go).
use native.Mathlib.Nat.{mod-lt}
use opendrive_bridge.Common.{
  ℕ, ◌+◌, ◌-◌, ◌/◌, ◌*◌, ◌%◌, ◌^◌, ◌≤◌, ◌<◌, ◌≡◌, ◌⊎◌, refl, sym, ap, ◌∙◌, Bool, true, false, ◌||◌,
  Option, none, some, List, [], ◌∷◌, arith, length, ◌==◌, if◌then◌else◌, inl, inr, Bool-cases,
  Option-cases,
}
use opendrive_bridge.Sdk.Errors.{Kind, token_expired, ApiError, replay_safe}
use opendrive_bridge.Sdk.Resolve.{Disambiguator, resolve, is_refusal}
use opendrive_bridge.Sdk.Doubts.{resolve-http_code, resolve-kind}
use opendrive_bridge.Sdk.Call.{
  RetryPolicy, Request, Round, Next, stop, renew, wait, retryable, is_expired, next_step, Ended,
  ended, after_renewal, after_delay, failed_renewal, cut_sleep, do_loop, backoff, capped, interval,
  or_default,
}

-- The requests that a call may still send.
abbrev pub left : RetryPolicy → Bool → ℕ → ℕ
left p refreshed attempt = (p.max - attempt) + (if refreshed then 1 else 2)

-- The renewals that a call may still make.
abbrev renewals_left : Bool → ℕ
renewals_left refreshed = if refreshed then 0 else 1

abbrev pub Finishes : Option Ended → ℕ → ℕ → Type 0
Finishes o n m = (x : Ended) × (o ≡ some x) × (x.sent ≤ n) × (x.renewals ≤ m)

next_step-renew :
    (p : RetryPolicy) (r : Request) (refreshed : Bool) (attempt drawn : ℕ) (e : ApiError)
    → next_step p r refreshed attempt drawn e ≡ renew
    → refreshed ≡ false
unfolding next_step
next_step-renew p r refreshed attempt drawn e h = ground (arith, h)

next_step-wait :
    (p : RetryPolicy) (r : Request) (refreshed : Bool) (attempt drawn : ℕ) (e : ApiError) (n : ℕ)
    → next_step p r refreshed attempt drawn e ≡ wait n
    → attempt < p.max
unfolding next_step
next_step-wait p r refreshed attempt drawn e n h = ground (arith, h)

Next-cases : (s : Next) → (s ≡ stop) ⊎ ((s ≡ renew) ⊎ ((n : ℕ) × (s ≡ wait n)))
Next-cases stop = inl refl
Next-cases renew = inr (inl refl)
Next-cases (wait n) = inr (inr (n, refl))

Finishes-renewal :
    (o : Option Ended) (n m : ℕ) → Finishes o n m → Finishes (after_renewal o) (n + 1) (m + 1)
Finishes-renewal o n m (x, e, s, r) = (
  record x { sent = x.sent + 1; renewals = x.renewals + 1 },
  ap after_renewal e,
  omega (arith, s),
  omega (arith, r),
)

Finishes-delay :
    (o : Option Ended) (k n m : ℕ) → Finishes o n m → Finishes (after_delay k o) (n + 1) m
Finishes-delay o k n m (x, e, s, r) = (
  record x { sent = x.sent + 1; delays = k ∷ x.delays },
  ap (after_delay k) e,
  omega (arith, s),
  r,
)

Finishes-more :
    (o : Option Ended) (n n' m m' : ℕ) → n ≤ n' → m ≤ m' → Finishes o n m → Finishes o n' m'
Finishes-more o n n' m m' h k (x, e, s, r) = (x, e, omega (arith, h, s), omega (arith, k, r))

do_loop-Finishes :
    (p : RetryPolicy) (r : Request) (xs : List Round) (refreshed : Bool) (attempt : ℕ)
    (d : Disambiguator)
    → left p refreshed attempt ≤ length xs
    → Finishes
        (do_loop p r xs refreshed attempt d)
        (left p refreshed attempt)
        (renewals_left refreshed)
unfolding do_loop
do_loop-Finishes p r [] refreshed attempt d h = absurd (ground (arith, h))
do_loop-Finishes p r (x ∷ xs) refreshed attempt d h = elim (Option-cases x.outcome) [
  | inl o ↦ rw (o, do_loop) (ended d none, refl, ground arith, ground arith)
  | inr (e0, o) ↦
      let d' = (resolve d e0 x.turn x.now).0 in
      let e = (resolve d e0 x.turn x.now).1 in
      elim (Next-cases (next_step p r refreshed attempt x.drawn e)) [
        | inl s ↦ rw (o, do_loop) (rw s (ended d' (some e), refl, ground arith, ground arith))
        | inr (inl s) ↦ elim (Option-cases x.renewal) [
          | inr (f, w) ↦
              let new : refreshed ≡ false = next_step-renew p r refreshed attempt x.drawn e s in
              rw (o, do_loop)
                (rw s (rw w (failed_renewal d' f, refl, ground arith, ground (arith, new))))
          | inl w ↦
              let new : refreshed ≡ false = next_step-renew p r refreshed attempt x.drawn e s in
              let rest = do_loop-Finishes p r xs true attempt d' (ground (arith, h, new)) in
              rw (o, do_loop)
                (rw s (
                  rw w (
                    Finishes-more (after_renewal (do_loop p r xs true attempt d'))
                      (left p true attempt + 1) (left p refreshed attempt) (0 + 1)
                      (renewals_left refreshed) (ground (arith, new)) (ground (arith, new))
                      (Finishes-renewal (do_loop p r xs true attempt d') (left p true attempt) 0
                        rest))))
        ]
        | inr (inr (n, s)) ↦
            let more : attempt < p.max = next_step-wait p r refreshed attempt x.drawn e n s in
            elim (Bool-cases x.cut_short) [
              | inl c ↦
                  rw (o, do_loop) (rw s (rw c (cut_sleep d' n e, refl, ground arith, ground arith)))
              | inr c ↦
                  let rest =
                    do_loop-Finishes p r xs refreshed (attempt + 1) d' (ground (arith, h, more)) in
                  rw (o, do_loop)
                    (rw s (
                      rw c (
                        Finishes-more (after_delay n (do_loop p r xs refreshed (attempt + 1) d'))
                          (left p refreshed (attempt + 1) + 1) (left p refreshed attempt)
                          (renewals_left refreshed) (renewals_left refreshed) (ground (arith, more))
                          (omega arith)
                          (Finishes-delay (do_loop p r xs refreshed (attempt + 1) d') n
                            (left p refreshed (attempt + 1)) (renewals_left refreshed) rest))))
            ]
      ]
]

-- Every call ends: with as many rounds as the policy's repetitions and two more it has an answer, it
-- has sent no more requests than that, and has renewed the token at most once.
pub call_ends :
    (p : RetryPolicy) (r : Request) (xs : List Round) (d : Disambiguator)
    → p.max + 2 ≤ length xs
    → Finishes (do_loop p r xs false 0 d) (p.max + 2) 1
call_ends p r xs d h =
    Finishes-more (do_loop p r xs false 0 d) (left p false 0) (p.max + 2) 1 1 (omega arith)
      (omega arith) (do_loop-Finishes p r xs false 0 d (omega (arith, h)))

capped_le : (cap d : ℕ) → capped cap d ≤ cap
capped_le cap d = ground arith

mod_suc_lt : (n k : ℕ) → n % (k + 1) < k + 1
mod_suc_lt n k = mod-lt n (omega arith)

jitter_le : (d r : ℕ) → r < d / 2 + 1 → d / 2 + r ≤ d
jitter_le d r h = omega (arith, h)

-- A delay lies between half the interval and the interval, which is at most the cap.
pub backoff-bounds :
    (p : RetryPolicy) (attempt drawn : ℕ)
    → (let d = interval (or_default p.base 1000000000) (or_default p.cap 60000000000) attempt in
        (d / 2 ≤ backoff p attempt drawn)
        × (backoff p attempt drawn ≤ d)
        × (d ≤ or_default p.cap 60000000000))
unfolding backoff
backoff-bounds p attempt drawn =
    let d = interval (or_default p.base 1000000000) (or_default p.cap 60000000000) attempt in
    (
      omega arith,
      jitter_le d (drawn % (d / 2 + 1)) (mod_suc_lt drawn (d / 2)),
      unfold interval in
          capped_le (or_default p.cap 60000000000)
            (or_default p.base 1000000000 * 2 ^ attempt % 2 ^ 64),
    )

-- What an answer must not be for a request that is not safe to repeat: a refusal, or an expired token.
abbrev pub Risky : Round → Type 0
Risky x =
    (e : ApiError) → x.outcome ≡ some e → (replay_safe e ≡ false) × (is_expired e.kind ≡ false)

is_refusal-is_expired : (k : Kind) → is_refusal k ≡ true → is_expired k ≡ false
is_refusal-is_expired token_expired h = absurd (cc h)
is_refusal-is_expired _ h = refl

next_step-risky :
    (p : RetryPolicy) (r : Request) (refreshed : Bool) (attempt drawn : ℕ) (e : ApiError)
    → retryable r ≡ false
    → replay_safe e ≡ false
    → is_expired e.kind ≡ false
    → next_step p r refreshed attempt drawn e ≡ stop
unfolding next_step
next_step-risky p r refreshed attempt drawn e h s x = rw x (rw h (rw s refl))

resolved-Risky :
    (x : Round) (e : ApiError) (d : Disambiguator)
    → Risky x
    → x.outcome ≡ some e
    → (let e' = (resolve d e x.turn x.now).1 in
        (replay_safe e' ≡ false) × (is_expired e'.kind ≡ false))
unfolding replay_safe
resolved-Risky x e d k o = (
  ap (λ c. c == 403 || c == 429) (resolve-http_code d e x.turn x.now) ∙ (k e o).0,
  elim (resolve-kind d e x.turn x.now) [
    | inl s ↦ ap is_expired s ∙ (k e o).1
    | inr ((pe, v, dec, ref, s), calm) ↦ ap is_expired (sym s) ∙ is_refusal-is_expired pe.kind ref
  ],
)

-- A request that is not safe to repeat, a write for example, is sent once, unless upstream answers
-- with a refusal (403 or 429) or an expired token.
pub unsafe_sent_once :
    (p : RetryPolicy) (r : Request) (x : Round) (xs : List Round) (d : Disambiguator)
    → retryable r ≡ false
    → Risky x
    → (y : Ended) × (do_loop p r (x ∷ xs) false 0 d ≡ some y) × (y.sent ≡ 1)
unfolding do_loop
unsafe_sent_once p r x xs d h k = elim (Option-cases x.outcome) [
  | inl o ↦ rw o (ended d none, refl, refl)
  | inr (e, o) ↦
      let e' = (resolve d e x.turn x.now).1 in
      let (safe, fresh) = resolved-Risky x e d k o in
      let halt = next_step-risky p r false 0 x.drawn e' h safe fresh in
      rw o (rw halt (ended (resolve d e x.turn x.now).0 (some e'), refl, refl))
]
