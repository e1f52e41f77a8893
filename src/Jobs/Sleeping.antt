-- ===== src/Jobs/Sleeping.antt =====
-- The jobs whose worker sleeps before the next attempt, over the calls of the engine
-- (internal/jobs/engine.go).
use opendrive_bridge.Common.{
  ℕ, ◌≡◌, refl, sym, ap, ◌∙◌, Bool, true, false, not, ◌&&◌, ◌||◌, Option, none, some, arith, leb,
  inl, inr, Bool-cases, Option-cases,
}
use opendrive_bridge.Common.Text.{Text, text_eq, text_eq_iff}
use opendrive_bridge.Common.Dict.{find, delete}
use opendrive_bridge.Sdk.Errors.{is_temporary}
use opendrive_bridge.Jobs.Types.{
  JobState, queued, running, succeeded, failed, cancelled, is_terminal, Failure, Job, Engine,
}
use opendrive_bridge.Jobs.Engine.{
  InfoAnswer, finished, finish, max_attempts_of, is_cancelled, requeued, requeue, reclaim_by_id,
  Rest, over, again, run_end,
}
use opendrive_bridge.Jobs.Running.{changed}
use opendrive_bridge.Jobs.Lifecycle.{
  IsOwned, Changes, Calls, StateStays, finish-Calls, given_up, give_up-Calls, requeue-Calls,
}

-- The states of a job whose worker sleeps.
abbrev pub is_resting : JobState → Bool
is_resting queued = true
is_resting cancelled = true
is_resting _ = false

-- A job whose worker sleeps is there, and waits or was cancelled.
abbrev pub Rests : (Text → Bool) → Engine → Type 0
Rests z e =
    (id : Text) → z id ≡ true → (j : Job) × (find id e.jobs ≡ some j) × (is_resting j.state ≡ true)

-- The sleepers when one has woken up, and when a round has ended.
abbrev pub without : Text → (Text → Bool) → Text → Bool
without id z q = not (text_eq id q) && z q

abbrev pub resting_after : Rest → Text → (Text → Bool) → Text → Bool
resting_after over id z q = z q
resting_after again id z q = text_eq id q || z q

-- The jobs but one stay.
abbrev pub Others : Text → Engine → Engine → Type 0
Others id e e' = (q : Text) → text_eq id q ≡ false → find q e'.jobs ≡ find q e.jobs

pub Rests-Others :
    (id : Text) (z z' : Text → Bool) (e e' : Engine)
    → Others id e e'
    → ((q : Text) → z' q ≡ true → z q ≡ true)
    → z' id ≡ false
    → Rests z e
    → Rests z' e'
Rests-Others id z z' e e' oth within gone rest q h = elim (Bool-cases (text_eq id q)) [
  | inl b ↦ absurd (cc (ap z' ((text_eq_iff id q).0 b), gone, h))
  | inr b ↦ let (j, at, r) = rest q (within q h) in (j, oth q b ∙ at, r)
]

pub Changes-Others :
    (id : Text) (g : Job → Job) (e e' : Engine) → Changes id g e e' → Others id e e'
Changes-Others id g e e' ch q b = elim (Option-cases (find id e.jobs)) [
  | inl n ↦ ch q ∙ rw (n, changed) refl
  | inr (j, s) ↦ ch q ∙ rw (s, changed) (rw b refl)
]

pub Rests-change :
    (id : Text) (g : Job → Job) (z z' : Text → Bool) (e e' : Engine)
    → Changes id g e e'
    → ((q : Text) → text_eq id q ≡ false → z' q ≡ true → z q ≡ true)
    → (z' id ≡ true → (j : Job) × (find id e.jobs ≡ some j) × (is_resting (g j).state ≡ true))
    → Rests z e
    → Rests z' e'
Rests-change id g z z' e e' ch within own rest q h = elim (Bool-cases (text_eq id q)) [
  | inl b ↦
      let same = (text_eq_iff id q).0 b in
      let (j, at, r) = own (ap z' same ∙ h) in
      (g j, ap (λ x. find x e'.jobs) (sym same) ∙ (ch id ∙ here j at), r)
  | inr b ↦ let (j, at, r) = rest q (within q b h) in (j, Changes-Others id g e e' ch q b ∙ at, r)
]
  where
    here : (j : Job) → find id e.jobs ≡ some j → changed id g id e.jobs ≡ some (g j)
    here j at = rw (at, changed) (rw ((text_eq_iff id id).1 refl) refl)

-- A call that leaves the state of the job that it changes.
pub Rests-quiet :
    (id : Text) (g : Job → Job) (z : Text → Bool) (e e' : Engine)
    → StateStays g
    → Calls id g e e'
    → Rests z e
    → Rests z e'
Rests-quiet id g z e e' st (ch, old) rest =
    Rests-change id g z z e e' ch (λ q b h. h)
      (λ h. let (j, at, r) = rest id h in (j, at, ap is_resting (st j) ∙ r)) rest

-- A job that has its context does not rest.
busy_is_awake :
    (id : Text) (c : Bool) (z : Text → Bool) (e : Engine)
    → find id e.cancels ≡ some c
    → IsOwned e
    → Rests z e
    → z id ≡ false
busy_is_awake id c z e f own rest = elim (Bool-cases (z id)) [
  | inr b ↦ b
  | inl b ↦
      let (j, at, r) = own id c f in
      let (i, at', s) = rest id b in absurd (ground (arith, at, at', r, s))
]

pub no_context :
    (id : Text) (z : Text → Bool) (e : Engine)
    → z id ≡ true
    → IsOwned e
    → Rests z e
    → find id e.cancels ≡ none
no_context id z e h own rest = elim (Option-cases (find id e.cancels)) [
  | inl n ↦ n
  | inr (c, f) ↦ absurd (cc (busy_is_awake id c z e f own rest, h))
]

pub cancelled_of_Rests :
    (id : Text) (z : Text → Bool) (e : Engine)
    → z id ≡ true
    → Rests z e
    → (j : Job) → find id e.jobs ≡ some j
    → is_terminal j.state ≡ true
    → j.state ≡ cancelled
cancelled_of_Rests id z e h rest j f t =
    let (i, at, r) = rest id h in settled j.state t (ground (arith, f, at, r))
  where
    settled : (s : JobState) → is_terminal s ≡ true → is_resting s ≡ true → s ≡ cancelled
    settled queued t r = absurd (cc t)
    settled running t r = absurd (cc t)
    settled succeeded t r = absurd (cc r)
    settled failed t r = absurd (cc r)
    settled cancelled t r = refl

pub run_end-Rests :
    (sh : Text → Text → Bool) (info : InfoAnswer) (id : Text) (attempt : ℕ)
    (outcome : Option Failure) (now : ℕ) (saved c : Bool) (z : Text → Bool) (e : Engine)
    → find id e.cancels ≡ some c
    → IsOwned e
    → Rests z e
    → (let r = run_end sh info id attempt outcome now saved e in Rests (resting_after r.1 id z) r.0)
unfolding run_end
run_end-Rests sh info id attempt none now saved c z e0 f own rest =
    let e = record e0 { cancels = delete id e0.cancels } in
    let awake = busy_is_awake id c z e0 f own rest in
    Rests-change id (finished succeeded none now) z z e (finish id succeeded none now saved e)
      (finish-Calls id succeeded none now saved e).0 (λ q b h. h) (λ h. absurd (cc (awake, h))) rest
run_end-Rests sh info id attempt (some x) now saved c z e0 f own rest =
    let e = record e0 { cancels = delete id e0.cancels } in
    let awake = busy_is_awake id c z e0 f own rest in
    let up : (st : JobState) (y : Option Failure)
        → Rests z (finish id st y now saved (reclaim_by_id sh info id e)) =
      λ st y.
        Rests-change id (given_up st y now) z z e
          (finish id st y now saved (reclaim_by_id sh info id e))
          (give_up-Calls sh info id st y now saved e).0 (λ q b h. h) (λ h. absurd (cc (awake, h)))
          rest in
    elim (Bool-cases (is_cancelled id e || x.is_canceled)) [
      | inl b ↦ rw b (up cancelled none)
      | inr b ↦
          elim (Bool-cases
            (not (is_temporary x.api) || leb (max_attempts_of x.api e0.max_attempts) attempt)) [
              | inl d ↦ rw b (rw d (up failed (some x)))
              | inr d ↦
                  let (j, at, r) = own id c f in
                  rw b (
                    rw d (
                      Rests-change id (requeued x now) z (resting_after again id z) e
                        (requeue id x now saved e) (requeue-Calls id x now saved e).0
                        (λ q k h. ground (arith, k, h)) (λ h. (j, at, refl)) rest))
            ]
    ]
