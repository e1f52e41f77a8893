-- ===== src/Jobs/Calls.antt =====
-- What each call of the engine does to the jobs that are over and to the contexts
-- (internal/jobs/engine.go).
use opendrive_bridge.Common.{
  ℕ, ◌+◌, ◌≡◌, refl, sym, ap, ◌∙◌, Bool, true, false, not, ◌||◌, Option, none, some, arith, leb,
  if◌then◌else◌, inl, inr, Bool-cases, Option-cases,
}
use opendrive_bridge.Common.Text.{Text, text_eq, text_eq_iff}
use opendrive_bridge.Common.Dict.{find, insert, delete, find-insert}
use opendrive_bridge.Sdk.Errors.{is_temporary}
use opendrive_bridge.Jobs.Types.{
  JobState, running, succeeded, failed, cancelled, is_terminal, Failure, Job, Engine,
}
use opendrive_bridge.Jobs.Engine.{
  persist, InfoAnswer, finished, finish, run_begin, max_attempts_of, is_cancelled, requeued,
  requeue, reclaim_by_id, run_end, sleep_cut,
}
use opendrive_bridge.Jobs.Running.{persist-jobs, persist-cancels}
use opendrive_bridge.Jobs.Lifecycle.{
  IsOwned, KeepsEnded-change, IsOwned-change, Sound, Sound-end, finish-Calls, give_up-Calls,
  given_up, requeue-Calls,
}

pub run_end-Sound :
    (sh : Text → Text → Bool) (info : InfoAnswer) (id : Text) (attempt : ℕ)
    (outcome : Option Failure) (now : ℕ) (saved c : Bool) (e : Engine)
    → find id e.cancels ≡ some c
    → IsOwned e
    → Sound e (run_end sh info id attempt outcome now saved e).0
unfolding run_end
run_end-Sound sh info id attempt none now saved c e0 f own =
    let e = record e0 { cancels = delete id e0.cancels } in
    Sound-end id (finished succeeded none now) c e0 e (finish id succeeded none now saved e) f refl
      (finish-Calls id succeeded none now saved e) own
run_end-Sound sh info id attempt (some x) now saved c e0 f own =
    let e = record e0 { cancels = delete id e0.cancels } in
    let up : (st : JobState) (y : Option Failure)
        → Sound e0 (finish id st y now saved (reclaim_by_id sh info id e)) =
      λ st y.
        Sound-end id (given_up st y now) c e0 e
          (finish id st y now saved (reclaim_by_id sh info id e)) f refl
          (give_up-Calls sh info id st y now saved e) own in
    elim (Bool-cases (is_cancelled id e || x.is_canceled)) [
      | inl b ↦ rw b (up cancelled none)
      | inr b ↦
          elim (Bool-cases
            (not (is_temporary x.api) || leb (max_attempts_of x.api e0.max_attempts) attempt)) [
              | inl d ↦ rw b (rw d (up failed (some x)))
              | inr d ↦ rw b (
                  rw d (
                    Sound-end id (requeued x now) c e0 e (requeue id x now saved e) f refl
                      (requeue-Calls id x now saved e) own))
            ]
    ]

pub cut-Sound :
    (sh : Text → Text → Bool) (info : InfoAnswer) (id : Text) (now : ℕ) (saved : Bool) (e : Engine)
    → find id e.cancels ≡ none
    → ((j : Job) → find id e.jobs ≡ some j → is_terminal j.state ≡ true → j.state ≡ cancelled)
    → IsOwned e
    → Sound e (sleep_cut sh info id now saved e)
unfolding sleep_cut
cut-Sound sh info id now saved e free waits own =
    let e' = sleep_cut sh info id now saved e in
    let (ch, old) = give_up-Calls sh info id cancelled none now saved e in
    (
      IsOwned-change id (given_up cancelled none now) e e' ch old
          (λ j c f r. let (c', f') = old id c f in absurd (cc (f', free))) own,
      KeepsEnded-change id (given_up cancelled none now) e e' ch (λ j at t. sym (waits j at t)),
    )

-- The job that `begins` starts.
abbrev started : ℕ → Job → Job
started now j = record j {
  state = running;
  attempts = j.attempts + 1;
  error = none;
  updated_at = now;
}

begun : Text → ℕ → Bool → Job → Engine → Engine
begun id now saved j e =
    persist saved id
      (record e { jobs = insert id (started now j) e.jobs; cancels = insert id false e.cancels })

begin_known-Sound :
    (id : Text) (now : ℕ) (saved : Bool) (j : Job) (e : Engine)
    → find id e.jobs ≡ some j
    → is_terminal j.state ≡ false
    → IsOwned e
    → Sound e (begun id now saved j e)
unfolding begun
begin_known-Sound id now saved j e at live own =
    let m = record e {
      jobs = insert id (started now j) e.jobs;
      cancels = insert id false e.cancels;
    } in
    let e' = persist saved id m in
    let jobs' : (q : Text)
        → find q e'.jobs ≡ (if text_eq id q then some (started now j) else find q e.jobs) =
      λ q. ap (find q) (persist-jobs saved id m) ∙ find-insert id q (started now j) e.jobs in
    let cancels' : (q : Text)
        → find q e'.cancels ≡ (if text_eq id q then some false else find q e.cancels) =
      λ q. ap (find q) (persist-cancels saved id m) ∙ find-insert id q false e.cancels in
    (
      λ q c f. elim (Bool-cases (text_eq id q)) [
        | inl b ↦ (started now j, jobs' q ∙ rw b refl, refl)
        | inr b ↦
            let (i, at', r) = own q c (ground (arith, cancels' q, b, f)) in
            (i, jobs' q ∙ rw b at', r)
      ],
      λ q i f t. elim (Bool-cases (text_eq id q)) [
        | inl b ↦
            let same : some j ≡ some i =
              sym at ∙ (ap (λ x. find x e.jobs) ((text_eq_iff id q).0 b) ∙ f) in
            absurd (ground (arith, same, live, t))
        | inr b ↦ (i, jobs' q ∙ rw b f, refl)
      ],
    )

pub Sound-refl : (e : Engine) → IsOwned e → Sound e e
Sound-refl e own = (own, λ q j f t. (j, f, refl))

pub begin-Sound :
    (id : Text) (now : ℕ) (saved : Bool) (e : Engine)
    → IsOwned e
    → Sound e (run_begin id now saved e).0
unfolding run_begin
begin-Sound id now saved e own = elim (Option-cases (find id e.jobs)) [
  | inl n ↦ rw (n, run_begin) (Sound-refl e own)
  | inr (j, at) ↦ elim (Bool-cases (is_terminal j.state)) [
    | inl t ↦ rw (at, run_begin) (rw t (Sound-refl e own))
    | inr t ↦
        rw (at, run_begin) (rw t (unfold begun in begin_known-Sound id now saved j e at t own))
  ]
]
