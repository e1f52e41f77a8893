-- ===== src/Jobs/Steps.antt =====
-- The engine as a state machine (internal/jobs/engine.go): its calls in any order, with the jobs whose
-- worker sleeps before the next attempt.
use opendrive_bridge.Common.{
  ℕ, ◌≡◌, refl, ap, ◌∙◌, Bool, true, false, Option, none, some, ltb, if◌then◌else◌,
}
use opendrive_bridge.Common.Text.{Text}
use opendrive_bridge.Common.Dict.{find}
use opendrive_bridge.Jobs.Types.{is_terminal, Phase, Failure, Spec, Job, Engine}
use opendrive_bridge.Jobs.Engine.{
  persist, InfoAnswer, forget_record, run_begin, run_end, sleep_cut, change_job, record_created,
  progress, set_phase, upload_verified,
}
use opendrive_bridge.Jobs.Submitting.{submit}
use opendrive_bridge.Jobs.Stopping.{cancel_begin, cancel_end}
use opendrive_bridge.Jobs.Lifecycle.{
  IsOwned, Calls, StateStays, Sound, Sound-quiet, persisted_change-Calls, change_job-Calls,
}
use opendrive_bridge.Jobs.Calls.{run_end-Sound, cut-Sound, begin-Sound}
use opendrive_bridge.Jobs.Orders.{cancel-Sound, cancel_end-Sound, submit-Sound}
use opendrive_bridge.Jobs.Sleeping.{
  Rests, without, resting_after, Rests-quiet, no_context, cancelled_of_Rests, run_end-Rests,
}
use opendrive_bridge.Jobs.Waking.{
  begin-Rests, wake-Rests, cut-Rests, submit-Rests, cancel-Rests, cancel_end-Rests,
}

-- A call, with the jobs whose worker sleeps before and after it. A new job has a new id; a worker takes
-- a job that no worker has; a transfer ends for a job that has its context; and the worker that wakes
-- up, or whose sleep is cut short, is one that sleeps.
pub data Step (sh : Text → Text → Bool) (z : Text → Bool) (e : Engine)
    : (Text → Bool) → Engine → Type 0 where
  submits :
      (base : Text → Text) (write_back : Bool) (id : Text) (now : ℕ) (s : Spec)
      (saved removed : Bool)
      → find id e.jobs ≡ none
      → Step sh z e z (submit base write_back id now s saved removed e).0
  begins :
      (id : Text) (now : ℕ) (saved : Bool)
      → find id e.cancels ≡ none
      → z id ≡ false
      → Step sh z e z (run_begin id now saved e).0
  wakes :
      (id : Text) (now : ℕ) (saved : Bool)
      → z id ≡ true
      → Step sh z e (without id z) (run_begin id now saved e).0
  ends :
      (info : InfoAnswer) (id : Text) (attempt : ℕ) (outcome : Option Failure) (now : ℕ)
      (saved c : Bool)
      → find id e.cancels ≡ some c
      → Step sh z e
          (resting_after (run_end sh info id attempt outcome now saved e).1 id z)
          (run_end sh info id attempt outcome now saved e).0
  cuts :
      (info : InfoAnswer) (id : Text) (now : ℕ) (saved : Bool)
      → z id ≡ true
      → Step sh z e (without id z) (sleep_cut sh info id now saved e)
  creates :
      (id file_id temp : Text) (now : ℕ) (saved : Bool)
      → Step sh z e z (record_created id file_id temp now saved e)
  progresses : (id : Text) (done total now : ℕ) → Step sh z e z (progress id done total now e)
  turns :
      (id : Text) (p : Phase) (now : ℕ) (saved : Bool) → Step sh z e z (set_phase id p now saved e)
  verifies : (id : Text) → Step sh z e z (upload_verified id e)
  cancels_first : (id : Text) (now : ℕ) → Step sh z e z (cancel_begin id now e).0
  cancels_second :
      (info : InfoAnswer) (snapshot : Job) (saved : Bool)
      → Step sh z e z (cancel_end sh info snapshot saved e)

-- Each context belongs to a running job, and a job whose worker sleeps waits or was cancelled.
abbrev pub Tended : (Text → Bool) → Engine → Type 0
Tended z e = IsOwned e × Rests z e

-- A call keeps the contexts and the sleepers in order, and what is over.
abbrev Kept : (Text → Bool) → Engine → Engine → Type 0
Kept z' e e' = Sound e e' × Rests z' e'

Kept-quiet :
    (id : Text) (g : Job → Job) (z : Text → Bool) (e e' : Engine)
    → StateStays g
    → Calls id g e e'
    → Tended z e
    → Kept z e e'
Kept-quiet id g z e e' st calls (own, rest) =
    (Sound-quiet id g e e' st calls own, Rests-quiet id g z e e' st calls rest)

Step-Kept :
    (sh : Text → Text → Bool) (z : Text → Bool) (e : Engine) (z' : Text → Bool) (e' : Engine)
    → Step sh z e z' e'
    → Tended z e
    → Kept z' e e'
Step-Kept sh z e _ _ (submits base write_back id now s saved removed free) (own, rest) = (
  submit-Sound base write_back id now s saved removed e free own,
  submit-Rests base write_back id now s saved removed z e free rest,
)
Step-Kept sh z e _ _ (begins id now saved free awake) (own, rest) =
    (begin-Sound id now saved e own, begin-Rests id now saved z e awake rest)
Step-Kept sh z e _ _ (wakes id now saved asleep) (own, rest) =
    (begin-Sound id now saved e own, wake-Rests id now saved z e rest)
Step-Kept sh z e _ _ (ends info id attempt outcome now saved c f) (own, rest) = (
  run_end-Sound sh info id attempt outcome now saved c e f own,
  run_end-Rests sh info id attempt outcome now saved c z e f own rest,
)
Step-Kept sh z e _ _ (cuts info id now saved asleep) (own, rest) = (
  cut-Sound sh info id now saved e (no_context id z e asleep own rest)
      (cancelled_of_Rests id z e asleep rest) own,
  cut-Rests sh info id now saved z e rest,
)
Step-Kept sh z e _ _ (creates id file_id temp now saved) own =
    unfold record_created in
    let g : Job → Job = λ j. record j {
      upstream_file_id = file_id;
      upstream_temp_location = temp;
      updated_at = now;
    } in
    Kept-quiet id g z e (persist saved id (change_job g id e)) (λ j. refl)
      (persisted_change-Calls g id saved e) own
Step-Kept sh z e _ _ (progresses id done total now) own =
    unfold progress in
    let g : Job → Job = λ j. record j {
      bytes_done = done;
      bytes_total = if ltb 0 total then total else j.bytes_total;
      updated_at = now;
    } in
    Kept-quiet id g z e (change_job g id e) (λ j. refl) (change_job-Calls g id e) own
Step-Kept sh z e _ _ (turns id p now saved) own =
    unfold set_phase in
    let g : Job → Job = λ j. record j { phase = p; updated_at = now } in
    Kept-quiet id g z e (persist saved id (change_job g id e)) (λ j. refl)
      (persisted_change-Calls g id saved e) own
Step-Kept sh z e _ _ (verifies id) own =
    unfold upload_verified in
    Kept-quiet id forget_record z e (change_job forget_record id e) (λ j. refl)
      (change_job-Calls forget_record id e) own
Step-Kept sh z e _ _ (cancels_first id now) (own, rest) =
    (cancel-Sound id now e own, cancel-Rests id now z e rest)
Step-Kept sh z e _ _ (cancels_second info j saved) (own, rest) =
    (cancel_end-Sound sh info j saved e own, cancel_end-Rests sh info j saved z e rest)

-- Any sequence of calls.
pub data Run (sh : Text → Text → Bool) (z : Text → Bool) (e : Engine)
    : (Text → Bool) → Engine → Type 0 where
  done : Run sh z e z e
  then_call :
      (z' : Text → Bool) (e' : Engine) (z'' : Text → Bool) (e'' : Engine)
      → Run sh z e z' e'
      → Step sh z' e' z'' e''
      → Run sh z e z'' e''

Run-Tended :
    (sh : Text → Text → Bool) (z : Text → Bool) (e : Engine) (z' : Text → Bool) (e' : Engine)
    → Run sh z e z' e'
    → Tended z e
    → Tended z' e'
Run-Tended sh z e _ _ done own = own
Run-Tended sh z e _ _ (then_call z' e' z'' e'' r s) own =
    let kept = Step-Kept sh z' e' z'' e'' s (Run-Tended sh z e z' e' r own) in (kept.0.0, kept.1)

-- Whatever calls of the engine follow, in any order but without a restart, a job that is over stays in
-- the engine, in the state in which it ended. A new job is taken to have a new id, a worker to take
-- only a job that no worker has, a transfer to end only for a job that has its context, and only a
-- worker that sleeps to wake up or to have its sleep cut short; and at the start each context belongs
-- to a running job, and a job whose worker sleeps waits or was cancelled.
pub ended_jobs_stay :
    (sh : Text → Text → Bool) (z : Text → Bool) (e : Engine) (z' : Text → Bool) (e' : Engine)
    → Tended z e
    → Run sh z e z' e'
    → (id : Text) (j : Job) → find id e.jobs ≡ some j
    → is_terminal j.state ≡ true
    → (j' : Job) × (find id e'.jobs ≡ some j') × (j'.state ≡ j.state)
ended_jobs_stay sh z e _ _ own done id j f t = (j, f, refl)
ended_jobs_stay sh z e _ _ own (then_call z' e' z'' e'' r s) id j f t =
    let (j1, f1, h1) = ended_jobs_stay sh z e z' e' own r id j f t in
    let kept = Step-Kept sh z' e' z'' e'' s (Run-Tended sh z e z' e' r own) in
    let (j2, f2, h2) = kept.0.1 id j1 f1 (ap is_terminal h1 ∙ t) in (j2, f2, h2 ∙ h1)
