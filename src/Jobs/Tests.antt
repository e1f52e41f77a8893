-- ===== src/Jobs/Tests.antt =====
-- The job engine (internal/jobs) at concrete inputs.
use opendrive_bridge.Common.{
  ◌≡◌, ◌↔◌, refl, subst, Bool, true, false, none, some, [], ◌∷◌, arith, is_some,
}
use opendrive_bridge.Common.Text.{Text, codes, text_eq, text_eq_iff, is_empty}
use opendrive_bridge.Common.Dict.{find, insert, values, listed}
use opendrive_bridge.Jobs.Types.{queued, running, succeeded, cancelled, upload, Spec, Job, Engine}
use opendrive_bridge.Jobs.Engine.{not_there, record_found, reclaim, asked, save, sleep_cut}
use opendrive_bridge.Jobs.Submitting.{new_job}
use opendrive_bridge.Jobs.Stopping.{recover, recovered, cancel_begin}
use opendrive_bridge.Jobs.Lifecycle.{IsOwned}
use opendrive_bridge.Jobs.Sleeping.{without}
use opendrive_bridge.Jobs.Steps.{cuts, done, then_call, Tended, ended_jobs_stay}
use opendrive_bridge.Jobs.Rounds.{JobRound, has_progress, is_cancelled_at, run_loop}
use opendrive_bridge.Jobs.Attempts.{run_ends}
use opendrive_bridge.Jobs.Reclaim.{reclaim_only_empty}
use opendrive_bridge.Jobs.Recovering.{Placed, recover_places_all}
use opendrive_bridge.Jobs.Crash.{restarted, cancelled_job_returns}

abbrev same_text : Text → Text → Bool
unfolding text_eq
same_text = text_eq

abbrev spec : Spec
spec = record {
  kind = upload;
  local_path = codes "/tmp/a";
  folder_id = codes "f";
  name = codes "a";
  file_id = [];
  remote_path = codes "/a";
  size = 10;
  hash = [];
  overwrite = false;
}

abbrev one : Text
one = codes "1"

abbrev waiting : Job
waiting = new_job false one 100 spec

abbrev finished_job : Job
finished_job = record waiting { state = succeeded; attempts = 1 }

-- An upload that was running when the program stopped, with its record upstream.
abbrev interrupted_upload : Job
interrupted_upload = record waiting { state = running; upstream_file_id = codes "r"; attempts = 1 }

abbrev engine : Job → Engine
engine j = record {
  max_attempts = 2;
  jobs = (one, j) ∷ [];
  stored = (one, j) ∷ [];
  queue = one ∷ [];
  cancels = [];
  deletions = [];
}

engine-IsOwned : (j : Job) → IsOwned (engine j)
unfolding find
engine-IsOwned j id c f = absurd (cc f)

-- A job that was cancelled while its worker sleeps, whose sleep is then cut short.
abbrev cancelled_job : Job
cancelled_job = record waiting { state = cancelled; attempts = 1 }

abbrev only_one : Text → Bool
unfolding text_eq
only_one q = text_eq one q

engine-Tended : Tended only_one (engine cancelled_job)
unfolding find text_eq only_one
engine-Tended = (
  engine-IsOwned cancelled_job,
  λ id h.
      let same : one ≡ id = (text_eq_iff one id).0 h in
      (
        cancelled_job,
        subst (λ k. find k (engine cancelled_job).jobs ≡ some cancelled_job) same refl,
        refl,
      ),
)

abbrev after_cut : Engine
after_cut = sleep_cut same_text not_there one 300 true (engine cancelled_job)

ended_jobs_stay_example : (j' : Job) × (find one after_cut.jobs ≡ some j') × (j'.state ≡ cancelled)
unfolding find text_eq
ended_jobs_stay_example =
    ended_jobs_stay same_text only_one (engine cancelled_job) (without one only_one) after_cut
      engine-Tended
      (then_call only_one (engine cancelled_job) (without one only_one) after_cut done
        (cuts not_there one 300 true refl))
      one cancelled_job refl refl

abbrev stumbling : JobRound
stumbling = record {
  now = 200;
  later = 300;
  saved = true;
  transferring = has_progress 5 10 250 ∷ [];
  outcome = some (record { api = none; is_canceled = false; words = codes "disk" });
  info = not_there;
  sleeping = is_cancelled_at 310 ∷ [];
  cut_short = false;
}

run_ends_example :
    is_some (run_loop same_text one (stumbling ∷ stumbling ∷ stumbling ∷ []) (engine waiting))
    ≡ true
run_ends_example =
    run_ends same_text one (stumbling ∷ stumbling ∷ stumbling ∷ []) (engine waiting) (omega arith)

reclaim_only_empty_example :
    (reclaim same_text (record_found [] 0) interrupted_upload ≡ asked)
    ↔ ((is_empty (codes "r") ≡ false) × (false ≡ false) × (record_found [] 0 ≡ record_found [] 0))
reclaim_only_empty_example = reclaim_only_empty same_text (record_found [] 0) interrupted_upload

recover_places_all_example :
    Placed one
      (recover same_text
        (λ r. not_there)
        true
        300
        (interrupted_upload ∷ [])
        (restarted (engine interrupted_upload))).0
unfolding recover recovered reclaim save insert text_eq
recover_places_all_example =
    recover_places_all same_text (λ r. not_there) true 300 (interrupted_upload ∷ [])
      (restarted (engine interrupted_upload)) refl one refl

-- A store with an older job that is over beside the one that waits.
abbrev two_stored : Engine
two_stored = record (engine waiting) {
  stored = (codes "0", record finished_job { id = codes "0" }) ∷ (one, waiting) ∷ [];
}

cancelled_job_returns_example :
    (let e' = (cancel_begin one 200 two_stored).0 in
      let e'' = (recover same_text (λ r. not_there) true 300 (values e'.stored) (restarted e')).0 in
      ((j' : Job) × (find one e'.jobs ≡ some j') × (j'.state ≡ cancelled))
      × ((s' : Job) × (find one e''.jobs ≡ some s') × (s'.state ≡ queued))
      × (listed one e''.queue ≡ true))
unfolding find text_eq
cancelled_job_returns_example =
    cancelled_job_returns same_text (λ r. not_there) true 200 300 one waiting waiting two_stored
      refl refl (refl, (refl, tt)) (refl, (refl, tt)) (omega arith) refl refl refl
