-- ===== src/Jobs/Rounds.antt =====
-- The loop of `run` (internal/jobs/engine.go) for one job.
use opendrive_bridge.Common.{ℕ, Bool, Option, none, some, List, [], ◌∷◌, if◌then◌else◌}
use opendrive_bridge.Common.Text.{Text}
use opendrive_bridge.Jobs.Types.{Phase, Failure, Engine}
use opendrive_bridge.Jobs.Engine.{
  InfoAnswer, run_begin, over, again, run_end, sleep_cut, record_created, progress, set_phase,
  upload_verified,
}
use opendrive_bridge.Jobs.Stopping.{cancel_begin}

-- What may happen to the job while its transfer runs or while it sleeps.
pub data During : Type 0 where
  is_created : Text → Text → ℕ → Bool → During
  has_progress : ℕ → ℕ → ℕ → During
  turns_to : Phase → ℕ → Bool → During
  is_verified : During
  is_cancelled_at : ℕ → During

unfoldable pub happen : Text → During → Engine → Engine
unfolding record_created progress set_phase upload_verified cancel_begin
happen id (is_created file_id temp now saved) e = record_created id file_id temp now saved e
happen id (has_progress n total now) e = progress id n total now e
happen id (turns_to p now saved) e = set_phase id p now saved e
happen id is_verified e = upload_verified id e
happen id (is_cancelled_at now) e = (cancel_begin id now e).0

unfoldable pub happen_all : Text → List During → Engine → Engine
unfolding happen
happen_all id [] e = e
happen_all id (x ∷ xs) e = happen_all id xs (happen id x e)

-- A round of the loop: its times, the outcomes of its saves, what happens during the transfer and
-- during the sleep, how the transfer ends, what upstream says of the record, and whether the sleep is
-- cut short.
pub record JobRound : Type 0 where
  pub now : ℕ
  pub later : ℕ
  pub saved : Bool
  pub transferring : List During
  pub outcome : Option Failure
  pub info : InfoAnswer
  pub sleeping : List During
  pub cut_short : Bool

-- `run`, over what happens in its rounds; `none` where those given are not enough.
unfoldable pub run_loop : (Text → Text → Bool) → Text → List JobRound → Engine → Option Engine
unfolding run_begin happen_all run_end sleep_cut
run_loop sh id [] e = none
run_loop sh id (x ∷ xs) e =
    let (e1, start) = run_begin id x.now x.saved e in
    elim start [
      | none ↦ some e1
      | some (attempt, spec) ↦
          let e2 = happen_all id x.transferring e1 in
          let (e3, rest) = run_end sh x.info id attempt x.outcome x.later x.saved e2 in
          let e4 = happen_all id x.sleeping e3 in
          let next = run_loop sh id xs e4 in
          elim rest [
            | over ↦ some e3
            | again ↦ if x.cut_short then some (sleep_cut sh x.info id x.later x.saved e4) else next
          ]
    ]
