-- ===== src/Jobs/Crash.antt =====
-- A crash in the middle of a cancellation (internal/jobs/engine.go).
use opendrive_bridge.Common.{ℕ, ◌≡◌, ◌≤◌, refl, ap, ◌∙◌, Bool, true, false, some, [], arith, length}
use opendrive_bridge.Common.Text.{Text}
use opendrive_bridge.Common.Dict.{find, find-insert_self, values, listed, IsDistinct}
use opendrive_bridge.Jobs.Types.{queued, cancelled, is_terminal, Job, Engine}
use opendrive_bridge.Jobs.Engine.{InfoAnswer}
use opendrive_bridge.Jobs.Submitting.{job_queue_capacity}
use opendrive_bridge.Jobs.Stopping.{
  cancel_context, cancel_live, cancel_begin, mark, interrupted_job, recover,
}
use opendrive_bridge.Jobs.Recovering.{interrupted_job-state}
use opendrive_bridge.Jobs.Restart.{IsKeyed, recover_stored}

cancel_context-stored : (id : Text) (e : Engine) → (cancel_context id e).stored ≡ e.stored
cancel_context-stored id e = ground arith

cancel_queued :
    (id : Text) (now : ℕ) (j : Job) (e : Engine)
    → find id e.jobs ≡ some j
    → j.state ≡ queued
    → (find id (cancel_begin id now e).0.jobs ≡ some (mark now j))
      × ((cancel_begin id now e).0.stored ≡ e.stored)
unfolding cancel_begin
cancel_queued id now j e at q =
    let live : is_terminal j.state ≡ false = ap is_terminal q in
    rw (at, cancel_begin)
      (rw live (
        rw q (
          unfold cancel_live in
          (
            find-insert_self id (mark now j) (cancel_context id e).jobs,
            cancel_context-stored id e,
          ))))

-- The engine that starts with what a store holds.
abbrev pub restarted : Engine → Engine
restarted e = record e { jobs = []; queue = []; cancels = []; deletions = [] }

-- A crash behind the first part of `Cancel` brings the job back: it showed as cancelled, the store still
-- has it as unfinished, and the restart queues it again, if it has left no record upstream and the
-- store, whatever else it holds, does not hold more jobs than the queue takes.
pub cancelled_job_returns :
    (sh : Text → Text → Bool) (answer : Text → InfoAnswer) (saved : Bool) (now later : ℕ)
    (id : Text) (j s : Job) (e : Engine)
    → find id e.jobs ≡ some j
    → j.state ≡ queued
    → IsKeyed e.stored
    → IsDistinct e.stored
    → length (values e.stored) ≤ job_queue_capacity
    → find id e.stored ≡ some s
    → is_terminal s.state ≡ false
    → s.upstream_file_id ≡ []
    → (let e' = (cancel_begin id now e).0 in
        let e'' = (recover sh answer saved later (values e'.stored) (restarted e')).0 in
        ((j' : Job) × (find id e'.jobs ≡ some j') × (j'.state ≡ cancelled))
        × ((s' : Job) × (find id e''.jobs ≡ some s') × (s'.state ≡ queued))
        × (listed id e''.queue ≡ true))
cancelled_job_returns sh answer saved now later id j s e at q keyed dist room st live bare =
    let (shown, kept) = cancel_queued id now j e at q in
    let e' = (cancel_begin id now e).0 in
    let (jobs', queue') =
      recover_stored sh answer saved later id s e.stored (restarted e') keyed dist st live bare
        (omega (arith, room)) in
    let opened = ap (λ m. recover sh answer saved later (values m) (restarted e')) kept in
    (
      (mark now j, shown, refl),
      (
        interrupted_job later s,
        ap (λ x. find id x.0.jobs) opened ∙ jobs',
        interrupted_job-state later s,
      ),
      ap (λ x. listed id x.0.queue) opened ∙ queue',
    )
