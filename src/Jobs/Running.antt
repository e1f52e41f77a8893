-- ===== src/Jobs/Running.antt =====
-- What each call of the engine does to the jobs in memory (internal/jobs/engine.go).
use opendrive_bridge.Common.{
  ℕ, ◌≡◌, refl, ap, ◌∙◌, Bool, Option, none, some, arith, if◌then◌else◌, inl, inr, Option-cases,
}
use opendrive_bridge.Common.Text.{Text, text_eq}
use opendrive_bridge.Common.Dict.{Dict, find, insert, find-insert}
use opendrive_bridge.Jobs.Types.{JobState, Failure, Job, Engine}
use opendrive_bridge.Jobs.Engine.{
  save, persist, InfoAnswer, Reclaim, left_alone, whole_file, asked, reclaim, ask_deletion,
  forget_record, reclaim_by_id, finished, finish, requeued, requeue, change_job,
}

-- The job under `q` when the one under `id` has been changed by `g`.
abbrev pub changed : Text → (Job → Job) → Text → Dict Job → Option Job
changed id g q m = elim (find id m) [
  | none ↦ find q m
  | some j ↦ if text_eq id q then some (g j) else find q m
]

pub save-jobs : (s : Bool) (j : Job) (e : Engine) → (save s j e).jobs ≡ e.jobs
unfolding save
save-jobs s j e = ground arith

pub save-cancels : (s : Bool) (j : Job) (e : Engine) → (save s j e).cancels ≡ e.cancels
unfolding save
save-cancels s j e = ground arith

pub persist-jobs : (s : Bool) (id : Text) (e : Engine) → (persist s id e).jobs ≡ e.jobs
unfolding persist
persist-jobs s id e = ground (arith, save-jobs s)

pub persist-cancels : (s : Bool) (id : Text) (e : Engine) → (persist s id e).cancels ≡ e.cancels
unfolding persist
persist-cancels s id e = ground (arith, save-cancels s)

pub ask_deletion-jobs : (r : Reclaim) (j : Job) (e : Engine) → (ask_deletion r j e).jobs ≡ e.jobs
ask_deletion-jobs left_alone j e = refl
ask_deletion-jobs whole_file j e = refl
ask_deletion-jobs asked j e = refl

pub ask_deletion-cancels :
    (r : Reclaim) (j : Job) (e : Engine) → (ask_deletion r j e).cancels ≡ e.cancels
ask_deletion-cancels left_alone j e = refl
ask_deletion-cancels whole_file j e = refl
ask_deletion-cancels asked j e = refl

pub change_job-jobs :
    (g : Job → Job) (id q : Text) (e : Engine)
    → find q (change_job g id e).jobs ≡ changed id g q e.jobs
change_job-jobs g id q e = elim (Option-cases (find id e.jobs)) [
  | inl n ↦ rw (n, change_job, changed) refl
  | inr (j, s) ↦ rw (s, change_job, changed) (find-insert id q (g j) e.jobs)
]

pub change_job-cancels :
    (g : Job → Job) (id : Text) (e : Engine) → (change_job g id e).cancels ≡ e.cancels
change_job-cancels g id e = ground arith

pub reclaim_by_id-jobs :
    (sh : Text → Text → Bool) (info : InfoAnswer) (id q : Text) (e : Engine)
    → find q (reclaim_by_id sh info id e).jobs ≡ changed id forget_record q e.jobs
unfolding reclaim_by_id
reclaim_by_id-jobs sh info id q e = elim (Option-cases (find id e.jobs)) [
  | inl n ↦ rw (n, reclaim_by_id, changed) refl
  | inr (j, s) ↦
      rw (s, reclaim_by_id, changed)
        (find-insert id q (forget_record j) (ask_deletion (reclaim sh info j) j e).jobs
          ∙ ap (λ m. if text_eq id q then some (forget_record j) else find q m)
              (ask_deletion-jobs (reclaim sh info j) j e))
]

pub reclaim_by_id-cancels :
    (sh : Text → Text → Bool) (info : InfoAnswer) (id : Text) (e : Engine)
    → (reclaim_by_id sh info id e).cancels ≡ e.cancels
unfolding reclaim_by_id
reclaim_by_id-cancels sh info id e = elim (Option-cases (find id e.jobs)) [
  | inl n ↦ rw (n, reclaim_by_id) refl
  | inr (j, s) ↦ rw (s, reclaim_by_id) (ask_deletion-cancels (reclaim sh info j) j e)
]

pub finish-jobs :
    (id q : Text) (st : JobState) (f : Option Failure) (now : ℕ) (s : Bool) (e : Engine)
    → find q (finish id st f now s e).jobs ≡ changed id (finished st f now) q e.jobs
unfolding finish
finish-jobs id q st f now s e = elim (Option-cases (find id e.jobs)) [
  | inl n ↦ rw (n, finish, changed) refl
  | inr (j, h) ↦
      rw (h, finish, changed)
        (find-insert id q (finished st f now j) (save s (finished st f now j) e).jobs
          ∙ ap (λ m. if text_eq id q then some (finished st f now j) else find q m)
              (save-jobs s (finished st f now j) e))
]

pub finish-cancels :
    (id : Text) (st : JobState) (f : Option Failure) (now : ℕ) (s : Bool) (e : Engine)
    → (finish id st f now s e).cancels ≡ e.cancels
unfolding finish
finish-cancels id st f now s e = elim (Option-cases (find id e.jobs)) [
  | inl n ↦ rw (n, finish) refl
  | inr (j, h) ↦ rw (h, finish) (save-cancels s (finished st f now j) e)
]

pub requeue-jobs :
    (id q : Text) (f : Failure) (now : ℕ) (s : Bool) (e : Engine)
    → find q (requeue id f now s e).jobs ≡ changed id (requeued f now) q e.jobs
unfolding requeue
requeue-jobs id q f now s e = elim (Option-cases (find id e.jobs)) [
  | inl n ↦ rw (n, requeue, changed) refl
  | inr (j, h) ↦
      rw (h, requeue, changed)
        (ap (find q) (persist-jobs s id (record e { jobs = insert id (requeued f now j) e.jobs }))
          ∙ find-insert id q (requeued f now j) e.jobs)
]

pub requeue-cancels :
    (id : Text) (f : Failure) (now : ℕ) (s : Bool) (e : Engine)
    → (requeue id f now s e).cancels ≡ e.cancels
unfolding requeue
requeue-cancels id f now s e = elim (Option-cases (find id e.jobs)) [
  | inl n ↦ rw (n, requeue) refl
  | inr (j, h) ↦
      rw (h, requeue)
        (persist-cancels s id (record e { jobs = insert id (requeued f now j) e.jobs }))
]
