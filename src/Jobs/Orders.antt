-- ===== src/Jobs/Orders.antt =====
-- What `Submit` and `Cancel` do to the jobs that are over and to the contexts
-- (internal/jobs/engine.go).
use opendrive_bridge.Common.{
  ℕ, ◌≡◌, ◌≢◌, ◌⊎◌, refl, sym, ap, ◌∙◌, Bool, true, false, Option, none, some, [], ◌∷◌, ◌++◌, arith,
  length, ltb, if◌then◌else◌, inl, inr, Bool-cases, Option-cases,
}
use opendrive_bridge.Common.Text.{Text, text_eq, text_eq_iff}
use opendrive_bridge.Common.Dict.{find, insert, delete, find-insert, find-delete}
use opendrive_bridge.Jobs.Types.{JobState, running, is_terminal, Spec, Job, Engine}
use opendrive_bridge.Jobs.Engine.{put_job, save, persist, InfoAnswer, reclaim, ask_deletion}
use opendrive_bridge.Jobs.Submitting.{
  job_queue_capacity, SpecError, Valid, invalid, valid, validate_spec, new_job, submit_valid,
  submit,
}
use opendrive_bridge.Jobs.Stopping.{mark, cancel_context, cancel_live, cancel_begin, cancel_end}
use opendrive_bridge.Jobs.Running.{
  changed, save-jobs, save-cancels, persist-jobs, persist-cancels, ask_deletion-jobs,
  ask_deletion-cancels,
}
use opendrive_bridge.Jobs.Lifecycle.{
  IsOwned, Changes, NoNewContext, KeepsEnded-change, IsOwned-change, Sound,
}
use opendrive_bridge.Jobs.Calls.{Sound-refl}

pub cancel_context-jobs : (id : Text) (e : Engine) → (cancel_context id e).jobs ≡ e.jobs
cancel_context-jobs id e = ground arith

cancel_context-contexts : (id : Text) (e : Engine) → NoNewContext e (cancel_context id e)
cancel_context-contexts id e q c f = elim (Option-cases (find id e.cancels)) [
  | inl n ↦ (c, rw (n, cancel_context) at f)
  | inr (b, s) ↦ elim (Bool-cases (text_eq id q)) [
    | inl t ↦ (b, ap (λ x. find x e.cancels) (sym ((text_eq_iff id q).0 t)) ∙ s)
    | inr t ↦ (c, sym (find-insert id q true e.cancels ∙ rw t refl) ∙ rw (s, cancel_context) at f)
  ]
]

cancelled_context-Sound : (id : Text) (e : Engine) → IsOwned e → Sound e (cancel_context id e)
cancelled_context-Sound id e own = (
  λ q c f.
      let (c', f') = cancel_context-contexts id e q c f in
      let (j, at, r) = own q c' f' in (j, ap (find q) (cancel_context-jobs id e) ∙ at, r),
  λ q j f t. (j, ap (find q) (cancel_context-jobs id e) ∙ f, refl),
)

marked-Sound :
    (id : Text) (now : ℕ) (j : Job) (e : Engine)
    → find id e.jobs ≡ some j
    → is_terminal j.state ≡ false
    → j.state ≢ running
    → IsOwned e
    → (let e' = cancel_context id e in
        Sound e (record e' { jobs = insert id (mark now j) e'.jobs }))
marked-Sound id now j e at live idle own =
    let e' = cancel_context id e in
    let e'' : Engine = record e' { jobs = insert id (mark now j) e'.jobs } in
    let ch : Changes id (mark now) e e'' = λ q.
      find-insert id q (mark now j) e'.jobs
      ∙ (ap (λ m. if text_eq id q then some (mark now j) else find q m) (cancel_context-jobs id e)
          ∙ rw (at, changed) refl) in
    let old : NoNewContext e e'' = cancel_context-contexts id e in
    (
      IsOwned-change id (mark now) e e'' ch old
          (λ i c f r.
            let (c', f') = old id c f in
            let (k, at', r') = own id c' f' in absurd (idle (running_job at at' r')))
          own,
      KeepsEnded-change id (mark now) e e'' ch (λ i f t. absurd (ground (arith, f, at, live, t))),
    )
  where
    running_job :
        {k : Job}
        → find id e.jobs ≡ some j
        → find id e.jobs ≡ some k
        → k.state ≡ running
        → j.state ≡ running
    running_job a b r = ground (arith, a, b, r)

cancel_live-Sound :
    (id : Text) (now : ℕ) (j : Job) (s : JobState) (e : Engine)
    → find id e.jobs ≡ some j
    → is_terminal j.state ≡ false
    → j.state ≡ s
    → IsOwned e
    → Sound e (cancel_live id now j s e).0
unfolding cancel_live
cancel_live-Sound id now j running e at live h own = cancelled_context-Sound id e own
cancel_live-Sound id now j _ e at live h own =
    marked-Sound id now j e at live (λ r. absurd (cc (sym h ∙ r))) own

pub cancel-Sound :
    (id : Text) (now : ℕ) (e : Engine) → IsOwned e → Sound e (cancel_begin id now e).0
unfolding cancel_begin
cancel-Sound id now e own = elim (Option-cases (find id e.jobs)) [
  | inl n ↦ rw (n, cancel_begin) (Sound-refl e own)
  | inr (j, at) ↦ elim (Bool-cases (is_terminal j.state)) [
    | inl t ↦ rw (at, cancel_begin) (rw t (Sound-refl e own))
    | inr t ↦ rw (at, cancel_begin) (rw t (cancel_live-Sound id now j j.state e at t refl own))
  ]
]

-- A call that leaves the jobs and the contexts as they are.
Sound-same : (e e' : Engine) → e'.jobs ≡ e.jobs → e'.cancels ≡ e.cancels → IsOwned e → Sound e e'
Sound-same e e' hj hc own = (
  λ q c f. let (j, at, r) = own q c (ap (find q) (sym hc) ∙ f) in (j, ap (find q) hj ∙ at, r),
  λ q j f t. (j, ap (find q) hj ∙ f, refl),
)

pub cancel_end-Sound :
    (sh : Text → Text → Bool) (info : InfoAnswer) (j : Job) (saved : Bool) (e : Engine)
    → IsOwned e
    → Sound e (cancel_end sh info j saved e)
unfolding cancel_end
cancel_end-Sound sh info j saved e own =
    let r = reclaim sh info j in
    let e' = ask_deletion r j e in
    Sound-same e (persist saved j.id e') (persist-jobs saved j.id e' ∙ ask_deletion-jobs r j e)
      (persist-cancels saved j.id e' ∙ ask_deletion-cancels r j e) own

-- A call that sets or removes a job that was not there.
Sound-new :
    (id : Text) (o : Option Job) (e e' : Engine)
    → find id e.jobs ≡ none
    → ((q : Text) → find q e'.jobs ≡ (if text_eq id q then o else find q e.jobs))
    → e'.cancels ≡ e.cancels
    → IsOwned e
    → Sound e e'
Sound-new id o e e' free jobs' hc own =
    let other : (q : Text) (j : Job) → find q e.jobs ≡ some j → find q e'.jobs ≡ some j = λ q j f.
      elim (Bool-cases (text_eq id q)) [
        | inl b ↦ absurd (cc (ap (λ x. find x e.jobs) ((text_eq_iff id q).0 b) ∙ f, free))
        | inr b ↦ jobs' q ∙ rw b f
      ] in
    (
      λ q c f. let (j, at, r) = own q c (ap (find q) (sym hc) ∙ f) in (j, other q j at, r),
      λ q j f t. (j, other q j f, refl),
    )

submit_valid-Sound :
    (j : Job) (saved removed : Bool) (e : Engine)
    → find j.id e.jobs ≡ none
    → IsOwned e
    → Sound e (submit_valid j saved removed e).0
unfolding submit_valid
submit_valid-Sound j false removed e free own = Sound-refl e own
submit_valid-Sound j true removed e free own =
    let m = put_job j (save true j e) in
    let jobs' : (q : Text) → find q m.jobs ≡ (if text_eq j.id q then some j else find q e.jobs) =
      λ q.
        find-insert j.id q j (save true j e).jobs
        ∙ ap (λ x. if text_eq j.id q then some j else find q x) (save-jobs true j e) in
    let gone : (q : Text)
        → find q (delete j.id m.jobs) ≡ (if text_eq j.id q then none else find q e.jobs) =
      λ q. ground (arith, find-delete j.id q m.jobs, jobs' q) in
    elim (Bool-cases (ltb (length e.queue) job_queue_capacity)) [
      | inl c ↦ rw c (
          Sound-new j.id (some j) e (record m { queue = e.queue ++ (j.id ∷ []) }) free jobs'
            (save-cancels true j e) own)
      | inr c ↦ rw c (
          Sound-new j.id none e
            (record m {
              jobs = delete j.id m.jobs;
              stored = if removed then delete j.id m.stored else m.stored;
            })
            free gone (save-cancels true j e) own)
    ]

pub Valid-cases : (v : Valid) → ((x : SpecError) × (v ≡ invalid x)) ⊎ ((s : Spec) × (v ≡ valid s))
Valid-cases (invalid x) = inl (x, refl)
Valid-cases (valid s) = inr (s, refl)

pub submit-Sound :
    (base : Text → Text) (write_back : Bool) (id : Text) (now : ℕ) (s : Spec) (saved removed : Bool)
    (e : Engine)
    → find id e.jobs ≡ none
    → IsOwned e
    → Sound e (submit base write_back id now s saved removed e).0
unfolding submit
submit-Sound base write_back id now s saved removed e free own =
    elim (Valid-cases (validate_spec base s)) [
      | inl (x, h) ↦ rw (h, submit) (Sound-refl e own)
      | inr (s', h) ↦
          rw (h, submit)
            (submit_valid-Sound (new_job write_back id now s') saved removed e free own)
    ]
