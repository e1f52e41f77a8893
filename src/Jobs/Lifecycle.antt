-- ===== src/Jobs/Lifecycle.antt =====
-- The life of a job over the calls of the engine (internal/jobs/engine.go), in any order.
use opendrive_bridge.Common.{
  ℕ, ◌≡◌, refl, sym, ap, ◌∙◌, Bool, true, Option, none, some, arith, inl, inr, Bool-cases,
  Option-cases,
}
use opendrive_bridge.Common.Text.{Text, text_eq, text_eq_iff, text_eq_refl}
use opendrive_bridge.Common.Dict.{find, delete, find-delete}
use opendrive_bridge.Jobs.Types.{JobState, running, is_terminal, Failure, Job, Engine}
use opendrive_bridge.Jobs.Engine.{
  persist, InfoAnswer, forget_record, reclaim_by_id, finished, finish, requeued, requeue,
  change_job,
}
use opendrive_bridge.Jobs.Running.{
  changed, persist-jobs, persist-cancels, change_job-jobs, change_job-cancels, reclaim_by_id-jobs,
  reclaim_by_id-cancels, finish-jobs, finish-cancels, requeue-jobs, requeue-cancels,
}

-- A job with a context is running.
abbrev pub IsOwned : Engine → Type 0
IsOwned e =
    (id : Text) (c : Bool)
    → find id e.cancels ≡ some c
    → (j : Job) × (find id e.jobs ≡ some j) × (j.state ≡ running)

-- A job that is over stays, in the state in which it ended.
abbrev pub KeepsEnded : Engine → Engine → Type 0
KeepsEnded e e' =
    (q : Text) (j : Job)
    → find q e.jobs ≡ some j
    → is_terminal j.state ≡ true
    → (j' : Job) × (find q e'.jobs ≡ some j') × (j'.state ≡ j.state)

-- One job is changed, if it is there.
abbrev pub Changes : Text → (Job → Job) → Engine → Engine → Type 0
Changes id g e e' = (q : Text) → find q e'.jobs ≡ changed id g q e.jobs

pub KeepsEnded-change :
    (id : Text) (g : Job → Job) (e e' : Engine)
    → Changes id g e e'
    → ((j : Job) → find id e.jobs ≡ some j → is_terminal j.state ≡ true → (g j).state ≡ j.state)
    → KeepsEnded e e'
KeepsEnded-change id g e e' ch k q j f t = elim (Option-cases (find id e.jobs)) [
  | inl n ↦ (j, ch q ∙ rw (n, changed) f, refl)
  | inr (i, s) ↦ elim (Bool-cases (text_eq id q)) [
    | inl b ↦
        let here : find id e.jobs ≡ some j = ap (λ x. find x e.jobs) ((text_eq_iff id q).0 b) ∙ f in
        (g j, ch q ∙ rw (here, changed) (rw b refl), k j here t)
    | inr b ↦ (j, ch q ∙ rw (s, changed) (rw b f), refl)
  ]
]

-- The contexts after a call are contexts before it.
abbrev pub NoNewContext : Engine → Engine → Type 0
NoNewContext e e' =
    (q : Text) (c : Bool) → find q e'.cancels ≡ some c → (c' : Bool) × (find q e.cancels ≡ some c')

pub IsOwned-change :
    (id : Text) (g : Job → Job) (e e' : Engine)
    → Changes id g e e'
    → NoNewContext e e'
    → ((j : Job) (c : Bool)
        → find id e'.cancels ≡ some c
        → j.state ≡ running
        → (g j).state ≡ running)
    → IsOwned e
    → IsOwned e'
IsOwned-change id g e e' ch old k own q c f =
    let (c', f') = old q c f in
    let (j, at, r) = own q c' f' in
    elim (Option-cases (find id e.jobs)) [
      | inl n ↦ (j, ch q ∙ rw (n, changed) at, r)
      | inr (i, s) ↦ elim (Bool-cases (text_eq id q)) [
        | inl b ↦
            let same = (text_eq_iff id q).0 b in
            let here : find id e.jobs ≡ some j = ap (λ x. find x e.jobs) same ∙ at in
            (
              g j,
              ch q ∙ rw (here, changed) (rw b refl),
              k j c (ap (λ x. find x e'.cancels) same ∙ f) r,
            )
        | inr b ↦ (j, ch q ∙ rw (s, changed) (rw b at), r)
      ]
    ]

pub same_contexts : (e e' : Engine) → e'.cancels ≡ e.cancels → NoNewContext e e'
same_contexts e e' h q c f = (c, ap (find q) (sym h) ∙ f)

fewer_contexts : (id : Text) (e e' : Engine) → e'.cancels ≡ delete id e.cancels → NoNewContext e e'
fewer_contexts id e e' h q c f = (c, ground (arith, ap (find q) h, f, find-delete id q e.cancels))

context_gone :
    (id : Text) (e e' : Engine) (c : Bool)
    → e'.cancels ≡ delete id e.cancels
    → find id e'.cancels ≡ some c
    → ⊥
context_gone id e e' c h f =
    ground (arith, ap (find id) h, f, find-delete id id e.cancels, text_eq_refl id)

Changes-compose :
    (id : Text) (g h : Job → Job) (e e' e'' : Engine)
    → Changes id g e e'
    → Changes id h e' e''
    → Changes id (λ j. h (g j)) e e''
Changes-compose id g h e e' e'' first second q = elim (Option-cases (find id e.jobs)) [
  | inl n ↦
      let gone : find id e'.jobs ≡ none = first id ∙ rw (n, changed) n in
      second q ∙ rw (gone, changed) (rw (n, changed) (first q ∙ rw (n, changed) refl))
  | inr (j, s) ↦
      let here : find id e'.jobs ≡ some (g j) =
        first id ∙ rw (s, changed) (rw (text_eq_refl id) refl) in
      second q ∙ elim (Bool-cases (text_eq id q)) [
        | inl b ↦ rw (here, changed) (rw (s, changed) (rw b refl))
        | inr b ↦
            rw (here, changed) (rw (s, changed) (rw b (first q ∙ rw (s, changed) (rw b refl))))
      ]
]

-- A call that changes one job and makes no context.
abbrev pub Calls : Text → (Job → Job) → Engine → Engine → Type 0
Calls id g e e' = Changes id g e e' × NoNewContext e e'

pub finish-Calls :
    (id : Text) (st : JobState) (f : Option Failure) (now : ℕ) (s : Bool) (e : Engine)
    → Calls id (finished st f now) e (finish id st f now s e)
finish-Calls id st f now s e = (
  λ q. finish-jobs id q st f now s e,
  same_contexts e (finish id st f now s e) (finish-cancels id st f now s e),
)

-- A record is given up, and the job is over.
abbrev pub given_up : JobState → Option Failure → ℕ → Job → Job
given_up st f now j = finished st f now (forget_record j)

pub give_up-Calls :
    (sh : Text → Text → Bool) (info : InfoAnswer) (id : Text) (st : JobState) (f : Option Failure)
    (now : ℕ) (s : Bool) (e : Engine)
    → Calls id (given_up st f now) e (finish id st f now s (reclaim_by_id sh info id e))
give_up-Calls sh info id st f now s e =
    let e' = reclaim_by_id sh info id e in
    let e'' = finish id st f now s e' in
    (
      Changes-compose id forget_record (finished st f now) e e' e''
          (λ q. reclaim_by_id-jobs sh info id q e) (λ q. finish-jobs id q st f now s e'),
      same_contexts e e'' (finish-cancels id st f now s e' ∙ reclaim_by_id-cancels sh info id e),
    )

pub requeue-Calls :
    (id : Text) (f : Failure) (now : ℕ) (s : Bool) (e : Engine)
    → Calls id (requeued f now) e (requeue id f now s e)
requeue-Calls id f now s e = (
  λ q. requeue-jobs id q f now s e,
  same_contexts e (requeue id f now s e) (requeue-cancels id f now s e),
)

-- The calls that leave a job's state, made while its transfer runs.
abbrev pub StateStays : (Job → Job) → Type 0
StateStays g = (j : Job) → (g j).state ≡ j.state

pub persisted_change-Calls :
    (g : Job → Job) (id : Text) (s : Bool) (e : Engine)
    → Calls id g e (persist s id (change_job g id e))
persisted_change-Calls g id s e =
    let e' = change_job g id e in
    (
      λ q. ap (find q) (persist-jobs s id e') ∙ change_job-jobs g id q e,
      same_contexts e (persist s id e') (persist-cancels s id e' ∙ change_job-cancels g id e),
    )

pub change_job-Calls : (g : Job → Job) (id : Text) (e : Engine) → Calls id g e (change_job g id e)
change_job-Calls g id e =
    (λ q. change_job-jobs g id q e, same_contexts e (change_job g id e) (change_job-cancels g id e))

-- An engine is owned after a call, and has kept the jobs that are over.
abbrev pub Sound : Engine → Engine → Type 0
Sound e e' = IsOwned e' × KeepsEnded e e'

-- A call that leaves the state of the job that it changes.
pub Sound-quiet :
    (id : Text) (g : Job → Job) (e e' : Engine)
    → StateStays g
    → Calls id g e e'
    → IsOwned e
    → Sound e e'
Sound-quiet id g e e' st (ch, old) own = (
  IsOwned-change id g e e' ch old (λ j c f r. st j ∙ r) own,
  KeepsEnded-change id g e e' ch (λ j f t. st j),
)

-- The end of a transfer: its context has gone, and its job was running.
pub Sound-end :
    (id : Text) (g : Job → Job) (c : Bool) (e0 e e' : Engine)
    → find id e0.cancels ≡ some c
    → e ≡ record e0 { cancels = delete id e0.cancels }
    → Calls id g e e'
    → IsOwned e0
    → Sound e0 e'
Sound-end id g c e0 e e' f gone (ch, old) own =
    let ch0 : Changes id g e0 e' = λ q. ch q ∙ ap (λ x. changed id g q x.jobs) gone in
    let none_left : (c' : Bool) → find id e'.cancels ≡ some c' → ⊥ = λ c' f'.
      let (c'', f'') = old id c' f' in context_gone id e0 e c'' (ap (λ x. x.cancels) gone) f'' in
    let old0 : NoNewContext e0 e' = λ q c' f'.
      let (c'', f'') = old q c' f' in fewer_contexts id e0 e (ap (λ x. x.cancels) gone) q c'' f'' in
    (
      IsOwned-change id g e0 e' ch0 old0 (λ j c' f' r. absurd (none_left c' f')) own,
      KeepsEnded-change id g e0 e' ch0
          (λ j at t. let (i, at', r) = own id c f in absurd (ground (arith, at, at', r, t))),
    )
