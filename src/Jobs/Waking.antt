-- ===== src/Jobs/Waking.antt =====
-- What starting, submitting and cancelling do to the jobs whose worker sleeps
-- (internal/jobs/engine.go).
use opendrive_bridge.Common.{
  ℕ, ◌+◌, ◌≡◌, refl, ap, ◌∙◌, Bool, true, false, none, arith, length, ltb, inl, inr, Bool-cases,
  Option-cases,
}
use opendrive_bridge.Common.Text.{Text, text_eq, text_eq_refl}
use opendrive_bridge.Common.Dict.{find, insert, find-insert, find-delete}
use opendrive_bridge.Jobs.Types.{JobState, running, cancelled, is_terminal, Spec, Job, Engine}
use opendrive_bridge.Jobs.Engine.{
  save, put_job, persist, InfoAnswer, run_begin, sleep_cut, reclaim, ask_deletion,
}
use opendrive_bridge.Jobs.Submitting.{
  job_queue_capacity, validate_spec, new_job, submit_valid, submit,
}
use opendrive_bridge.Jobs.Stopping.{mark, cancel_context, cancel_live, cancel_begin, cancel_end}
use opendrive_bridge.Jobs.Running.{persist-jobs, save-jobs, ask_deletion-jobs}
use opendrive_bridge.Jobs.Lifecycle.{give_up-Calls, given_up}
use opendrive_bridge.Jobs.Orders.{cancel_context-jobs, Valid-cases}
use opendrive_bridge.Jobs.Sleeping.{Rests, without, Others, Changes-Others, Rests-Others}

without_self : (id : Text) (z : Text → Bool) → without id z id ≡ false
without_self id z = rw (text_eq_refl id) refl

without_less : (id : Text) (z : Text → Bool) (q : Text) → without id z q ≡ true → z q ≡ true
without_less id z q h = ground (arith, h)

begin-Others :
    (id : Text) (now : ℕ) (saved : Bool) (e : Engine) → Others id e (run_begin id now saved e).0
unfolding run_begin
begin-Others id now saved e q b = elim (Option-cases (find id e.jobs)) [
  | inl n ↦ rw (n, run_begin) refl
  | inr (j, at) ↦ elim (Bool-cases (is_terminal j.state)) [
    | inl t ↦ rw (at, run_begin) (rw t refl)
    | inr t ↦
        let j' : Job = record j {
          state = running;
          attempts = j.attempts + 1;
          error = none;
          updated_at = now;
        } in
        rw (at, run_begin)
          (rw t (
            ap (find q) (
              persist-jobs saved id
                (record e { jobs = insert id j' e.jobs; cancels = insert id false e.cancels }))
            ∙ (find-insert id q j' e.jobs ∙ rw b refl)))
  ]
]

pub begin-Rests :
    (id : Text) (now : ℕ) (saved : Bool) (z : Text → Bool) (e : Engine)
    → z id ≡ false
    → Rests z e
    → Rests z (run_begin id now saved e).0
begin-Rests id now saved z e awake rest =
    Rests-Others id z z e (run_begin id now saved e).0 (begin-Others id now saved e) (λ q h. h)
      awake rest

pub wake-Rests :
    (id : Text) (now : ℕ) (saved : Bool) (z : Text → Bool) (e : Engine)
    → Rests z e
    → Rests (without id z) (run_begin id now saved e).0
wake-Rests id now saved z e rest =
    Rests-Others id z (without id z) e (run_begin id now saved e).0 (begin-Others id now saved e)
      (without_less id z) (without_self id z) rest

pub cut-Rests :
    (sh : Text → Text → Bool) (info : InfoAnswer) (id : Text) (now : ℕ) (saved : Bool)
    (z : Text → Bool) (e : Engine)
    → Rests z e
    → Rests (without id z) (sleep_cut sh info id now saved e)
unfolding sleep_cut
cut-Rests sh info id now saved z e rest =
    let e' = sleep_cut sh info id now saved e in
    Rests-Others id z (without id z) e e'
      (Changes-Others id (given_up cancelled none now) e e'
        (give_up-Calls sh info id cancelled none now saved e).0)
      (without_less id z) (without_self id z) rest

submit_valid-Others :
    (j : Job) (saved removed : Bool) (e : Engine) → Others j.id e (submit_valid j saved removed e).0
unfolding submit_valid
submit_valid-Others j false removed e q b = refl
submit_valid-Others j true removed e q b =
    let m = put_job j (save true j e) in
    let jobs' : find q m.jobs ≡ find q e.jobs =
      find-insert j.id q j (save true j e).jobs ∙ (rw b refl ∙ ap (find q) (save-jobs true j e)) in
    elim (Bool-cases (ltb (length e.queue) job_queue_capacity)) [
      | inl c ↦ rw c jobs'
      | inr c ↦ rw c (find-delete j.id q m.jobs ∙ (rw b refl ∙ jobs'))
    ]

pub submit-Rests :
    (base : Text → Text) (write_back : Bool) (id : Text) (now : ℕ) (s : Spec) (saved removed : Bool)
    (z : Text → Bool) (e : Engine)
    → find id e.jobs ≡ none
    → Rests z e
    → Rests z (submit base write_back id now s saved removed e).0
unfolding submit
submit-Rests base write_back id now s saved removed z e free rest =
    let awake : z id ≡ false = elim (Bool-cases (z id)) [
      | inr b ↦ b
      | inl b ↦ let (j, at, r) = rest id b in absurd (cc (at, free))
    ] in
    elim (Valid-cases (validate_spec base s)) [
      | inl (x, h) ↦ rw (h, submit) rest
      | inr (s', h) ↦
          rw (h, submit)
            (Rests-Others id z z e (submit_valid (new_job write_back id now s') saved removed e).0
              (submit_valid-Others (new_job write_back id now s') saved removed e) (λ q k. k) awake
              rest)
    ]

Rests-jobs : (z : Text → Bool) (e e' : Engine) → e'.jobs ≡ e.jobs → Rests z e → Rests z e'
Rests-jobs z e e' same rest q h = let (j, at, r) = rest q h in (j, ap (find q) same ∙ at, r)

marked-Rests :
    (id : Text) (now : ℕ) (j : Job) (z : Text → Bool) (e : Engine)
    → Rests z e
    → (let e' = cancel_context id e in
        Rests z (record e' { jobs = insert id (mark now j) e'.jobs }))
marked-Rests id now j z e rest q h =
    let e' = cancel_context id e in
    elim (Bool-cases (text_eq id q)) [
      | inl b ↦ (mark now j, find-insert id q (mark now j) e'.jobs ∙ rw b refl, refl)
      | inr b ↦
          let (i, at, r) = rest q h in
          (
            i,
            find-insert id q (mark now j) e'.jobs
                ∙ (rw b refl ∙ (ap (find q) (cancel_context-jobs id e) ∙ at)),
            r,
          )
    ]

cancel_live-Rests :
    (id : Text) (now : ℕ) (j : Job) (s : JobState) (z : Text → Bool) (e : Engine)
    → Rests z e
    → Rests z (cancel_live id now j s e).0
unfolding cancel_live
cancel_live-Rests id now j running z e rest =
    Rests-jobs z e (cancel_context id e) (cancel_context-jobs id e) rest
cancel_live-Rests id now j _ z e rest = marked-Rests id now j z e rest

pub cancel-Rests :
    (id : Text) (now : ℕ) (z : Text → Bool) (e : Engine)
    → Rests z e
    → Rests z (cancel_begin id now e).0
unfolding cancel_begin
cancel-Rests id now z e rest = elim (Option-cases (find id e.jobs)) [
  | inl n ↦ rw (n, cancel_begin) rest
  | inr (j, at) ↦ elim (Bool-cases (is_terminal j.state)) [
    | inl t ↦ rw (at, cancel_begin) (rw t rest)
    | inr t ↦ rw (at, cancel_begin) (rw t (cancel_live-Rests id now j j.state z e rest))
  ]
]

pub cancel_end-Rests :
    (sh : Text → Text → Bool) (info : InfoAnswer) (j : Job) (saved : Bool) (z : Text → Bool)
    (e : Engine)
    → Rests z e
    → Rests z (cancel_end sh info j saved e)
unfolding cancel_end
cancel_end-Rests sh info j saved z e rest =
    let r = reclaim sh info j in
    let e' = ask_deletion r j e in
    Rests-jobs z e (persist saved j.id e') (persist-jobs saved j.id e' ∙ ask_deletion-jobs r j e)
      rest
