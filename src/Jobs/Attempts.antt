-- ===== src/Jobs/Attempts.antt =====
-- The attempts of a job (`run` of internal/jobs/engine.go).
use opendrive_bridge.Common.{
  ℕ, ◌+◌, ◌-◌, ◌≤◌, ◌<◌, ◌≡◌, ◌⊎◌, refl, ap, subst, ◌∙◌, Bool, true, false, not, ◌||◌, Option, none,
  some, List, [], ◌∷◌, arith, length, ltb, leb, if◌then◌else◌, inl, inr, Bool-cases, Option-cases,
  is_some,
}
use opendrive_bridge.Common.Text.{Text, text_eq_refl}
use opendrive_bridge.Common.Dict.{find, insert, delete, find-insert_self}
use opendrive_bridge.Sdk.Errors.{ApiError, is_temporary}
use opendrive_bridge.Jobs.Types.{JobState, running, is_terminal, Failure, Spec, Job, Engine}
use opendrive_bridge.Jobs.Engine.{
  save, persist, InfoAnswer, run_begin, max_attempts_of, Rest, over, again, is_cancelled, requeued,
  requeue, run_end, change_job, forget_record, record_created, progress, set_phase, upload_verified,
}
use opendrive_bridge.Jobs.Stopping.{mark, cancel_context, cancel_live, cancel_begin}
use opendrive_bridge.Jobs.Running.{changed, persist-jobs, requeue-jobs, change_job-jobs}
use opendrive_bridge.Jobs.Orders.{cancel_context-jobs}
use opendrive_bridge.Jobs.Rounds.{
  During, is_created, has_progress, turns_to, is_verified, is_cancelled_at, happen, happen_all,
  JobRound, run_loop,
}

-- The job has been attempted so often, if it is there, and the engine allows so many attempts.
abbrev Tried : Text → ℕ → ℕ → Engine → Type 0
Tried id n m e =
    ((find id e.jobs ≡ none) ⊎ ((j : Job) × (find id e.jobs ≡ some j) × (j.attempts ≡ n)))
    × (e.max_attempts ≡ m)

save-max : (s : Bool) (j : Job) (e : Engine) → (save s j e).max_attempts ≡ e.max_attempts
unfolding save
save-max s j e = ground arith

persist-max : (s : Bool) (id : Text) (e : Engine) → (persist s id e).max_attempts ≡ e.max_attempts
unfolding persist
persist-max s id e = ground (arith, save-max s)

change_job-max :
    (g : Job → Job) (id : Text) (e : Engine) → (change_job g id e).max_attempts ≡ e.max_attempts
change_job-max g id e = ground arith

requeue-max :
    (id : Text) (f : Failure) (now : ℕ) (s : Bool) (e : Engine)
    → (requeue id f now s e).max_attempts ≡ e.max_attempts
requeue-max id f now s e = elim (Option-cases (find id e.jobs)) [
  | inl n ↦ unfold requeue in rw (n, requeue) refl
  | inr (j, h) ↦
      unfold requeue in
      rw (h, requeue) (persist-max s id (record e { jobs = insert id (requeued f now j) e.jobs }))
]

Tried-change :
    (id : Text) (g : Job → Job) (n m : ℕ) (e e' : Engine)
    → find id e'.jobs ≡ changed id g id e.jobs
    → ((j : Job) → (g j).attempts ≡ j.attempts)
    → e'.max_attempts ≡ e.max_attempts
    → Tried id n m e
    → Tried id n m e'
Tried-change id g n m e e' ch k same (inl nil, b) = (inl (ch ∙ rw (nil, changed) nil), same ∙ b)
Tried-change id g n m e e' ch k same (inr (j, at, h), b) =
    (inr (g j, ch ∙ rw (at, changed) (rw (text_eq_refl id) refl), k j ∙ h), same ∙ b)

Tried-persisted :
    (id : Text) (g : Job → Job) (s : Bool) (n m : ℕ) (e : Engine)
    → ((j : Job) → (g j).attempts ≡ j.attempts)
    → Tried id n m e
    → Tried id n m (persist s id (change_job g id e))
Tried-persisted id g s n m e k =
    let e' = change_job g id e in
    Tried-change id g n m e (persist s id e')
      (ap (find id) (persist-jobs s id e') ∙ change_job-jobs g id id e) k
      (persist-max s id e' ∙ change_job-max g id e)

Tried-changed :
    (id : Text) (g : Job → Job) (n m : ℕ) (e : Engine)
    → ((j : Job) → (g j).attempts ≡ j.attempts)
    → Tried id n m e
    → Tried id n m (change_job g id e)
Tried-changed id g n m e k =
    Tried-change id g n m e (change_job g id e) (change_job-jobs g id id e) k
      (change_job-max g id e)

cancel_context-max : (id : Text) (e : Engine) → (cancel_context id e).max_attempts ≡ e.max_attempts
cancel_context-max id e = ground arith

Tried-cancel_context :
    (id : Text) (n m : ℕ) (e : Engine) → Tried id n m e → Tried id n m (cancel_context id e)
Tried-cancel_context id n m e (inl nil, b) =
    (inl (ap (find id) (cancel_context-jobs id e) ∙ nil), cancel_context-max id e ∙ b)
Tried-cancel_context id n m e (inr (j, at, h), b) =
    (inr (j, ap (find id) (cancel_context-jobs id e) ∙ at, h), cancel_context-max id e ∙ b)

Tried-live :
    (id : Text) (now n m : ℕ) (j : Job) (s : JobState) (e : Engine)
    → j.attempts ≡ n
    → Tried id n m e
    → Tried id n m (cancel_live id now j s e).0
unfolding cancel_live
Tried-live id now n m j running e h t = Tried-cancel_context id n m e t
Tried-live id now n m j _ e h t = (
  inr (mark now j, find-insert_self id (mark now j) (cancel_context id e).jobs, h),
  cancel_context-max id e ∙ t.1,
)

Tried-cancel :
    (id : Text) (now n m : ℕ) (e : Engine) → Tried id n m e → Tried id n m (cancel_begin id now e).0
unfolding cancel_begin
Tried-cancel id now n m e (inl nil, b) = rw (nil, cancel_begin) (inl nil, b)
Tried-cancel id now n m e (inr (j, at, h), b) = elim (Bool-cases (is_terminal j.state)) [
  | inl t ↦ rw (at, cancel_begin) (rw t (inr (j, at, h), b))
  | inr t ↦ rw (at, cancel_begin) (rw t (Tried-live id now n m j j.state e h (inr (j, at, h), b)))
]

Tried-happen :
    (id : Text) (x : During) (n m : ℕ) (e : Engine) → Tried id n m e → Tried id n m (happen id x e)
unfolding happen record_created progress set_phase upload_verified
Tried-happen id (is_created file_id temp now saved) n m e =
    Tried-persisted id
      (λ j. record j {
        upstream_file_id = file_id;
        upstream_temp_location = temp;
        updated_at = now;
      })
      saved n m e (λ j. refl)
Tried-happen id (has_progress k total now) n m e =
    Tried-changed id
      (λ j. record j {
        bytes_done = k;
        bytes_total = if ltb 0 total then total else j.bytes_total;
        updated_at = now;
      })
      n m e (λ j. refl)
Tried-happen id (turns_to p now saved) n m e =
    Tried-persisted id (λ j. record j { phase = p; updated_at = now }) saved n m e (λ j. refl)
Tried-happen id is_verified n m e = Tried-changed id forget_record n m e (λ j. refl)
Tried-happen id (is_cancelled_at now) n m e = Tried-cancel id now n m e

Tried-happen_all :
    (id : Text) (xs : List During) (n m : ℕ) (e : Engine)
    → Tried id n m e
    → Tried id n m (happen_all id xs e)
unfolding happen_all
Tried-happen_all id [] n m e t = t
Tried-happen_all id (x ∷ xs) n m e t =
    Tried-happen_all id xs n m (happen id x e) (Tried-happen id x n m e t)

max_attempts_of_le : (a : Option ApiError) (m : ℕ) → max_attempts_of a m ≤ m
unfolding max_attempts_of
max_attempts_of_le none m = omega arith
max_attempts_of_le (some x) m = ground arith

-- A round that is to be repeated was not the last one allowed, and leaves the count as it was.
run_end-again :
    (sh : Text → Text → Bool) (info : InfoAnswer) (id : Text) (attempt : ℕ)
    (outcome : Option Failure) (now : ℕ) (saved : Bool) (n m : ℕ) (e : Engine)
    → (run_end sh info id attempt outcome now saved e).1 ≡ again
    → Tried id n m e
    → (attempt < m) × Tried id n m (run_end sh info id attempt outcome now saved e).0
unfolding run_end
run_end-again sh info id attempt none now saved n m e h t = absurd (cc h)
run_end-again sh info id attempt (some x) now saved n m e0 h t =
    let e = record e0 { cancels = delete id e0.cancels } in
    elim (Bool-cases (is_cancelled id e || x.is_canceled)) [
      | inl b ↦ absurd (cc (rw b at h))
      | inr b ↦
          elim (Bool-cases
            (not (is_temporary x.api) || leb (max_attempts_of x.api e0.max_attempts) attempt)) [
              | inl d ↦ absurd (cc (rw (b, d) at h))
              | inr d ↦ (
                ground (arith, d, max_attempts_of_le x.api e0.max_attempts, t.1),
                rw b (
                    rw d (
                      Tried-change id (requeued x now) n m e (requeue id x now saved e)
                        (requeue-jobs id id x now saved e) (λ j. refl)
                        (requeue-max id x now saved e) t)),
              )
            ]
    ]

-- What the start of a round gives: no round, or the next attempt.
abbrev Starts : Text → ℕ → ℕ → Engine → Option (ℕ × Spec) → Type 0
Starts id n m e none = Unit
Starts id n m e (some (attempt, spec)) = (attempt ≡ n + 1) × Tried id (n + 1) m e

run_begin-Starts :
    (id : Text) (now n m : ℕ) (saved : Bool) (e : Engine)
    → Tried id n m e
    → (let (e', start) = run_begin id now saved e in Starts id n m e' start)
unfolding run_begin
run_begin-Starts id now n m saved e (inl nil, b) = rw (nil, run_begin) tt
run_begin-Starts id now n m saved e (inr (j, at, h), b) = elim (Bool-cases (is_terminal j.state)) [
  | inl t ↦ rw (at, run_begin) (rw t tt)
  | inr t ↦
      let j' = record j {
        state = running;
        attempts = j.attempts + 1;
        error = none;
        updated_at = now;
      } in
      let e' = record e { jobs = insert id j' e.jobs; cancels = insert id false e.cancels } in
      rw (at, run_begin)
        (rw t (
          omega (arith, h),
          (
            inr (
              j',
              ap (find id) (persist-jobs saved id e') ∙ find-insert_self id j' e.jobs,
              omega (arith, h),
            ),
            persist-max saved id e' ∙ b,
          ),
        ))
]

Rest-cases : (r : Rest) → (r ≡ over) ⊎ (r ≡ again)
Rest-cases over = inl refl
Rest-cases again = inr refl

run_loop-some :
    (sh : Text → Text → Bool) (id : Text) (xs : List JobRound) (n m : ℕ) (e : Engine)
    → Tried id n m e
    → (m - n) + 1 ≤ length xs
    → is_some (run_loop sh id xs e) ≡ true
unfolding run_loop
run_loop-some sh id [] n m e t h = absurd (omega (arith, h))
run_loop-some sh id (x ∷ xs) n m e t h =
    let start = run_begin id x.now x.saved e in
    let next = run_begin-Starts id x.now n m x.saved e t in
    elim (Option-cases start.1) [
      | inl o ↦ rw (o, run_loop) refl
      | inr ((attempt, spec), o) ↦
          let (count, t1) = subst (Starts id n m start.0) o next in
          let e2 = happen_all id x.transferring start.0 in
          let t2 = Tried-happen_all id x.transferring (n + 1) m start.0 t1 in
          let end = run_end sh x.info id attempt x.outcome x.later x.saved e2 in
          elim (Rest-cases end.1) [
            | inl r ↦ rw (o, run_loop) (rw r refl)
            | inr r ↦
                let (less, t3) =
                  run_end-again sh x.info id attempt x.outcome x.later x.saved (n + 1) m e2 r t2 in
                let t4 = Tried-happen_all id x.sleeping (n + 1) m end.0 t3 in
                let rest =
                  run_loop-some sh id xs (n + 1) m (happen_all id x.sleeping end.0) t4
                    (omega (arith, count, less, h)) in
                rw (o, run_loop)
                  (rw r (elim (Bool-cases x.cut_short) [ inl c ↦ rw c refl | inr c ↦ rw c rest ]))
          ]
    ]

-- The work on a job ends: however its transfers end, and whatever happens to it meanwhile, it is over
-- after as many rounds as the engine allows attempts, and one more.
pub run_ends :
    (sh : Text → Text → Bool) (id : Text) (xs : List JobRound) (e : Engine)
    → e.max_attempts + 1 ≤ length xs
    → is_some (run_loop sh id xs e) ≡ true
run_ends sh id xs e h = elim (Option-cases (find id e.jobs)) [
  | inl nil ↦ run_loop-some sh id xs 0 e.max_attempts e (inl nil, refl) (omega (arith, h))
  | inr (j, at) ↦
      run_loop-some sh id xs j.attempts e.max_attempts e (inr (j, at, refl), refl)
        (omega (arith, h))
]
