-- ===== src/Jobs/Recovering.antt =====
-- Restarting the engine (`Recover` of internal/jobs/engine.go).
use mathlib.Core.List.{append-nil}
use opendrive_bridge.Common.{
  ℕ, ◌≡◌, ◌⊎◌, refl, sym, ap, ◌∙◌, Bool, true, false, ◌||◌, some, List, [], ◌∷◌, ◌++◌, arith, any,
  length, ltb, if◌then◌else◌, inl, inr, Bool-cases,
}
use opendrive_bridge.Common.Text.{Text, text_eq, text_eq_iff, text_eq_refl}
use opendrive_bridge.Common.Dict.{find, find-insert, listed}
use opendrive_bridge.Jobs.Types.{queued, is_terminal, Job, Engine}
use opendrive_bridge.Jobs.Engine.{
  put_job, save, InfoAnswer, Reclaim, left_alone, whole_file, asked, reclaim, ask_deletion,
}
use opendrive_bridge.Jobs.Submitting.{job_queue_capacity}
use opendrive_bridge.Jobs.Stopping.{is_upload, interrupted_job, recovered, recover}
use opendrive_bridge.Jobs.Running.{save-jobs, ask_deletion-jobs}

-- A job is over, or waits in the queue.
abbrev pub Placed : Text → Engine → Type 0
Placed id e =
    (j : Job) × (find id e.jobs ≡ some j)
    × ((is_terminal j.state ≡ true) ⊎ ((j.state ≡ queued) × (listed id e.queue ≡ true)))

listed-append : (q : Text) (ps qs : List Text) → listed q (ps ++ qs) ≡ (listed q ps || listed q qs)
listed-append q [] qs = refl
listed-append q (p ∷ ps) qs = ground (arith, listed-append q ps qs)

-- A job is put beside another, and the queue grows.
Placed-put :
    (id : Text) (j : Job) (more : List Text) (e e' : Engine)
    → ((q : Text) → find q e'.jobs ≡ (if text_eq j.id q then some j else find q e.jobs))
    → e'.queue ≡ e.queue ++ more
    → ((is_terminal j.state ≡ true) ⊎ ((j.state ≡ queued) × (listed j.id more ≡ true)))
    → (text_eq j.id id ≡ true) ⊎ Placed id e
    → Placed id e'
Placed-put id j more e e' jobs' queue' own place = elim (Bool-cases (text_eq j.id id)) [
  | inl b ↦ (
    j,
    jobs' id ∙ rw b refl,
    elim own [
      | inl t ↦ inl t
      | inr (s, l) ↦ inr (
        s,
        ap (λ q. listed id q) queue'
            ∙ (listed-append id e.queue more
                ∙ ground (arith, ap (λ x. listed x more) (sym ((text_eq_iff j.id id).0 b)), l)),
      )
    ],
  )
  | inr b ↦ elim place [
    | inl t ↦ absurd (cc (t, b))
    | inr (i, at, p) ↦ (
      i,
      jobs' id ∙ rw b at,
      elim p [
        | inl t ↦ inl t
        | inr (s, l) ↦
            inr (
              s,
              ap (λ q. listed id q) queue' ∙ (listed-append id e.queue more ∙ ground (arith, l)),
            )
      ],
    )
  ]
]

pub interrupted_job-state : (now : ℕ) (j : Job) → (interrupted_job now j).state ≡ queued
interrupted_job-state now j = ground arith

pub interrupted_job-id : (now : ℕ) (j : Job) → (interrupted_job now j).id ≡ j.id
interrupted_job-id now j = ground arith

Reclaim-cases : (r : Reclaim) → (r ≡ left_alone) ⊎ ((r ≡ whole_file) ⊎ (r ≡ asked))
Reclaim-cases left_alone = inl refl
Reclaim-cases whole_file = inr (inl refl)
Reclaim-cases asked = inr (inr refl)

-- A job that `Recover` writes keeps its id, and is queued or has succeeded.
abbrev pub Revived : Job → Job → Type 0
Revived j j' = (j'.id ≡ j.id) × ((is_terminal j'.state ≡ true) ⊎ (j'.state ≡ queued))

pub recovered-Revived :
    (sh : Text → Text → Bool) (info : InfoAnswer) (now : ℕ) (j : Job)
    → Revived j (recovered sh info now j).0
unfolding recovered
recovered-Revived sh info now j =
    elim (Reclaim-cases (if is_upload j.kind then reclaim sh info j else left_alone)) [
      | inl r ↦ rw (r, recovered) (interrupted_job-id now j, inr (interrupted_job-state now j))
      | inr (inl r) ↦ rw (r, recovered) (refl, inl refl)
      | inr (inr r) ↦
          rw (r, recovered) (interrupted_job-id now j, inr (interrupted_job-state now j))
    ]

save-queue : (s : Bool) (j : Job) (e : Engine) → (save s j e).queue ≡ e.queue
unfolding save
save-queue s j e = ground arith

ask_deletion-queue : (r : Reclaim) (j : Job) (e : Engine) → (ask_deletion r j e).queue ≡ e.queue
ask_deletion-queue left_alone j e = refl
ask_deletion-queue whole_file j e = refl
ask_deletion-queue asked j e = refl

-- The engine with a job that `Recover` wrote.
abbrev pub revive : Bool → Reclaim → Job → Job → Engine → Engine
revive saved r j j' e = save saved j' (put_job j' (ask_deletion r j e))

pub revive-jobs :
    (saved : Bool) (r : Reclaim) (j j' : Job) (e : Engine) (q : Text)
    → find q (revive saved r j j' e).jobs ≡ (if text_eq j'.id q then some j' else find q e.jobs)
revive-jobs saved r j j' e q =
    ap (find q) (save-jobs saved j' (put_job j' (ask_deletion r j e)))
    ∙ (find-insert j'.id q j' (ask_deletion r j e).jobs
        ∙ ap (λ m. if text_eq j'.id q then some j' else find q m) (ask_deletion-jobs r j e))

pub revive-queue :
    (saved : Bool) (r : Reclaim) (j j' : Job) (e : Engine) → (revive saved r j j' e).queue ≡ e.queue
revive-queue saved r j j' e =
    save-queue saved j' (put_job j' (ask_deletion r j e)) ∙ ask_deletion-queue r j e

renamed :
    (j j' : Job) (id : Text) (e : Engine)
    → j'.id ≡ j.id
    → (text_eq j.id id ≡ true) ⊎ Placed id e
    → (text_eq j'.id id ≡ true) ⊎ Placed id e
renamed j j' id e same (inl b) = inl (ap (λ x. text_eq x id) same ∙ b)
renamed j j' id e same (inr at) = inr at

queued_now :
    (j j' : Job)
    → Revived j j'
    → is_terminal j'.state ≡ false
    → (is_terminal j'.state ≡ true) ⊎ ((j'.state ≡ queued) × (listed j'.id (j.id ∷ []) ≡ true))
queued_now j j' (same, inl t) u = absurd (cc (t, u))
queued_now j j' (same, inr q) u =
    inr (q, ap (λ x. listed x (j.id ∷ [])) same ∙ ground (arith, text_eq_refl j.id))

recover-Placed :
    (sh : Text → Text → Bool) (answer : Text → InfoAnswer) (saved : Bool) (now : ℕ) (js : List Job)
    (e : Engine)
    → (recover sh answer saved now js e).1 ≡ true
    → (id : Text) → (any (λ (j : Job). text_eq j.id id) js ≡ true) ⊎ Placed id e
    → Placed id (recover sh answer saved now js e).0
unfolding recover
recover-Placed sh answer saved now [] e h id (inl f) = absurd (cc f)
recover-Placed sh answer saved now [] e h id (inr p) = p
recover-Placed sh answer saved now (j ∷ js) e h id p =
    let info = answer j.upstream_file_id in
    let (j', r) = recovered sh info now j in
    let e' = revive saved r j j' e in
    let rev = recovered-Revived sh info now j in
    let here : (x : Engine)
        → ((text_eq j.id id ≡ true) ⊎ Placed id e → Placed id x)
        → (any (λ (k : Job). text_eq k.id id) js ≡ true) ⊎ Placed id x =
      λ x f. elim p [
        | inr at ↦ inr (f (inr at))
        | inl m ↦ elim (Bool-cases (text_eq j.id id)) [
          | inl b ↦ inr (f (inl b))
          | inr b ↦ inl (ground (arith, m, b))
        ]
      ] in
    elim (Bool-cases (is_terminal j.state)) [
      | inl t ↦
          let kept = put_job j e in
          rw t (
            recover-Placed sh answer saved now js kept (rw t at h) id (
              here kept (λ g.
                Placed-put id j [] e kept (λ q. find-insert j.id q j e.jobs)
                  (sym (append-nil e.queue)) (inl t) g)))
      | inr t ↦ elim (Bool-cases (is_terminal j'.state)) [
        | inl u ↦ rw t (
            rw u (
              recover-Placed sh answer saved now js e' (rw (t, u) at h) id (
                here e' (λ g.
                  Placed-put id j' [] e e' (revive-jobs saved r j j' e)
                    (revive-queue saved r j j' e ∙ sym (append-nil e.queue)) (inl u)
                    (renamed j j' id e (rev.0) g)))))
        | inr u ↦ elim (Bool-cases (ltb (length e'.queue) job_queue_capacity)) [
          | inr c ↦ absurd (cc (rw (t, u, c) at h))
          | inl c ↦
              let e'' : Engine = record e' { queue = e'.queue ++ (j.id ∷ []) } in
              rw t (
                rw u (
                  rw c (
                    recover-Placed sh answer saved now js e'' (rw (t, u, c) at h) id (
                      here e'' (λ g.
                        Placed-put id j' (j.id ∷ []) e e'' (revive-jobs saved r j j' e)
                          (ap (λ x. x ++ (j.id ∷ [])) (revive-queue saved r j j' e))
                          (queued_now j j' rev u) (renamed j j' id e (rev.0) g))))))
        ]
      ]
    ]

-- After a restart that came to its end, every job that was loaded is over or waits in the queue: none
-- is lost, and none counts as running.
pub recover_places_all :
    (sh : Text → Text → Bool) (answer : Text → InfoAnswer) (saved : Bool) (now : ℕ) (js : List Job)
    (e : Engine)
    → (recover sh answer saved now js e).1 ≡ true
    → (id : Text) → any (λ (j : Job). text_eq j.id id) js ≡ true
    → Placed id (recover sh answer saved now js e).0
recover_places_all sh answer saved now js e h id m =
    recover-Placed sh answer saved now js e h id (inl m)
