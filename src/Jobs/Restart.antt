-- ===== src/Jobs/Restart.antt =====
-- What a restart makes of the stored jobs, where the queue has room (`Recover` of
-- internal/jobs/engine.go).
use opendrive_bridge.Common.{
  ℕ, ◌+◌, ◌≡◌, ◌≤◌, ◌<◌, refl, sym, ap, ◌∙◌, Bool, true, false, none, some, List, [], ◌∷◌, ◌++◌,
  inl, inr, Bool-cases, some_inj, arith, length, ltb, if◌then◌else◌,
}
use opendrive_bridge.Common.Text.{Text, text_eq, text_eq_iff, is_empty}
use opendrive_bridge.Common.Dict.{Dict, find, find-insert, values, listed, IsDistinct}
use opendrive_bridge.Jobs.Types.{is_terminal, Job, Engine}
use opendrive_bridge.Jobs.Engine.{put_job, InfoAnswer, Reclaim, left_alone, reclaim}
use opendrive_bridge.Jobs.Submitting.{job_queue_capacity}
use opendrive_bridge.Jobs.Stopping.{is_upload, interrupted_job, recovered, recover}
use opendrive_bridge.Jobs.Recovering.{
  interrupted_job-state, recovered-Revived, interrupted_job-id, revive, revive-jobs, revive-queue,
}

-- Each job of a store stands under its own id.
abbrev pub IsKeyed : Dict Job → Type 0
IsKeyed [] = Unit
IsKeyed ((id, j) ∷ m) = (j.id ≡ id) × IsKeyed m

bare_recovered :
    (sh : Text → Text → Bool) (info : InfoAnswer) (now : ℕ) (s : Job)
    → s.upstream_file_id ≡ []
    → recovered sh info now s ≡ (interrupted_job now s, left_alone)
bare_recovered sh info now s bare =
    let idle : (if is_upload s.kind then reclaim sh info s else left_alone) ≡ left_alone =
      unfold reclaim in ground (arith, ap is_empty bare) in
    unfold recovered in rw (idle, recovered) refl

-- What one job of the store does to the engine at a restart, where the queue has room.
record Advance (j : Job) (e e1 : Engine) : Type 0 where
  grown : length e1.queue ≤ length e.queue + 1
  others : (q : Text) → text_eq j.id q ≡ false → find q e1.jobs ≡ find q e.jobs
  kept : (q : Text) → listed q e.queue ≡ true → listed q e1.queue ≡ true

listed-more : (q : Text) (ps qs : List Text) → listed q ps ≡ true → listed q (ps ++ qs) ≡ true
listed-more q [] qs h = absurd (cc h)
listed-more q (p ∷ ps) qs h = elim (Bool-cases (text_eq p q)) [
  | inl b ↦ ground (arith, b)
  | inr b ↦ ground (arith, b, h, listed-more q ps qs)
]

listed-last : (q p : Text) (ps : List Text) → text_eq p q ≡ true → listed q (ps ++ (p ∷ [])) ≡ true
listed-last q p [] h = ground (arith, h)
listed-last q p (x ∷ ps) h = ground (arith, listed-last q p ps h)

length-more : (ps : List Text) (p : Text) → length (ps ++ (p ∷ [])) ≡ length ps + 1
length-more [] p = refl
length-more (x ∷ ps) p = omega (arith, length-more ps p)

revived-others :
    (saved : Bool) (r : Reclaim) (j j' : Job) (e : Engine)
    → j'.id ≡ j.id
    → (q : Text) → text_eq j.id q ≡ false
    → find q (revive saved r j j' e).jobs ≡ find q e.jobs
revived-others saved r j j' e same q n =
    revive-jobs saved r j j' e q ∙ rw (ap (λ x. text_eq x q) same ∙ n) refl

recover-Advance :
    (sh : Text → Text → Bool) (answer : Text → InfoAnswer) (saved : Bool) (now : ℕ) (j : Job)
    (js : List Job) (e : Engine)
    → length e.queue < job_queue_capacity
    → (e1 : Engine) × (recover sh answer saved now (j ∷ js) e ≡ recover sh answer saved now js e1)
      × Advance j e e1
unfolding recover
recover-Advance sh answer saved now j js e room =
    let info = answer j.upstream_file_id in
    let (j', r) = recovered sh info now j in
    let e' = revive saved r j j' e in
    let same = (recovered-Revived sh info now j).0 in
    let queue' = revive-queue saved r j j' e in
    elim (Bool-cases (is_terminal j.state)) [
      | inl t ↦ rw t (
        put_job j e,
        refl,
        record {
          grown = omega arith;
          others = λ q n. find-insert j.id q j e.jobs ∙ rw n refl;
          kept = λ q h. h;
        },
      )
      | inr t ↦ elim (Bool-cases (is_terminal j'.state)) [
        | inl u ↦ rw t (
            rw u (
              e',
              refl,
              record {
                grown = rw queue' (omega arith);
                others = revived-others saved r j j' e same;
                kept = λ q h. ap (listed q) queue' ∙ h;
              },
            ))
        | inr u ↦
            let free : ltb (length e'.queue) job_queue_capacity ≡ true =
              rw queue' (ground (arith, room)) in
            rw t (
              rw u (
                rw free (
                  record e' { queue = e'.queue ++ (j.id ∷ []) },
                  refl,
                  record {
                    grown = rw (length-more e'.queue j.id) (rw queue' (omega arith));
                    others = revived-others saved r j j' e same;
                    kept = λ q h. listed-more q e'.queue (j.id ∷ []) (ap (listed q) queue' ∙ h);
                  },
                )))
      ]
    ]

-- The jobs of other ids leave a job that was placed.
recover-keeps :
    (sh : Text → Text → Bool) (answer : Text → InfoAnswer) (saved : Bool) (now : ℕ) (id : Text)
    (m : Dict Job) (e : Engine)
    → IsKeyed m
    → find id m ≡ none
    → length e.queue + length (values m) ≤ job_queue_capacity
    → listed id e.queue ≡ true
    → (let e' = (recover sh answer saved now (values m) e).0 in
        (find id e'.jobs ≡ find id e.jobs) × (listed id e'.queue ≡ true))
unfolding find
recover-keeps sh answer saved now id [] e k n room h = unfold recover in (refl, h)
recover-keeps sh answer saved now id ((i, j) ∷ m) e k n room h =
    let (e1, same, adv) =
      recover-Advance sh answer saved now j (values m) e (omega (arith, room)) in
    let apart : text_eq i id ≡ false = ground (arith, n) in
    let (jobs', queue') =
      recover-keeps sh answer saved now id m e1 k.1 (ground (arith, n, apart))
        (omega (arith, room, adv.grown)) (adv.kept id h) in
    (
      ap (λ x. find id x.0.jobs) same
          ∙ (jobs' ∙ adv.others id (ap (λ x. text_eq x id) k.0 ∙ apart)),
      ap (λ x. listed id x.0.queue) same ∙ queue',
    )

-- An unfinished job of the store that has left no record.
recover_bare :
    (sh : Text → Text → Bool) (answer : Text → InfoAnswer) (saved : Bool) (now : ℕ) (s : Job)
    (js : List Job) (e : Engine)
    → is_terminal s.state ≡ false
    → s.upstream_file_id ≡ []
    → length e.queue < job_queue_capacity
    → (let e' = revive saved left_alone s (interrupted_job now s) e in
        recover sh answer saved now (s ∷ js) e
        ≡ recover sh answer saved now js (record e' { queue = e'.queue ++ (s.id ∷ []) }))
unfolding recover
recover_bare sh answer saved now s js e live bare space =
    let e' = revive saved left_alone s (interrupted_job now s) e in
    let room : ltb (length e'.queue) job_queue_capacity ≡ true =
      rw (revive-queue saved left_alone s (interrupted_job now s) e) (ground (arith, space)) in
    let idle : is_terminal (interrupted_job now s).state ≡ false =
      ap is_terminal (interrupted_job-state now s) in
    let next : Engine → Engine × Bool = recover sh answer saved now js in
    let e'' : Engine = record e' { queue = e'.queue ++ (s.id ∷ []) } in
    let settle : Job × Reclaim → Engine × Bool = λ x.
      let e1 = revive saved x.1 s x.0 e in
      if is_terminal x.0.state
      then next e1
      else if ltb (length e1.queue) job_queue_capacity
      then next (record e1 { queue = e1.queue ++ (s.id ∷ []) })
      else (e1, false) in
    rw live (
      ap settle (bare_recovered sh (answer s.upstream_file_id) now s bare)
      ∙ (ap
            (λ b.
              if b
              then next e'
              else if ltb (length e'.queue) job_queue_capacity
              then next e''
              else (e', false))
            idle
          ∙ ap (λ c. if c then next e'' else (e', false)) room))

-- A restart brings back every unfinished job that has left no record, beside whatever others.
pub recover_stored :
    (sh : Text → Text → Bool) (answer : Text → InfoAnswer) (saved : Bool) (now : ℕ) (id : Text)
    (s : Job) (m : Dict Job) (e : Engine)
    → IsKeyed m
    → IsDistinct m
    → find id m ≡ some s
    → is_terminal s.state ≡ false
    → s.upstream_file_id ≡ []
    → length e.queue + length (values m) ≤ job_queue_capacity
    → (let e' = (recover sh answer saved now (values m) e).0 in
        (find id e'.jobs ≡ some (interrupted_job now s)) × (listed id e'.queue ≡ true))
unfolding find
recover_stored sh answer saved now id s [] e k dist at live bare room = absurd (cc at)
recover_stored sh answer saved now id s ((i, j) ∷ m) e k dist at live bare room =
    elim (Bool-cases (text_eq i id)) [
      | inr b ↦
          let (e1, same, adv) =
            recover-Advance sh answer saved now j (values m) e (omega (arith, room)) in
          let (jobs', queue') =
            recover_stored sh answer saved now id s m e1 k.1 dist.1 (ground (arith, at, b)) live
              bare (omega (arith, room, adv.grown)) in
          (ap (λ x. find id x.0.jobs) same ∙ jobs', ap (λ x. listed id x.0.queue) same ∙ queue')
      | inl b ↦
          let is_s : j ≡ s = some_inj (ground (arith, at, b)) in
          let named : s.id ≡ id = ap (λ x. x.id) (sym is_s) ∙ (k.0 ∙ (text_eq_iff i id).0 b) in
          let s' = interrupted_job now s in
          let e' = revive saved left_alone s s' e in
          let e'' : Engine = record e' { queue = e'.queue ++ (s.id ∷ []) } in
          let first =
            ap (λ x. recover sh answer saved now (x ∷ values m) e) is_s
            ∙ recover_bare sh answer saved now s (values m) e live bare (omega (arith, room)) in
          let more : length e''.queue ≡ length e.queue + 1 =
            length-more e'.queue s.id
            ∙ ap (λ q. length q + 1) (revive-queue saved left_alone s s' e) in
          let (jobs', queue') =
            recover-keeps sh answer saved now id m e'' k.1
              (ap (λ x. find x m) (sym ((text_eq_iff i id).0 b)) ∙ dist.0)
              (omega (arith, room, more))
              (listed-last id s.id e'.queue ((text_eq_iff s.id id).1 named)) in
          (
            ap (λ x. find id x.0.jobs) first
                ∙ (jobs'
                    ∙ (revive-jobs saved left_alone s s' e id
                        ∙ rw ((text_eq_iff s'.id id).1 (interrupted_job-id now s ∙ named)) refl)),
            ap (λ x. listed id x.0.queue) first ∙ queue',
          )
    ]
