-- ===== src/DataCache/Trace/Uploads.antt =====
-- The two legs of an upload as sequences of primitive moves (internal/datacache/writeback.go).
use opendrive_bridge.Common.{
  ℕ, ◌+◌, ◌≡◌, refl, Bool, true, false, none, some, [], arith, inl, inr, Option-cases, Bool-cases,
  ==_iff, ◌==◌, if◌then◌else◌,
}
use opendrive_bridge.Common.Text.{Text}
use opendrive_bridge.Common.Dict.{find, insert, find-insert_self}
use opendrive_bridge.DataCache.Types.{State, dirty, uploading, clean, unsent, Object, Cache, Digest}
use opendrive_bridge.DataCache.Index.{forget}
use opendrive_bridge.DataCache.Flush.{
  Change, change_to, set_state, move_state, flush_begin, flush_end, finish_upload, settle_clean,
  sendable, UploadResult, stopped, failed, uploaded, hash_fits, release, reason_of, hash_reason,
}
use opendrive_bridge.DataCache.Moves.{
  unreadable, Cause, starts, fails, arrives, claim, let_go, reject, drop, change, Moves, here, next,
  Moves-one, Moves-append, accepts, state_record,
}
use opendrive_bridge.DataCache.Accounting.{IsAccounted, Moves-IsAccounted}
use opendrive_bridge.DataCache.Trace.Eviction.{evict_if_needed-Moves, forget-absent}
use opendrive_bridge.DataCache.Trace.Commits.{enqueue-Moves}

-- Forgetting what is not there changes nothing; else it is a drop.
forget-Moves : {k : Bool} (d : Digest) (p : Text) (c : Cache) → Moves k d c (forget d p c)
forget-Moves d p c = elim (Option-cases (find p c.objs)) [
  | inl e ↦ rw (forget-absent d p c e) here
  | inr (o, e) ↦ Moves-one (drop p o unreadable e tt refl)
]

-- A state change for a version in flight.
pub set_state-Moves :
    {k : Bool} (d : Digest) (p : Text) (x : Object) (st : State) (reason : Text) (attempts : ℕ)
    (c : Cache)
    → find p c.in_flight ≡ some x
    → Cause x st attempts
    → Moves k d c (set_state p (change_to st reason attempts x) c).0
unfolding set_state
set_state-Moves d p x st reason attempts c f w = elim (Option-cases (find p c.objs)) [
  | inl e ↦ rw (e, set_state) here
  | inr (o, e) ↦ elim (Bool-cases (o.stored_at == x.stored_at)) [
    | inl v ↦ elim (Bool-cases (accepts (state_record p (change_to st reason attempts x)) c)) [
      | inl t ↦
          rw (e, set_state, v, t)
            (rw (e, move_state, v)
              (Moves-one (
                change p o x st reason attempts e f ((==_iff o.stored_at x.stored_at).0 v) w t
                  refl)))
      | inr t ↦
          rw (e, set_state, v, t)
            (Moves-one (reject (state_record p (change_to st reason attempts x)) t refl))
    ]
    | inr v ↦ rw (e, set_state, v) here
  ]
]

pub set_state-in_flight :
    (p : Text) (ch : Change) (c : Cache) → (set_state p ch c).0.in_flight ≡ c.in_flight
unfolding set_state
set_state-in_flight p ch c = ground arith

release-Moves :
    {k : Bool} (d : Digest) (p : Text) {c c' : Cache} → Moves k d c c' → Moves k d c (release p c')
release-Moves d p {c' = c'} ms = Moves-append ms (Moves-one (let_go p refl))

sendable-unsent :
    (p : Text) (c : Cache) (o : Object) → sendable p c ≡ some o → unsent o.state ≡ true
unfolding sendable
sendable-unsent p c o h = ground arith

pub flush_begin-Moves :
    {k : Bool} (d : Digest) (opens : Bool) (p : Text) (c : Cache)
    → Moves k d c (flush_begin d opens p c).0
unfolding flush_begin
flush_begin-Moves {k} d opens p c = elim (Option-cases (sendable p c)) [
  | inl e ↦ rw (e, flush_begin) here
  | inr (o, e) ↦
      let claimed : Cache = record c { in_flight = insert p o c.in_flight } in
      let c' : Cache = (set_state p (change_to uploading [] o.flush_attempts o) claimed).0 in
      let started : Moves k d c c' = next (claim p o e refl) (
        set_state-Moves d p o uploading [] o.flush_attempts claimed
          (find-insert_self p o c.in_flight) (starts refl refl (sendable-unsent p c o e))) in
      elim (Option-cases (if opens then find (d.content_name p) c'.files else none)) [
        | inl f ↦
            rw (e, flush_begin, f) (release-Moves d p (Moves-append started (forget-Moves d p c')))
        | inr (content, f) ↦ rw (e, flush_begin, f) started
      ]
]

settle_clean-Moves :
    {k : Bool} (d : Digest) (p : Text) (c : Cache) (r : Cache × Bool)
    → IsAccounted c
    → Moves k d c r.0
    → Moves k d c (settle_clean d p r)
unfolding settle_clean
settle_clean-Moves d p c (c', true) a ms =
    release-Moves d p (Moves-append ms (evict_if_needed-Moves d c' (Moves-IsAccounted ms a)))
settle_clean-Moves d p c (c', false) a ms =
    Moves-append (release-Moves d p ms) (enqueue-Moves d p (release p c'))

finish_upload-Moves :
    {k : Bool} (d : Digest) (p : Text) (x : Object) (r : UploadResult) (c : Cache)
    → IsAccounted c
    → find p c.in_flight ≡ some x
    → Moves k d c (finish_upload d p x r c)
unfolding finish_upload
finish_upload-Moves d p x stopped c a f = release-Moves d p here
finish_upload-Moves d p x (failed e) c a f =
    release-Moves d p
      (set_state-Moves d p x dirty (reason_of e) (x.flush_attempts + 1) c f (fails refl refl))
finish_upload-Moves d p x (uploaded hash) c a f = elim (Bool-cases (hash_fits hash x)) [
  | inl e ↦
      rw (e, finish_upload)
        (settle_clean-Moves d p c _ a
          (set_state-Moves d p x clean [] x.flush_attempts c f (arrives hash e refl refl)))
  | inr e ↦
      rw (e, finish_upload)
        (release-Moves d p (
          set_state-Moves d p x dirty (hash_reason hash x.hash) (x.flush_attempts + 1) c f
            (fails refl refl)))
]

pub flush_end-Moves :
    {k : Bool} (d : Digest) (p : Text) (r : UploadResult) (c : Cache)
    → IsAccounted c
    → Moves k d c (flush_end d p r c)
unfolding flush_end
flush_end-Moves d p r c a = elim (Option-cases (find p c.in_flight)) [
  | inl e ↦ rw (e, flush_end) here
  | inr (x, e) ↦ rw (e, flush_end) (finish_upload-Moves d p x r c a e)
]
