-- ===== src/DataCache/Rules/Survival.antt =====
-- Unsent objects under commits, reads and uploads (internal/datacache/store.go, writeback.go).
use opendrive_bridge.Common.{
  ℕ, ◌≡◌, refl, sym, ap, ◌∙◌, inl, inr, Bool, true, false, not, ◌&&◌, some, [], arith, Option-cases,
  Bool-cases, ◌==◌,
}
use opendrive_bridge.Common.Text.{Text, text_eq, text_eq_iff, is_empty}
use opendrive_bridge.Common.Dict.{find, insert, find-insert}
use opendrive_bridge.DataCache.Types.{
  uploading, clean, unsent, Object, Cache, Digest, Result, ok, err,
}
use opendrive_bridge.DataCache.Path.{equal_fold}
use opendrive_bridge.DataCache.Index.{get}
use opendrive_bridge.DataCache.Writing.{
  CommitStop, Writer, PutWriter, commit, put_commit, put_object, stored_put, commit_clean,
  fill_object, stored_fill, enqueue,
}
use opendrive_bridge.DataCache.Flush.{
  Change, changed, change_to, set_state, move_state, sendable, flush_begin, flush_end,
  finish_upload, settle_clean, UploadResult, stopped, failed, uploaded, hash_fits, release,
}
use opendrive_bridge.DataCache.Moves.{Moves, Moves-append, accepts, state_record, arrives}
use opendrive_bridge.DataCache.Accounting.{IsAccounted, Moves-IsAccounted}
use opendrive_bridge.DataCache.Trace.Commits.{commit-Moves, enqueue-Moves, Fits}
use opendrive_bridge.DataCache.Trace.Uploads.{set_state-Moves}
use opendrive_bridge.DataCache.Recovery.Contents.{HasContents}
use opendrive_bridge.DataCache.Rules.Keeping.{
  Holding, evict_keeps_unsent, enqueue-Holding, commit-Holding,
}

pub put_commit-Holding :
    (d : Digest) (stop : CommitStop) (now : ℕ) (pw : PutWriter) (p : Text) (c : Cache)
    → IsAccounted c
    → Fits pw.w.buffer (put_object d now pw)
    → Holding p c
    → Holding p (put_commit d stop now pw c).0
unfolding put_commit unsent
put_commit-Holding d stop now pw p c a fits h =
    finish (commit d stop pw.w (put_object d now pw) c)
      (commit-Moves {k = true} d stop pw.w (put_object d now pw) c fits (inl refl))
      (commit-Holding d stop pw.w (put_object d now pw) p c (λ t. refl) h)
  where
    finish :
        (r : Cache × Result Object)
        → Moves true d c r.0
        → Holding p r.0
        → Holding p (stored_put d (put_object d now pw) r).0
    finish (c', ok x) ms h =
        let q = pw.req.remote_path in
        evict_keeps_unsent d p (enqueue q c')
          (Moves-IsAccounted (Moves-append ms (enqueue-Moves d q c')) a) (enqueue-Holding q p c' h)
    finish (c', err x) ms h = h

pub commit_clean-Holding :
    (d : Digest) (stop : CommitStop) (now : ℕ) (want : Text) (w : Writer) (p : Text) (c : Cache)
    → IsAccounted c
    → Fits w.buffer (fill_object d now w)
    → text_eq w.path p ≡ false
    → Holding p c
    → Holding p (commit_clean d stop now want w c).0
unfolding commit_clean
commit_clean-Holding d stop now want w p c a fits ne h =
    elim (Bool-cases (not (is_empty want) && not (equal_fold (d.md5_hex w.buffer) want))) [
      | inl e ↦ rw (e, commit_clean) h
      | inr e ↦
          rw (e, commit_clean)
            (finish (commit d stop w (fill_object d now w) c)
              (commit-Moves {k = true} d stop w (fill_object d now w) c fits (inl refl))
              (commit-Holding d stop w (fill_object d now w) p c (λ t. cc (t, ne)) h))
    ]
  where
    finish :
        (r : Cache × Result Object)
        → Moves true d c r.0
        → Holding p r.0
        → Holding p (stored_fill d r).0
    finish (c', ok x) ms h = evict_keeps_unsent d p c' (Moves-IsAccounted ms a) h
    finish (c', err x) ms h = h

-- A read that can open the content of what it finds.
pub get-Holding :
    (d : Digest) (now : ℕ) (q p : Text) (c : Cache)
    → HasContents d c
    → Holding p c
    → Holding p (get d true now q c).0
unfolding get
get-Holding d now q p c hc (o, f, u) = elim (Option-cases (find q c.objs)) [
  | inl e ↦ rw (e, get) (o, f, u)
  | inr (x, e) ↦
      let (content, g, size) = hc.at q x e in
      rw (e, get, g)
        (elim (Bool-cases (text_eq q p)) [
          | inl t ↦
              let same : q ≡ p = (text_eq_iff q p).0 t in
              (
                record x { last_access = now },
                ground (arith, find-insert q p (record x { last_access = now }) c.objs, t),
                unsent_same x o (sym e ∙ ap (λ y. find y c.objs) same ∙ f) u,
              )
          | inr t ↦
              (o, ground (arith, find-insert q p (record x { last_access = now }) c.objs, t, f), u)
        ])
]
  where
    unsent_same : (x o : Object) → some x ≡ some o → unsent o.state ≡ true → unsent x.state ≡ true
    unsent_same x o e u = cc (e, u)

set_state-Holding :
    (q : Text) (ch : Change) (p : Text) (c : Cache)
    → (text_eq q p ≡ true → unsent ch.state ≡ true)
    → Holding p c
    → Holding p (set_state q ch c).0
unfolding set_state
set_state-Holding q ch p c h (o, f, u) = elim (Option-cases (find q c.objs)) [
  | inl e ↦ rw (e, set_state) (o, f, u)
  | inr (x, e) ↦ elim (Bool-cases (x.stored_at == ch.of)) [
    | inr v ↦ rw (e, set_state, v) (o, f, u)
    | inl v ↦ elim (Bool-cases (accepts (state_record q ch) c)) [
      | inr t ↦ rw (e, set_state, v, t) (o, f, u)
      | inl t ↦
          rw (e, set_state, v, t)
            (rw (e, move_state, v)
              (elim (Bool-cases (text_eq q p)) [
                | inl s ↦
                    (changed ch x, ground (arith, find-insert q p (changed ch x) c.objs, s), h s)
                | inr s ↦ (o, ground (arith, find-insert q p (changed ch x) c.objs, s, f), u)
              ]))
    ]
  ]
]

set_state-files : (q : Text) (ch : Change) (c : Cache) → (set_state q ch c).0.files ≡ c.files
unfolding set_state
set_state-files q ch c = ground arith

sendable-find : (q : Text) (c : Cache) (o : Object) → sendable q c ≡ some o → find q c.objs ≡ some o
unfolding sendable
sendable-find q c o h = ground arith

pub flush_begin-Holding :
    (d : Digest) (q p : Text) (c : Cache)
    → HasContents d c
    → Holding p c
    → Holding p (flush_begin d true q c).0
unfolding flush_begin
flush_begin-Holding d q p c hc h = elim (Option-cases (sendable q c)) [
  | inl e ↦ rw (e, flush_begin) h
  | inr (x, e) ↦
      let claimed : Cache = record c { in_flight = insert q x c.in_flight } in
      let ch = change_to uploading [] x.flush_attempts x in
      let (content, g, size) = hc.at q x (sendable-find q c x e) in
      let there : find (d.content_name q) (set_state q ch claimed).0.files ≡ some content =
        ap (find (d.content_name q)) (set_state-files q ch claimed) ∙ g in
      rw (e, flush_begin, there) (set_state-Holding q ch p claimed (λ t. refl) h)
]

pub flush_end-Holding :
    (d : Digest) (q : Text) (r : UploadResult) (p : Text) (c : Cache)
    → IsAccounted c
    → ((hash : Text) → r ≡ uploaded hash → text_eq q p ≡ false)
    → Holding p c
    → Holding p (flush_end d q r c)
unfolding flush_end unsent
flush_end-Holding d q r p c a ne h = elim (Option-cases (find q c.in_flight)) [
  | inl e ↦ rw (e, flush_end) h
  | inr (x, e) ↦ rw (e, flush_end) (ended x e r ne)
]
  where
    settle :
        (r : Cache × Bool) → Moves true d c r.0 → Holding p r.0 → Holding p (settle_clean d q r)
    settle (c', true) ms h = evict_keeps_unsent d p c' (Moves-IsAccounted ms a) h
    settle (c', false) ms h = enqueue-Holding q p (release q c') h

    ended :
        (x : Object)
        → find q c.in_flight ≡ some x
        → (r : UploadResult) → ((hash : Text) → r ≡ uploaded hash → text_eq q p ≡ false)
        → Holding p (finish_upload d q x r c)
    ended x e stopped ne = h
    ended x e (failed z) ne = set_state-Holding q _ p c (λ t. refl) h
    ended x e (uploaded hash) ne = elim (Bool-cases (hash_fits hash x)) [
      | inr t ↦ rw (t, finish_upload) (set_state-Holding q _ p c (λ t. refl) h)
      | inl t ↦
          rw (t, finish_upload)
            (settle _
              (set_state-Moves d q x clean [] x.flush_attempts c e (arrives hash t refl refl))
              (set_state-Holding q _ p c (λ s. cc (s, ne hash refl)) h))
    ]
