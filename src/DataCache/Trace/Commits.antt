-- ===== src/DataCache/Trace/Commits.antt =====
-- The read, the commits and the queue as sequences of primitive moves (internal/datacache/store.go).
use opendrive_bridge.Common.{
  ℕ, ◌≡◌, ◌≢◌, ◌⊎◌, refl, Bool, true, false, not, ◌&&◌, none, List, [], ◌∷◌, ◌++◌, inl, inr,
  Option-cases, Bool-cases, if_intro, ltb, length, if◌then◌else◌,
}
use opendrive_bridge.Common.Text.{Text, is_empty}
use opendrive_bridge.Common.Dict.{find, find-insert_self}
use opendrive_bridge.DataCache.Types.{Object, Cache, Digest, JournalRecord, Result, ok, err, op_put}
use opendrive_bridge.DataCache.Journal.{append, IsReliable}
use opendrive_bridge.DataCache.Path.{equal_fold}
use opendrive_bridge.DataCache.Index.{get}
use opendrive_bridge.DataCache.Writing.{
  CommitStop, tmp_sync, tmp_close, rename, dir_sync, nowhere, Writer, PutWriter, commit,
  commit_steps, put_commit, stored_put, put_object, commit_clean, stored_fill, fill_object, enqueue,
  queue_capacity,
}
use opendrive_bridge.DataCache.Flush.{enqueue_all, enqueue_all}
use opendrive_bridge.DataCache.Moves.{
  unreadable, quiet, reject, glance, log_touch, store, spoil, drop, Moves, here, next, Moves-one,
  Moves-append, accepts,
}
use opendrive_bridge.DataCache.Accounting.{IsAccounted, Moves-IsAccounted}
use opendrive_bridge.DataCache.Trace.Eviction.{evict_if_needed-Moves}

-- A read is a miss, a hit, or an object that is dropped because its content does not open.
pub get-Moves :
    {k : Bool} (d : Digest) (opens : Bool) (now : ℕ) (p : Text) (c : Cache)
    → Moves k d c (get d opens now p c).0
unfolding get
get-Moves d opens now p c = elim (Option-cases (find p c.objs)) [
  | inl e ↦ rw (e, get) (Moves-one (quiet _ _ _ _ _ refl))
  | inr (o, e) ↦ elim (Option-cases (if opens then find (d.content_name p) c.files else none)) [
    | inl f ↦
        rw (e, get, f)
          (next (glance p o now e refl) (
            next
              (drop p (record o { last_access = now }) unreadable (find-insert_self p _ c.objs) tt
                refl)
              (Moves-one (quiet _ _ _ _ _ refl))))
    | inr (content, f) ↦
        rw (e, get, f)
          (next (glance p o now e refl)
            (next (log_touch p now refl) (Moves-one (quiet _ _ _ _ _ refl))))
  ]
]

pub enqueue-Moves : {k : Bool} (d : Digest) (p : Text) (c : Cache) → Moves k d c (enqueue p c)
unfolding enqueue
enqueue-Moves d p c =
    if_intro (Moves _ d c) (c.cfg.write_back && ltb (length c.flush_queue) queue_capacity) _ c
      (Moves-one (quiet c.hits c.misses (c.flush_queue ++ (p ∷ [])) c.draining c.closed refl)) here

pub enqueue_all-Moves :
    {k : Bool} (d : Digest) (ps : List Text) (c : Cache) → Moves k d c (enqueue_all ps c)
unfolding enqueue_all
enqueue_all-Moves d [] c = here
enqueue_all-Moves d (p ∷ ps) c =
    Moves-append (enqueue-Moves d p c) (enqueue_all-Moves d ps (enqueue p c))

-- An object that a commit may store: its size is that of its content, and it has a path.
abbrev pub Fits : List ℕ → Object → Type 0
Fits content o = (o.size ≡ length content) × (is_empty o.remote_path ≡ false)

-- A commit may leave a spoilt file, or the disk does as it is told.
abbrev pub Disk : Bool → CommitStop → Cache → Type 0
Disk k stop c = (k ≡ true) ⊎ ((stop ≢ dir_sync) × IsReliable c.journal)

pub accepts_of_IsReliable :
    (rec : JournalRecord) (c : Cache) → IsReliable c.journal → accepts rec c ≡ true
unfolding append
accepts_of_IsReliable rec c h = rw (h.0, append)

rejected-Disk :
    {k : Bool} (rec : JournalRecord) (c : Cache)
    → Disk k nowhere c
    → accepts rec c ≡ false
    → k ≡ true
rejected-Disk rec c (inl h) e = h
rejected-Disk rec c (inr h) e = cc (accepts_of_IsReliable rec c h.1)

dir_sync-Disk : {k : Bool} (c : Cache) → Disk k dir_sync c → k ≡ true
dir_sync-Disk c (inl h) = h
dir_sync-Disk c (inr h) = absurd (h.0 refl)

commit_steps-Moves :
    {k : Bool} (d : Digest) (stop : CommitStop) (content : List ℕ) (o : Object) (c : Cache)
    → Fits content o
    → Disk k stop c
    → Moves k d c (commit_steps d stop content o c).0
unfolding commit_steps
commit_steps-Moves d tmp_sync content o c h g = here
commit_steps-Moves d tmp_close content o c h g = here
commit_steps-Moves d rename content o c h g = here
commit_steps-Moves d dir_sync content o c h g =
    Moves-one (spoil o.remote_path content (dir_sync-Disk c g) refl)
commit_steps-Moves d nowhere content o c h g = elim (Bool-cases (accepts (op_put o) c)) [
  | inl e ↦ rw (e, commit_steps) (Moves-one (store content o h.0 h.1 e refl))
  | inr e ↦
      rw (e, commit_steps)
        (next (reject (op_put o) e refl)
          (Moves-one (spoil o.remote_path content (rejected-Disk (op_put o) c g e) refl)))
]

pub commit-Moves :
    {k : Bool} (d : Digest) (stop : CommitStop) (w : Writer) (o : Object) (c : Cache)
    → Fits w.buffer o
    → Disk k stop c
    → Moves k d c (commit d stop w o c).0
unfolding commit
commit-Moves d stop w o c h g = elim (Bool-cases w.closed) [
  | inl e ↦ rw (e, commit) here
  | inr e ↦ rw (e, commit) (commit_steps-Moves d stop w.buffer o c h g)
]

stored_put-Moves :
    {k : Bool} (d : Digest) (o : Object) (c : Cache) (r : Cache × Result Object)
    → IsAccounted c
    → Moves k d c r.0
    → Moves k d c (stored_put d o r).0
unfolding stored_put
stored_put-Moves d o c (c', ok x) a ms =
    let queued = Moves-append ms (enqueue-Moves d o.remote_path c') in
    Moves-append queued (evict_if_needed-Moves d _ (Moves-IsAccounted queued a))
stored_put-Moves d o c (c', err x) a ms = ms

pub put_commit-Moves :
    {k : Bool} (d : Digest) (stop : CommitStop) (now : ℕ) (pw : PutWriter) (c : Cache)
    → IsAccounted c
    → Fits pw.w.buffer (put_object d now pw)
    → Disk k stop c
    → Moves k d c (put_commit d stop now pw c).0
unfolding put_commit
put_commit-Moves d stop now pw c a h g =
    stored_put-Moves d (put_object d now pw) c (commit d stop pw.w (put_object d now pw) c) a
      (commit-Moves d stop pw.w (put_object d now pw) c h g)

stored_fill-Moves :
    {k : Bool} (d : Digest) (c : Cache) (r : Cache × Result Object)
    → IsAccounted c
    → Moves k d c r.0
    → Moves k d c (stored_fill d r).0
unfolding stored_fill
stored_fill-Moves d c (c', ok x) a ms =
    Moves-append ms (evict_if_needed-Moves d c' (Moves-IsAccounted ms a))
stored_fill-Moves d c (c', err x) a ms = ms

pub commit_clean-Moves :
    {k : Bool} (d : Digest) (stop : CommitStop) (now : ℕ) (want : Text) (w : Writer) (c : Cache)
    → IsAccounted c
    → Fits w.buffer (fill_object d now w)
    → Disk k stop c
    → Moves k d c (commit_clean d stop now want w c).0
unfolding commit_clean
commit_clean-Moves d stop now want w c a h g =
    elim (Bool-cases (not (is_empty want) && not (equal_fold (d.md5_hex w.buffer) want))) [
      | inl e ↦ rw (e, commit_clean) here
      | inr e ↦
          rw (e, commit_clean)
            (stored_fill-Moves d c _ a (commit-Moves d stop w (fill_object d now w) c h g))
    ]
