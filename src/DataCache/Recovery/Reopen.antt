-- ===== src/DataCache/Recovery/Reopen.antt =====
-- Opening the directory that a crash left (internal/datacache/store.go, `Open`).
use opendrive_bridge.Common.{
  ℕ, ◌≤◌, ◌≡◌, refl, sym, ap, ◌∙◌, inl, inr, Bool, some, List, [], ◌∷◌, arith, length, take, All,
  Option-cases, if_intro, ltb,
}
use opendrive_bridge.Common.Text.{Text, is_empty}
use opendrive_bridge.Common.Dict.{
  Dict, find, insert, IsDistinct, insert-IsDistinct, delete-IsDistinct,
}
use opendrive_bridge.DataCache.Types.{
  Object, JournalRecord, op_put, op_state, op_drop, op_touch, Answer, Line, whole, broken, Config,
  Cache, Digest,
}
use opendrive_bridge.DataCache.Journal.{
  apply_record, ReplayResult, replay_lines, replay_journal, is_about,
}
use opendrive_bridge.DataCache.Writing.{enqueue}
use opendrive_bridge.DataCache.Flush.{enqueue_all, requeue_unsent, unsent_paths}
use opendrive_bridge.DataCache.Startup.{
  verify_against_disk, Directory, open_cache, scanned_cache, start_journal,
}
use opendrive_bridge.DataCache.Steps.{Step, run}
use opendrive_bridge.DataCache.Accounting.{IsAccounted}
use opendrive_bridge.DataCache.Trace.Steps.{IsSound}
use opendrive_bridge.DataCache.Recovery.Records.{seen, seen-some}
use opendrive_bridge.DataCache.Recovery.Runs.{IsRecorded, replayed}
use opendrive_bridge.DataCache.Recovery.Invariant.{run-IsRecorded}
use opendrive_bridge.DataCache.Recovery.Scan.{IsInjective, find-scan_entries}
use opendrive_bridge.DataCache.Recovery.Contents.{HasContents, IsCalm, run-HasContents}

apply_record-IsDistinct :
    (m : Dict Object) (rec : JournalRecord) → IsDistinct m → IsDistinct (apply_record m rec)
unfolding apply_record
apply_record-IsDistinct m (op_put o) h =
    if_intro IsDistinct (is_empty o.remote_path) m (insert o.remote_path o m) h
      (insert-IsDistinct o.remote_path o m h)
apply_record-IsDistinct m (op_state c) h = elim (Option-cases (find c.path m)) [
  | inl e ↦ rw (e, apply_record) h
  | inr (o, e) ↦
      rw (e, apply_record)
        (if_intro IsDistinct (is_about c o) (insert c.path _ m) m (insert-IsDistinct c.path _ m h)
          h)
]
apply_record-IsDistinct m (op_drop p) h = delete-IsDistinct p m h
apply_record-IsDistinct m (op_touch p t) h = elim (Option-cases (find p m)) [
  | inl e ↦ rw (e, apply_record) h
  | inr (o, e) ↦
      rw (e, apply_record)
        (if_intro IsDistinct (ltb 0 t) (insert p _ m) m (insert-IsDistinct p _ m h) h)
]

replay_lines-IsDistinct :
    (t : Bool) (ls : List Line) (r : ReplayResult)
    → IsDistinct r.objects
    → IsDistinct (replay_lines t ls r).objects
unfolding replay_lines
replay_lines-IsDistinct t [] r h = h
replay_lines-IsDistinct t (whole rec ∷ ls) r h =
    replay_lines-IsDistinct t ls _ (apply_record-IsDistinct r.objects rec h)
replay_lines-IsDistinct t (broken ∷ ls) r h = h

pub replayed-IsDistinct : (t : Bool) (ls : List Line) → IsDistinct (replayed t ls)
unfolding replay_journal
replayed-IsDistinct t ls = replay_lines-IsDistinct t ls _ tt

enqueue-objs : (p : Text) (c : Cache) → (enqueue p c).objs ≡ c.objs
unfolding enqueue
enqueue-objs p c = ground arith

enqueue_all-objs : (ps : List Text) (c : Cache) → (enqueue_all ps c).objs ≡ c.objs
unfolding enqueue_all
enqueue_all-objs [] c = refl
enqueue_all-objs (p ∷ ps) c = enqueue_all-objs ps (enqueue p c) ∙ enqueue-objs p c

requeue_unsent-objs : (c : Cache) → (requeue_unsent c).objs ≡ c.objs
unfolding requeue_unsent
requeue_unsent-objs c = enqueue_all-objs (unsent_paths c) c

-- What `Open` finds in the replayed index with its content in full is in the new index.
pub find-open_cache :
    (d : Digest)
    → IsInjective d
    → (cfg : Config) (answers : List Answer) (dir : Directory)
    → (p : Text) (o : Object) (content : List ℕ) → find p (replayed dir.tail dir.lines) ≡ some o
    → find (d.content_name p) dir.files ≡ some content
    → length content ≡ o.size
    → find p (open_cache d cfg answers dir).0.objs ≡ some o
unfolding open_cache
find-open_cache d inj cfg answers dir p o content f g z =
    let replay = replay_journal dir.lines dir.tail in
    let s = verify_against_disk d replay.objects dir.files in
    let c = scanned_cache cfg (start_journal dir s.kept replay.records answers) s in
    let kept : find p c.objs ≡ some o =
      find-scan_entries d inj p o content replay.objects
        (record {
          kept = [];
          on_disk = dir.files;
          files = dir.files;
          bytes = 0;
          dirty_bytes = 0;
          lost = [];
        })
        (replayed-IsDistinct dir.tail dir.lines) f g z in
    if_intro (λ (x : Cache). find p x.objs ≡ some o) cfg.write_back (requeue_unsent c) c
      (ap (find p) (requeue_unsent-objs c) ∙ kept) kept

same_size : (y o : Object) → seen (some y) ≡ seen (some o) → y.size ≡ o.size
same_size y o h = cc

All-IsSound :
    (d : Digest) (ss : List Step) → All (λ s. IsSound d s × IsCalm s) ss → All (IsSound d) ss
All-IsSound d [] hs = tt
All-IsSound d (s ∷ ss) hs = (hs.0.0, All-IsSound d ss hs.1)

-- The directory after a crash: the log up to some line past its last flush, perhaps with a part of
-- a line behind it, and the content files.
abbrev pub crashed : Cache → ℕ → Bool → Directory
crashed c n torn = record { lines = take n c.journal.lines; tail = torn; files = c.files }

-- Take collision-free file names, and any run from a good state in which the journal takes every
-- record and no directory sync fails. Whatever the crash leaves of the journal behind its last flush, reopening the directory brings back every object of the index,
-- as it was but for its access time and attempt count.
pub crash_recovery :
    (d : Digest)
    → IsInjective d
    → (ss : List Step) (c : Cache) → IsAccounted c
    → IsRecorded c
    → HasContents d c
    → All (λ s. IsSound d s × IsCalm s) ss
    → (n : ℕ) (torn : Bool) → (run d ss c).journal.flushed ≤ n
    → (cfg : Config) (answers : List Answer) (p : Text) (o : Object)
    → find p (run d ss c).objs ≡ some o
    → (o' : Object) × (find p (open_cache d cfg answers (crashed (run d ss c) n torn)).0.objs
        ≡ some o')
      × (seen (some o') ≡ seen (some o))
crash_recovery d inj ss c a r h hs n torn le cfg answers p o f =
    let c' : Cache = run d ss c in
    let rec' : IsRecorded c' = run-IsRecorded d ss c a r (All-IsSound d ss hs) in
    let (content, there, size) = (run-HasContents d inj ss c a r hs h).at p o f in
    let (y, e, s) =
      seen-some (find p (replayed torn (take n c'.journal.lines))) o
        ((rec'.agrees torn n le).at p ∙ ap seen f) in
    (
      y,
      find-open_cache d inj cfg answers (crashed c' n torn) p y content e there
          (size ∙ sym (same_size y o s)),
      s,
    )
