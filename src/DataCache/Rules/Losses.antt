-- ===== src/DataCache/Rules/Losses.antt =====
-- The failures that the rules on unsent data do not cover (internal/datacache).
use mathlib.Core.List.{append-nil, append_assoc}
use opendrive_bridge.Common.{
  ℕ, ◌≡◌, ◌≤◌, refl, sym, ap, subst, take, ◌∙◌, Bool, true, false, none, some, List, [], ◌∷◌, ◌++◌,
  inl, inr, map, Option-cases,
}
use opendrive_bridge.Common.Text.{Text}
use opendrive_bridge.Common.Dict.{find, insert, find-insert_self, find-delete_self}
use opendrive_bridge.DataCache.Types.{
  unsent, Object, JournalRecord, op_put, op_drop, Line, whole, broken, Journal, Cache, Digest, ok,
  err, io_error, not_cached,
}
use opendrive_bridge.DataCache.Journal.{
  append, IsReliable, ReplayResult, replay_lines, replay_journal,
}
use opendrive_bridge.DataCache.Index.{forget, vanished, get}
use opendrive_bridge.DataCache.Writing.{
  dir_sync, nowhere, Writer, PutWriter, commit, commit_steps, put_commit, fill_object,
}
use opendrive_bridge.DataCache.Flush.{sendable, flush_begin}
use opendrive_bridge.DataCache.Startup.{open_journal}
use opendrive_bridge.DataCache.Trace.Commits.{accepts_of_IsReliable}
use opendrive_bridge.DataCache.Recovery.Records.{seen, drop-Agree, glance-Agree}
use opendrive_bridge.DataCache.Recovery.Runs.{
  replayed, append-reliable, IsRecorded, flushed-Recorded, moved-Recorded,
}

find-forget_self : (d : Digest) (p : Text) (c : Cache) → find p (forget d p c).objs ≡ none
unfolding forget
find-forget_self d p c = elim (Option-cases (find p c.objs)) [
  | inl e ↦ rw (e, forget) e
  | inr (o, e) ↦ rw (e, forget) (find-delete_self p c.objs)
]

files-forget :
    (d : Digest) (p : Text) (o : Object) (c : Cache)
    → find p c.objs ≡ some o
    → find (d.content_name p) (forget d p c).files ≡ none
unfolding forget
files-forget d p o c f = rw (f, forget) (find-delete_self (d.content_name p) c.files)

vanished-IsRecorded :
    (d : Digest) (p : Text) (o : Object) (now : ℕ) (c : Cache)
    → find p c.objs ≡ some o
    → IsRecorded c
    → IsRecorded (vanished d p o now c)
unfolding vanished forget
vanished-IsRecorded d p o now c f r =
    let o' = record o { last_access = now } in
    rw (find-insert_self p o' c.objs, forget)
      (flushed-Recorded (op_drop p) _ (moved-Recorded _ r (λ x g. glance-Agree p o now f g))
        (λ x g. drop-Agree p g))

replayed-gone :
    (torn : Bool) (n : ℕ) (p : Text) (c : Cache)
    → IsRecorded c
    → c.journal.flushed ≤ n
    → find p c.objs ≡ none
    → find p (replayed torn (take n c.journal.lines)) ≡ none
replayed-gone torn n p c r le gone =
    elim (Option-cases (find p (replayed torn (take n c.journal.lines)))) [
      | inl e ↦ e
      | inr (o, e) ↦ absurd (cc (ap seen e, (r.agrees torn n le).at p, ap seen gone))
    ]

-- An unsent object with its content, which a read that opens the file answers, is lost by a read whose
-- `os.Open` fails, for whatever reason: its content file is deleted, a later read finds nothing although
-- it could open the file, no upload takes the object, and whatever a crash then leaves of the journal
-- behind its last flush, a replay does not have it. The journal is taken to take every record and to
-- have replayed to the index before.
pub failed_open_discards :
    (d : Digest) (now later : ℕ) (p : Text) (o : Object) (content : List ℕ) (c : Cache)
    → IsRecorded c
    → find p c.objs ≡ some o
    → unsent o.state ≡ true
    → find (d.content_name p) c.files ≡ some content
    → (torn : Bool) (n : ℕ) → (get d false now p c).0.journal.flushed ≤ n
    → let c' = (get d false now p c).0 in
      ((get d true now p c).1 ≡ ok (record o { last_access = now }, content))
      × (find (d.content_name p) c'.files ≡ none)
      × ((get d true later p c').1 ≡ err not_cached)
      × (flush_begin d true p c' ≡ (c', none))
      × (find p (replayed torn (take n c'.journal.lines)) ≡ none)
unfolding get flush_begin
failed_open_discards d now later p o content c r f u here torn n le =
    let c1 : Cache = record c { objs = insert p (record o { last_access = now }) c.objs } in
    let left : (get d false now p c).0 ≡ vanished d p o now c = rw (f, get) refl in
    let gone : find p (vanished d p o now c).objs ≡ none =
      unfold vanished in find-forget_self d p c1 in
    let lost : find (d.content_name p) (vanished d p o now c).files ≡ none =
      unfold vanished in
      files-forget d p (record o { last_access = now }) c1
        (find-insert_self p (record o { last_access = now }) c.objs) in
    let idle : sendable p (vanished d p o now c) ≡ none =
      unfold sendable in rw (gone, sendable) refl in
    (
      rw (f, get) (rw here refl),
      ap (λ x. find (d.content_name p) x.files) left ∙ lost,
      ap (λ x. (get d true later p x).1) left ∙ rw (gone, get) refl,
      ap (λ x. flush_begin d true p x) left
          ∙ (rw (idle, flush_begin) refl ∙ ap (λ x. (x, none)) (sym left)),
      ap (λ x. find p (replayed torn (take n x.journal.lines))) left
          ∙ replayed-gone torn n p (vanished d p o now c) (vanished-IsRecorded d p o now c f r)
              (subst (λ x. x.journal.flushed ≤ n) left le) gone,
    )

-- A write to a path whose directory sync fails returns an error and leaves the index as it was. A
-- read of the path then finds no content, also where the index has an older object there that an
-- earlier write stored with success.
pub failed_rewrite_deletes :
    (d : Digest) (now later : ℕ) (pw : PutWriter) (o : Object) (c : Cache)
    → pw.w.closed ≡ false
    → find pw.req.remote_path c.objs ≡ some o
    → let r = put_commit d dir_sync now pw c in
      (r.1 ≡ err io_error)
      × (r.0.objs ≡ c.objs)
      × ((get d true later pw.req.remote_path r.0).1 ≡ err not_cached)
unfolding put_commit commit get
failed_rewrite_deletes d now later pw o c h f =
    rw (h, commit)
      (refl, refl, rw (f, get) (rw (find-delete_self (d.content_name pw.req.remote_path) _) refl))

sendable_clean :
    (p : Text) (o : Object) (c : Cache)
    → find p c.objs ≡ some o
    → unsent o.state ≡ false
    → sendable p c ≡ none
unfolding sendable
sendable_clean p o c f u = rw (f, sendable) (rw u refl)

find-commit :
    (d : Digest) (w : Writer) (o : Object) (c : Cache)
    → w.closed ≡ false
    → IsReliable c.journal
    → find o.remote_path (commit d nowhere w o c).0.objs ≡ some o
unfolding commit
find-commit d w o c h r =
    rw (h, commit)
      (rw (accepts_of_IsReliable (op_put o) c r, commit_steps)
        (find-insert_self o.remote_path o c.objs))

-- A fill that is committed at a path replaces an unsent object there by a clean one, which no
-- upload will take.
pub fill_overwrites :
    (d : Digest) (now : ℕ) (w : Writer) (c : Cache)
    → w.closed ≡ false
    → IsReliable c.journal
    → let c' = (commit d nowhere w (fill_object d now w) c).0 in
      (find w.path c'.objs ≡ some (fill_object d now w)) × (sendable w.path c' ≡ none)
unfolding fill_object unsent
fill_overwrites d now w c h r =
    let stored = find-commit d w (fill_object d now w) c h r in
    (stored, sendable_clean w.path (fill_object d now w) _ stored refl)

-- Appends of several records, each flushed.
unfoldable pub append_all : List JournalRecord → Journal → Journal
append_all [] j = j
append_all (rec ∷ recs) j = append_all recs (append rec true j).0

append_torn :
    (rec : JournalRecord) (j : Journal)
    → j.tail ≡ true
    → j.answers ≡ []
    → ((append rec true j).0.lines ≡ j.lines ++ (broken ∷ [])) × IsReliable (append rec true j).0
unfolding append
append_torn rec j t h = rw (h, append) (rw t (refl, (refl, refl)))

append_all-lines :
    (recs : List JournalRecord) (j : Journal)
    → IsReliable j
    → (append_all recs j).lines ≡ j.lines ++ map whole recs
unfolding append_all
append_all-lines [] j h = sym (append-nil j.lines)
append_all-lines (rec ∷ recs) j h =
    rw (append-reliable rec true j h, append_all)
      (append_all-lines recs _ (h.0, refl) ∙ append_assoc j.lines (whole rec ∷ []) (map whole recs))

replay_lines-broken :
    (t u : Bool) (ls ms : List Line) (r : ReplayResult)
    → (replay_lines t (ls ++ (broken ∷ ms)) r).objects ≡ (replay_lines u ls r).objects
unfolding replay_lines
replay_lines-broken t u [] ms r = refl
replay_lines-broken t u (whole rec ∷ ls) ms r = replay_lines-broken t u ls ms _
replay_lines-broken t u (broken ∷ ls) ms r = refl

-- The journal is opened on a log whose end a crash has cut inside a record. Whatever records the
-- gateway then appends and flushes, each with success, the next replay gives the index that the
-- log had before: none of them is seen.
pub torn_tail_hides :
    (lines : List Line) (rec : JournalRecord) (recs : List JournalRecord) (torn : Bool)
    → replayed torn (append_all (rec ∷ recs) (open_journal lines true [])).lines
      ≡ replayed true lines
unfolding append_all open_journal replay_journal
torn_tail_hides lines rec recs torn =
    let j : Journal = open_journal lines true [] in
    let (cut, rel) = append_torn rec j refl refl in
    let split : (append_all recs (append rec true j).0).lines ≡ lines ++ (broken ∷ map whole recs) =
      append_all-lines recs (append rec true j).0 rel
      ∙ (ap (λ x. x ++ map whole recs) cut ∙ append_assoc lines (broken ∷ []) (map whole recs)) in
    ap (λ x. (replay_lines torn x (record { objects = []; records = 0; torn = false })).objects)
      split
    ∙ replay_lines-broken torn true lines (map whole recs) _
