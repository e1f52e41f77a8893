-- ===== src/DataCache/Journal.antt =====
-- The journal (internal/datacache/journal.go): the append, the fold of one record into an index,
-- and the replay of a log.
use mathlib.Core.Option
use opendrive_bridge.Common.{
  ℕ, ◌+◌, Bool, true, false, not, ◌≡◌, ◌||◌, none, some, List, [], ◌∷◌, ◌++◌, ltb, ◌==◌, length,
  if◌then◌else◌,
}
use opendrive_bridge.Common.Text.{is_empty}
use opendrive_bridge.Common.Dict.{Dict, find, insert, delete}
use opendrive_bridge.DataCache.Types.{
  Object, JournalRecord, StateChange, op_put, op_state, op_drop, op_touch, Answer, accepted,
  refused, unflushed, Line, whole, broken, Journal,
}

-- The line that a completed write leaves: behind a part of an older line the two make one line,
-- which does not parse.
abbrev pub new_line : Bool → JournalRecord → Line
new_line true rec = broken
new_line false rec = whole rec

-- A completed write, and the flush that follows it where one is asked for.
unfoldable pub write_line : Bool → JournalRecord → Journal → Journal
write_line sync rec j =
    let lines' = j.lines ++ (new_line j.tail rec ∷ []) in
    record j {
      lines = lines';
      tail = false;
      records = j.records + 1;
      flushed = if sync then length lines' else j.flushed;
      syncs = if sync then j.syncs + 1 else j.syncs;
    }

unfoldable pub answer_append : Answer → Bool → JournalRecord → Journal → Journal × Bool
unfolding write_line
answer_append accepted sync rec j = (write_line sync rec j, true)
answer_append (refused torn) sync rec j = (record j { tail = j.tail || torn }, false)
answer_append unflushed sync rec j = (write_line false rec j, not sync)

unfoldable pub append_with : List Answer → Bool → JournalRecord → Journal → Journal × Bool
unfolding answer_append
append_with [] sync rec j = answer_append accepted sync rec j
append_with (a ∷ rest) sync rec j = answer_append a sync rec (record j { answers = rest })

-- `append`: the new log, and whether the call returned without an error.
unfoldable pub append : JournalRecord → Bool → Journal → Journal × Bool
unfolding append_with
append rec sync j = append_with j.answers sync rec j

-- A log whose disk takes every append, and that ends in a whole line.
abbrev pub IsReliable : Journal → Type 0
IsReliable j = (j.answers ≡ []) × (j.tail ≡ false)

-- A state record on the entry that it found.
unfoldable pub apply_state : StateChange → Object → Object
apply_state c o = record o {
  state = Option.get_or c.state o.state;
  upstream_file_id = if is_empty c.file_id then o.upstream_file_id else c.file_id;
  hash = if is_empty c.hash then o.hash else c.hash;
  last_error = c.err;
  flush_attempts = if ltb 0 c.attempts then c.attempts else o.flush_attempts;
}

-- A record about a version that was replaced is ignored. Records without a version apply.
abbrev pub is_about : StateChange → Object → Bool
is_about c o = c.of == 0 || c.of == o.stored_at

-- `applyRecord`.
unfoldable pub apply_record : Dict Object → JournalRecord → Dict Object
unfolding apply_state
apply_record m (op_put o) = if is_empty o.remote_path then m else insert o.remote_path o m
apply_record m (op_state c) = elim (find c.path m) [
  | none ↦ m
  | some o ↦ if is_about c o then insert c.path (apply_state c o) m else m
]
apply_record m (op_drop p) = delete p m
apply_record m (op_touch p t) = elim (find p m) [
  | none ↦ m
  | some o ↦ if ltb 0 t then insert p (record o { last_access = t }) m else m
]

pub record ReplayResult : Type 0 where
  pub objects : Dict Object
  pub records : ℕ
  pub torn : Bool

-- The loop of `replayJournal`: it stops at the first line that is no record.
unfoldable pub replay_lines : Bool → List Line → ReplayResult → ReplayResult
unfolding apply_record
replay_lines tail [] r = record r { torn = tail }
replay_lines tail (whole rec ∷ rest) r =
    replay_lines tail rest
      (record r { objects = apply_record r.objects rec; records = r.records + 1 })
replay_lines tail (broken ∷ rest) r = record r { torn = true }

-- `replayJournal` on the lines of the file and whether a part of a line follows them.
unfoldable pub replay_journal : List Line → Bool → ReplayResult
unfolding replay_lines
replay_journal lines tail =
    replay_lines tail lines (record { objects = []; records = 0; torn = false })

-- `compactJournal`: one put for each object of the index, in the order given.
unfoldable pub compacted_lines : List Object → List Line
compacted_lines [] = []
compacted_lines (o ∷ os) = whole (op_put o) ∷ compacted_lines os

-- The log that it opens. The rename is durable, so every line is.
unfoldable pub compact_journal : List Object → List Answer → Journal
unfolding compacted_lines
compact_journal os answers = record {
  lines = compacted_lines os;
  tail = false;
  flushed = length (compacted_lines os);
  records = 0;
  syncs = 0;
  answers = answers;
}
