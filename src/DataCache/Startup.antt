-- ===== src/DataCache/Startup.antt =====
-- Opening the cache directory (internal/datacache/store.go, `Open`, `verifyAgainstDisk`): the
-- journal is replayed, the index is held against the content files, and what is unsent is queued.
use opendrive_bridge.Common.{
  ℕ, ◌+◌, Bool, false, none, some, List, [], ◌∷◌, ltb, ◌==◌, length, if◌then◌else◌,
}
use opendrive_bridge.Common.Text.{Text, text_before}
use opendrive_bridge.Common.Dict.{Dict, find, delete, values, keys}
use opendrive_bridge.Common.Sort.{sort_by}
use opendrive_bridge.DataCache.Types.{unsent, Object, Answer, Line, Journal, Config, Cache, Digest}
use opendrive_bridge.DataCache.Journal.{replay_journal, compact_journal}
use opendrive_bridge.DataCache.Index.{dirty_share}
use opendrive_bridge.DataCache.Flush.{requeue_unsent}

-- The variables of `verifyAgainstDisk`. `kept` holds the entries that stay, last one first.
pub record Scan : Type 0 where
  pub kept : Dict Object
  pub on_disk : Dict (List ℕ)
  pub files : Dict (List ℕ)
  pub bytes : ℕ
  pub dirty_bytes : ℕ
  pub lost : List Text

unfoldable pub lose : Text → Object → Scan → Scan
unfolding unsent
lose p o s = record s { lost = if unsent o.state then p ∷ s.lost else s.lost }

unfoldable pub keep : Text → Text → Object → Scan → Scan
unfolding dirty_share
keep name p o s = record s {
  kept = (p, o) ∷ s.kept;
  on_disk = delete name s.on_disk;
  bytes = s.bytes + o.size;
  dirty_bytes = s.dirty_bytes + dirty_share o;
}

-- One round of the loop over the replayed index.
unfoldable pub scan_entry : Digest → Text → Object → Scan → Scan
unfolding lose keep
scan_entry d p o s =
    let name = d.content_name p in
    elim (find name s.on_disk) [
      | none ↦ lose p o s
      | some content ↦
          if length content == o.size
          then keep name p o s
          else (let s' = lose p o s in record s' { files = delete name s'.files })
    ]

unfoldable pub scan_entries : Digest → Dict Object → Scan → Scan
unfolding scan_entry
scan_entries d [] s = s
scan_entries d ((p, o) ∷ m) s = scan_entries d m (scan_entry d p o s)

-- The files that no entry accounts for are removed.
unfoldable pub remove_files : List Text → Dict (List ℕ) → Dict (List ℕ)
remove_files [] files = files
remove_files (name ∷ names) files = remove_files names (delete name files)

unfoldable pub verify_against_disk : Digest → Dict Object → Dict (List ℕ) → Scan
unfolding scan_entries remove_files
verify_against_disk d objs files =
    let s = scan_entries d objs (record {
      kept = [];
      on_disk = files;
      files = files;
      bytes = 0;
      dirty_bytes = 0;
      lost = [];
    }) in
    record s { files = remove_files (keys s.on_disk) s.files }

abbrev pub compact_after : ℕ
compact_after = 20000

-- `openJournal`: the file as it is, with a part of a line at its end left where it is.
unfoldable pub open_journal : List Line → Bool → List Answer → Journal
open_journal lines tail answers = record {
  lines = lines;
  tail = tail;
  flushed = length lines;
  records = 0;
  syncs = 0;
  answers = answers;
}

abbrev pub path_before : Object → Object → Bool
path_before a b = text_before a.remote_path b.remote_path

-- What a directory holds when the daemon starts.
pub record Directory : Type 0 where
  pub lines : List Line
  pub tail : Bool
  pub files : Dict (List ℕ)

unfoldable pub start_journal : Directory → Dict Object → ℕ → List Answer → Journal
unfolding open_journal compact_journal text_before
start_journal dir objs records answers =
    if ltb compact_after records
    then compact_journal (sort_by path_before (values objs)) answers
    else open_journal dir.lines dir.tail answers

-- The gateway that `Open` builds from a scan.
unfoldable pub scanned_cache : Config → Journal → Scan → Cache
scanned_cache cfg j s = record {
  cfg = cfg;
  journal = j;
  objs = s.kept;
  bytes = s.bytes;
  dirty_bytes = s.dirty_bytes;
  draining = false;
  closed = false;
  hits = 0;
  misses = 0;
  flush_queue = [];
  in_flight = [];
  files = s.files;
}

-- `Open`: the gateway, and the unsent paths whose content could not be accounted for.
unfoldable pub open_cache : Digest → Config → List Answer → Directory → Cache × List Text
unfolding verify_against_disk start_journal replay_journal scanned_cache
open_cache d cfg answers dir =
    let replayed = replay_journal dir.lines dir.tail in
    let s = verify_against_disk d replayed.objects dir.files in
    let c = scanned_cache cfg (start_journal dir s.kept replayed.records answers) s in
    (if cfg.write_back then requeue_unsent c else c, s.lost)
