-- ===== src/DataCache/Tests/Limits.antt =====
-- Refusals, limits and losses at concrete inputs (internal/datacache).
use opendrive_bridge.Common.{
  ℕ, ◌≡◌, refl, ◌++◌, ◌≤◌, ◌<◌, true, false, Option, none, some, List, [], ◌∷◌, arith, take,
}
use opendrive_bridge.Common.Text.{Text, codes, text_eq}
use opendrive_bridge.Common.Dict.{find, insert}
use opendrive_bridge.DataCache.Types.{
  Object, unsent, Cache, Config, clean, ok, err, io_error, not_cached, whole, op_put,
}
use opendrive_bridge.DataCache.Path.{equal_fold}
use opendrive_bridge.DataCache.Writing.{
  Writer, nowhere, dir_sync, put_commit, commit_clean, new_writer, write, commit, fill_object,
}
use opendrive_bridge.DataCache.Index.{get, vanished, forget, high_mark, evict_if_needed}
use opendrive_bridge.DataCache.Flush.{flush_begin, flush_end, uploaded, sendable}
use opendrive_bridge.DataCache.Journal.{append}
use opendrive_bridge.DataCache.Settings.{
  Settings, settled_as, filled_in, with_defaults, default_low_stalls,
}
use opendrive_bridge.DataCache.Startup.{open_journal}
use opendrive_bridge.DataCache.Steps.{commit_put, begin_flush, run}
use opendrive_bridge.DataCache.Recovery.Runs.{replayed}
use opendrive_bridge.DataCache.Rules.Limits.{
  superseded_upload, write_all, admitted_within_allowance,
}
use opendrive_bridge.DataCache.Rules.Losses.{
  failed_open_discards, failed_rewrite_deletes, fill_overwrites, append_all, torn_tail_hides,
}
use opendrive_bridge.DataCache.Rules.Concurrent.{two_writers_exceed}
use opendrive_bridge.DataCache.Tests.{
  fresh-IsRecorded, plain, fresh, path_a, put_a, put_more, fresh-IsAccounted, second, first, with_a,
  with_a-found, with_a-IsRecorded,
}

-- A second write that lands while an upload of the first runs.
abbrev overtaken : Cache
unfolding run
overtaken =
    run plain
      (commit_put nowhere 100 put_a
        ∷ begin_flush true path_a
        ∷ commit_put nowhere 200 put_more
        ∷ [])
      fresh

superseded_upload_example :
    let c = flush_end plain path_a (uploaded (1 ∷ 2 ∷ 3 ∷ [])) overtaken in
    (c.objs ≡ overtaken.objs)
    × (c.journal ≡ overtaken.journal)
    × (c.dirty_bytes ≡ overtaken.dirty_bytes)
    × (find path_a c.in_flight ≡ none)
    × (c.flush_queue ≡ overtaken.flush_queue ++ (path_a ∷ []))
unfolding overtaken run first second find put_commit commit append flush_begin evict_if_needed
    insert text_eq equal_fold
superseded_upload_example =
    superseded_upload plain path_a (1 ∷ 2 ∷ 3 ∷ []) second first overtaken refl refl refl refl refl
      (omega arith)

abbrev admitted_a : Writer
admitted_a = record { path = path_a; buffer = []; n = 0; limit = 8; closed = false }

-- Three bytes that go through, and six that would pass the limit.
abbrev pieces : List (Option ℕ × List ℕ)
pieces = (none, 1 ∷ 2 ∷ 3 ∷ []) ∷ (none, 4 ∷ 5 ∷ 6 ∷ 7 ∷ 8 ∷ 9 ∷ []) ∷ []

admitted_within_allowance_example :
    (commit plain nowhere (write_all pieces admitted_a) first fresh).0.dirty_bytes ≤ 8
unfolding first new_writer find write_all write
admitted_within_allowance_example =
    admitted_within_allowance plain true path_a 3 fresh admitted_a pieces nowhere first
      fresh-IsAccounted (omega arith) refl refl refl

failed_open_discards_example :
    let c = (get plain false 300 path_a with_a).0 in
    ((get plain true 300 path_a with_a).1 ≡ ok (record first { last_access = 300 }, 1 ∷ 2 ∷ 3 ∷ []))
    × (find path_a c.files ≡ none)
    × ((get plain true 400 path_a c).1 ≡ err not_cached)
    × (flush_begin plain true path_a c ≡ (c, none))
    × (find path_a (replayed true (take 9 c.journal.lines)) ≡ none)
unfolding with_a run first find commit_clean commit append put_commit evict_if_needed get vanished
    forget insert text_eq unsent
failed_open_discards_example =
    failed_open_discards plain 300 400 path_a first (1 ∷ 2 ∷ 3 ∷ []) with_a with_a-IsRecorded
      with_a-found refl refl true 9 (omega arith)

failed_rewrite_deletes_example :
    let r = put_commit plain dir_sync 200 put_more with_a in
    (r.1 ≡ err io_error)
    × (r.0.objs ≡ with_a.objs)
    × ((get plain true 300 path_a r.0).1 ≡ err not_cached)
failed_rewrite_deletes_example =
    failed_rewrite_deletes plain 200 300 put_more first with_a refl with_a-found

abbrev fill_a : Writer
fill_a = record { path = path_a; buffer = 7 ∷ []; n = 1; limit = 0; closed = false }

fill_overwrites_example :
    let c = (commit plain nowhere fill_a (fill_object plain 300 fill_a) with_a).0 in
    (find path_a c.objs ≡ some (fill_object plain 300 fill_a)) × (sendable path_a c ≡ none)
fill_overwrites_example = fill_overwrites plain 300 fill_a with_a refl with_a-IsRecorded.reliable

torn_tail_hides_example :
    replayed false
      (append_all (op_put second ∷ []) (open_journal (whole (op_put first) ∷ []) true [])).lines
    ≡ replayed true (whole (op_put first) ∷ [])
torn_tail_hides_example = torn_tail_hides (whole (op_put first) ∷ []) (op_put second) [] false

-- An eviction that is to start at half of the allowance, and nothing said of where it stops.
abbrev half : Settings
half = record {
  has_dir = true;
  max_bytes = 100;
  max_dirty_bytes = 50;
  high_watermark = 50;
  low_watermark = 0;
  write_back = true;
  has_upstream = true;
}

abbrev half_config : Config
half_config = record {
  max_bytes = 100;
  max_dirty_bytes = 50;
  high_watermark = 50;
  low_watermark = 70;
  write_back = true;
}

-- Sixty bytes, all of them clean.
abbrev half_full : Cache
unfolding first
half_full = record fresh {
  cfg = half_config;
  objs = (path_a, record first { size = 60; state = clean }) ∷ [];
  bytes = 60;
}

default_low_stalls_example :
    (with_defaults half ≡ settled_as half_config)
    × (high_mark half_full < 60)
    × (evict_if_needed plain half_full ≡ half_full)
unfolding with_defaults filled_in half_full
default_low_stalls_example =
    default_low_stalls plain half half_full refl refl (omega arith) (omega arith) (omega arith)
      (omega arith) refl refl (omega arith) (omega arith)

-- Two writes of eight bytes each, into an allowance of eight.
abbrev path_b : Text
path_b = codes "/b"

abbrev eight : List ℕ
eight = 1 ∷ 2 ∷ 3 ∷ 4 ∷ 5 ∷ 6 ∷ 7 ∷ 8 ∷ []

abbrev full_writer : Text → Writer
full_writer p = record { path = p; buffer = eight; n = 8; limit = 8; closed = false }

abbrev eight_at : Text → Object
unfolding first
eight_at p = record first { remote_path = p; size = 8 }

two_writers_exceed_example :
    8
    < (commit plain nowhere
        (full_writer path_b)
        (eight_at path_b)
        (commit plain nowhere (full_writer path_a) (eight_at path_a) fresh).0).0.dirty_bytes
unfolding find text_eq new_writer unsent eight_at first
two_writers_exceed_example =
    two_writers_exceed plain fresh path_a path_b 8 8 admitted_a
      (record admitted_a { path = path_b }) (full_writer path_a) (full_writer path_b)
      (eight_at path_a) (eight_at path_b) fresh-IsRecorded.reliable (omega arith) refl refl refl
      refl refl (refl, refl, refl, refl) (refl, refl, refl, refl)
