-- ===== src/DataCache/Tests.antt =====
-- Tests of the caching gateway at concrete inputs: the gateways, writers and runs (internal/datacache).
mod Runs
mod Limits
use opendrive_bridge.Common.{
  ℕ, zero, suc, ◌+◌, ◌≡◌, refl, ap, take, Bool, true, false, Option, none, some, List, [], ◌∷◌,
  arith, inl, inr, All, length,
}
use opendrive_bridge.Common.Text.{Text, codes, text_eq}
use opendrive_bridge.Common.Sort.{sort_by}
use opendrive_bridge.Common.Dict.{find, insert, delete}
use opendrive_bridge.DataCache.Types.{
  State, dirty, uploading, clean, unsent, Object, Journal, Config, Cache, Digest, Result, ok, err,
  err_dirty, io_error, not_cached, whole, op_put, Line,
}
use opendrive_bridge.DataCache.Writing.{
  Writer, PutRequest, PutWriter, nowhere, dir_sync, put_object, put_commit, commit_clean,
  new_writer, write, commit, fill_object, queue_capacity, tmp_sync,
}
use opendrive_bridge.DataCache.Index.{get, evict_if_needed}
use opendrive_bridge.DataCache.Flush.{
  flush_begin, flush_end, uploaded, failed, UploadError, requeue_unsent, hash_fits, sendable,
}
use opendrive_bridge.DataCache.Discard.{refresh, clear}
use opendrive_bridge.DataCache.Journal.{replay_journal, append}
use opendrive_bridge.DataCache.Startup.{open_cache, open_journal}
use opendrive_bridge.DataCache.Steps.{
  Step, commit_put, commit_fill, begin_flush, end_flush, read, clear_all, run, step,
}
use opendrive_bridge.DataCache.Accounting.{IsAccounted}
use opendrive_bridge.DataCache.Trace.Steps.{IsSound, run-IsAccounted}
use opendrive_bridge.DataCache.Recovery.Records.{Agree, seen, stale_record_ignored}
use opendrive_bridge.DataCache.Recovery.Runs.{IsRecorded, replayed}
use opendrive_bridge.DataCache.Recovery.Invariant.{run-IsRecorded}
use opendrive_bridge.DataCache.Recovery.Scan.{IsInjective}
use opendrive_bridge.DataCache.Recovery.Contents.{HasContents, IsCalm, run-HasContents}
use opendrive_bridge.DataCache.Recovery.Reopen.{crashed, crash_recovery}
use opendrive_bridge.DataCache.Rules.Keeping.{Holding, evict_keeps_unsent}
use opendrive_bridge.DataCache.Rules.Acknowledged.{Spares, unsent_survives}
use opendrive_bridge.DataCache.Rules.Limits.{
  discards_refuse_unsent, superseded_upload, write_all, admitted_within_allowance,
}
use opendrive_bridge.DataCache.Rules.Losses.{
  failed_open_discards, failed_rewrite_deletes, fill_overwrites, append_all, torn_tail_hides,
}

-- Names and digests that are the text and the bytes themselves.
abbrev pub plain : Digest
plain = record { content_name = λ p. p; md5_hex = λ b. b }

pub plain-IsInjective : IsInjective plain
plain-IsInjective p q h = h

abbrev pub small : Config
small = record {
  max_bytes = 10;
  max_dirty_bytes = 8;
  high_watermark = 90;
  low_watermark = 50;
  write_back = true;
}

-- The gateway on an empty directory.
abbrev pub fresh : Cache
fresh = record {
  cfg = small;
  journal = record { lines = []; tail = false; flushed = 0; records = 0; syncs = 0; answers = [] };
  objs = [];
  bytes = 0;
  dirty_bytes = 0;
  draining = false;
  closed = false;
  hits = 0;
  misses = 0;
  flush_queue = [];
  in_flight = [];
  files = [];
}

abbrev pub path_a : Text
path_a = codes "/a"

abbrev pub put_a : PutWriter
put_a = record {
  w = record { path = path_a; buffer = 1 ∷ 2 ∷ 3 ∷ []; n = 3; limit = 8; closed = false };
  req = record { remote_path = path_a; folder_id = codes "0"; name = codes "a"; size = 3 };
}

abbrev pub put_more : PutWriter
put_more = record {
  w = record { path = path_a; buffer = 4 ∷ 5 ∷ []; n = 2; limit = 8; closed = false };
  req = record { remote_path = path_a; folder_id = codes "0"; name = codes "a"; size = 2 };
}

pub no_object : {A : Type 0} (p : Text) (o : Object) → find p [] ≡ some o → A
unfolding find
no_object p o f = absurd (cc f)

pub fresh-IsAccounted : IsAccounted fresh
fresh-IsAccounted = record {
  distinct = tt;
  bytes_exact = refl;
  dirty_exact = refl;
  keyed = λ p o f. no_object p o f;
}

pub none_left : (t : Bool) (n : ℕ) → replayed t (take n []) ≡ []
unfolding replay_journal
none_left t zero = refl
none_left t (suc n) = refl

pub fresh-IsRecorded : IsRecorded fresh
fresh-IsRecorded = record {
  reliable = (refl, refl);
  wholes = tt;
  within = omega arith;
  agrees = λ t n h. record { at = λ p. ap (λ x. seen (find p x)) (none_left t n) };
}

pub fresh-HasContents : HasContents plain fresh
fresh-HasContents = record { at = λ p o f. no_object p o f }

abbrev pub offline : UploadError
offline = record { text = codes "timeout"; is_api_error = false; diagnosis = []; upstream_msg = [] }

-- A write, an upload of it that fails, and a second write.
abbrev pub day : List Step
day =
    commit_put nowhere 100 put_a
    ∷ begin_flush true path_a
    ∷ end_flush path_a (failed offline)
    ∷ commit_put nowhere 200 put_more
    ∷ []

pub day-good : All (λ s. IsSound plain s × IsCalm s × Spares path_a s) day
unfolding put_object
day-good = (
  ((refl, refl), (λ h. cc h), tt),
  ((tt, tt, refl), ((tt, tt, λ hash h. cc h), (((refl, refl), (λ h. cc h), tt), tt))),
)

pub day-IsCalm : All (λ s. IsSound plain s × IsCalm s) day
unfolding put_object
day-IsCalm = (((refl, refl), λ h. cc h), ((tt, tt), ((tt, tt), (((refl, refl), λ h. cc h), tt))))

pub day-IsSound : All (IsSound plain) day
unfolding put_object
day-IsSound = ((refl, refl), (tt, (tt, ((refl, refl), tt))))

abbrev pub second : Object
unfolding put_object
second = put_object plain 200 put_more

pub day-found : find path_a (run plain day fresh).objs ≡ some second
unfolding run second find put_commit commit append flush_end flush_begin evict_if_needed insert
    text_eq
day-found = refl

-- An unsent object beside a clean one.
abbrev pub fill_b : Writer
fill_b = record { path = codes "/b"; buffer = 7 ∷ 8 ∷ 9 ∷ []; n = 3; limit = 0; closed = false }

abbrev pub morning : List Step
morning = commit_put nowhere 100 put_a ∷ commit_fill nowhere 150 [] fill_b ∷ []

pub morning-IsSound : All (IsSound plain) morning
unfolding put_object fill_object
morning-IsSound = ((refl, refl), ((refl, refl), tt))

pub morning-IsCalm : All (λ s. IsSound plain s × IsCalm s) morning
unfolding put_object fill_object
morning-IsCalm = (((refl, refl), λ h. cc h), (((refl, refl), λ h. cc h), tt))

abbrev pub first : Object
unfolding put_object
first = put_object plain 100 put_a

abbrev pub with_a : Cache
unfolding run
with_a = run plain morning fresh

pub with_a-found : find path_a with_a.objs ≡ some first
unfolding with_a run first find commit_clean commit append put_commit evict_if_needed insert text_eq
with_a-found = refl

pub with_a-Holding : Holding path_a with_a
unfolding first unsent
with_a-Holding = (first, with_a-found, refl)

pub with_a-IsAccounted : IsAccounted with_a
unfolding with_a
with_a-IsAccounted = run-IsAccounted plain morning fresh fresh-IsAccounted morning-IsSound

pub with_a-IsRecorded : IsRecorded with_a
unfolding with_a
with_a-IsRecorded =
    run-IsRecorded plain morning fresh fresh-IsAccounted fresh-IsRecorded morning-IsSound

pub with_a-HasContents : HasContents plain with_a
unfolding with_a
with_a-HasContents =
    run-HasContents plain plain-IsInjective morning fresh fresh-IsAccounted fresh-IsRecorded
      morning-IsCalm fresh-HasContents

-- The same gateway on a directory that may hold two bytes.
abbrev pub crowded : Cache
unfolding with_a
crowded = record with_a { cfg = record small { max_bytes = 2 } }
