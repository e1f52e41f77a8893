-- ===== src/DataCache/Tests/Runs.antt =====
-- Runs of the gateway at concrete inputs (internal/datacache).
use opendrive_bridge.Common.{◌≡◌, refl, true, false, none, some, [], ◌∷◌, arith}
use opendrive_bridge.Common.Text.{codes, text_eq}
use opendrive_bridge.Common.Sort.{sort_by}
use opendrive_bridge.Common.Dict.{find, insert, delete}
use opendrive_bridge.DataCache.Types.{Object, unsent}
use opendrive_bridge.DataCache.Writing.{put_commit, commit_clean, commit}
use opendrive_bridge.DataCache.Index.{evict_if_needed}
use opendrive_bridge.DataCache.Flush.{requeue_unsent}
use opendrive_bridge.DataCache.Journal.{append}
use opendrive_bridge.DataCache.Startup.{open_cache}
use opendrive_bridge.DataCache.Steps.{run}
use opendrive_bridge.DataCache.Accounting.{IsAccounted}
use opendrive_bridge.DataCache.Trace.Steps.{run-IsAccounted}
use opendrive_bridge.DataCache.Recovery.Records.{seen}
use opendrive_bridge.DataCache.Recovery.Reopen.{crashed, crash_recovery}
use opendrive_bridge.DataCache.Rules.Keeping.{Holding, evict_keeps_unsent}
use opendrive_bridge.DataCache.Rules.Acknowledged.{unsent_survives}
use opendrive_bridge.DataCache.Status.{status, children_of}
use opendrive_bridge.DataCache.Tests.{
  first, plain, plain-IsInjective, small, fresh, path_a, fresh-IsAccounted, fresh-IsRecorded,
  fresh-HasContents, day, day-good, day-IsCalm, day-IsSound, second, day-found, with_a,
  with_a-Holding, with_a-IsAccounted, with_a-IsRecorded, with_a-HasContents, crowded,
}

open_cache_test :
    (open_cache plain small [] (record { lines = []; tail = false; files = [] })).0 ≡ fresh
unfolding open_cache requeue_unsent sort_by
open_cache_test = refl

run-IsAccounted_example : IsAccounted (run plain day fresh)
run-IsAccounted_example = run-IsAccounted plain day fresh fresh-IsAccounted day-IsSound

crash_recovery_example :
    (o : Object) × (find path_a
        (open_cache plain small []
          (crashed (run plain day fresh) (run plain day fresh).journal.flushed true)).0.objs
      ≡ some o)
    × (seen (some o) ≡ seen (some second))
crash_recovery_example =
    crash_recovery plain plain-IsInjective day fresh fresh-IsAccounted fresh-IsRecorded
      fresh-HasContents day-IsCalm (run plain day fresh).journal.flushed true (omega arith) small []
      path_a second day-found

unsent_survives_example : Holding path_a (run plain day with_a)
unsent_survives_example =
    unsent_survives plain plain-IsInjective day path_a with_a with_a-IsAccounted with_a-IsRecorded
      with_a-HasContents day-good with_a-Holding

evict_keeps_unsent_example : Holding path_a (evict_if_needed plain crowded)
unfolding crowded
evict_keeps_unsent_example =
    evict_keeps_unsent plain path_a crowded with_a-IsAccounted with_a-Holding

eviction_test : find (codes "/b") (evict_if_needed plain crowded).objs ≡ none
unfolding crowded with_a run evict_if_needed find commit_clean commit append put_commit insert
    text_eq sort_by delete
eviction_test = refl

status_test : ((status with_a).safe_to_shut_down ≡ false) × ((status with_a).dirty_objects ≡ 1)
unfolding with_a run commit_clean commit append put_commit evict_if_needed insert text_eq find
    status unsent
status_test = (refl, refl)

children_test :
    children_of (first ∷ record first { remote_path = codes "/d/x" } ∷ []) (codes "/")
    ≡ (first ∷ [], codes "d" ∷ [])
unfolding children_of first
children_test = refl
