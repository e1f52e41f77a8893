-- ===== src/DataCache/Steps.antt =====
-- The gateway as a state machine. Every call of the package's users, and every leg of a flush
-- worker, is a step; a run is any sequence of steps, so it stands for any interleaving of them.
use opendrive_bridge.Common.{ℕ, Bool, List, [], ◌∷◌}
use opendrive_bridge.Common.Text.{Text}
use opendrive_bridge.DataCache.Types.{Cache, Digest}
use opendrive_bridge.DataCache.Index.{get}
use opendrive_bridge.DataCache.Writing.{Writer, CommitStop, PutWriter, put_commit, commit_clean}
use opendrive_bridge.DataCache.Flush.{UploadResult, flush_begin, flush_end}
use opendrive_bridge.DataCache.Discard.{refresh, remove, clear, drain_begin, close}

pub data Step : Type 0 where
  -- a read, with whether its content file opens, and the time
  read : Bool → ℕ → Text → Step
  -- a write-back write is committed, and a fill is
  commit_put : CommitStop → ℕ → PutWriter → Step
  commit_fill : CommitStop → ℕ → Text → Writer → Step
  -- an upload starts, with whether its content file opens, and one returns
  begin_flush : Bool → Text → Step
  end_flush : Text → UploadResult → Step
  refresh_path : Text → Step
  remove_path : Text → Step
  clear_all : Step
  drain_all : Step
  close_all : Step

unfoldable pub step : Digest → Step → Cache → Cache
step d (read opens now p) c = (get d opens now p c).0
step d (commit_put stop now pw) c = (put_commit d stop now pw c).0
step d (commit_fill stop now want w) c = (commit_clean d stop now want w c).0
step d (begin_flush opens p) c = (flush_begin d opens p c).0
step d (end_flush p r) c = flush_end d p r c
step d (refresh_path p) c = (refresh d p c).0
step d (remove_path p) c = (remove d p c).0
step d clear_all c = (clear d c).0
step d drain_all c = drain_begin c
step d close_all c = close c

unfoldable pub run : Digest → List Step → Cache → Cache
unfolding step
run d [] c = c
run d (s ∷ ss) c = run d ss (step d s c)
