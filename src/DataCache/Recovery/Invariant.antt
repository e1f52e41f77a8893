-- ===== src/DataCache/Recovery/Invariant.antt =====
-- The journal against the index, over the runs of the gateway (internal/datacache).
use opendrive_bridge.Common.{Bool, List, All}
use opendrive_bridge.DataCache.Types.{op_put, op_drop, Cache, Digest}
use opendrive_bridge.DataCache.Index.{index_put, forget}
use opendrive_bridge.DataCache.Moves.{
  Move, quiet, claim, let_go, reject, glance, log_touch, store, spoil, drop, change, Moves,
  Moves-keep, state_record,
}
use opendrive_bridge.DataCache.Flush.{change_to}
use opendrive_bridge.DataCache.Accounting.{IsAccounted}
use opendrive_bridge.DataCache.Steps.{Step, run}
use opendrive_bridge.DataCache.Trace.Commits.{accepts_of_IsReliable}
use opendrive_bridge.DataCache.Trace.Steps.{IsSound, run-Moves}
use opendrive_bridge.DataCache.Recovery.Records.{put-Agree, drop-Agree, glance-Agree, state-Agree}
use opendrive_bridge.DataCache.Recovery.Runs.{
  IsRecorded, flushed-Recorded, touched-Recorded, moved-Recorded,
}

pub Move-IsRecorded :
    {k : Bool} {d : Digest} (c c' : Cache) → Move k d c c' → IsRecorded c → IsRecorded c'
unfolding index_put forget
Move-IsRecorded c c' (quiet h m q dr cl e) r = rw e r
Move-IsRecorded c c' (claim p o f e) r = rw e r
Move-IsRecorded c c' (let_go p e) r = rw e r
Move-IsRecorded c c' (reject rec f e) r = cc (f, accepts_of_IsReliable rec c r.reliable)
Move-IsRecorded c c' (glance p o now f e) r =
    rw e (moved-Recorded _ r (λ x g. glance-Agree p o now f g))
Move-IsRecorded c c' (log_touch p now e) r = rw e (touched-Recorded p now r)
Move-IsRecorded c c' (store content o s n f e) r =
    rw e (flushed-Recorded (op_put o) _ r (λ x g. put-Agree o n g))
Move-IsRecorded c c' (spoil p content t e) r = rw e r
Move-IsRecorded c c' (drop p o g f h e) r =
    rw e (rw (f, forget) (flushed-Recorded (op_drop p) _ r (λ x g. drop-Agree p g)))
Move-IsRecorded c c' (change p o x st reason attempts f g v w t e) r = rw e (
    flushed-Recorded (state_record p (change_to st reason attempts x)) _ r
      (λ y h. state-Agree p o (change_to st reason attempts x) f v h))

pub Moves-IsRecorded :
    {k : Bool} {d : Digest} {c c' : Cache} → Moves k d c c' → IsRecorded c → IsRecorded c'
Moves-IsRecorded = Moves-keep IsRecorded Move-IsRecorded

pub run-IsRecorded :
    (d : Digest) (ss : List Step) (c : Cache)
    → IsAccounted c
    → IsRecorded c
    → All (IsSound d) ss
    → IsRecorded (run d ss c)
run-IsRecorded d ss c a r hs = Moves-IsRecorded (run-Moves d ss c a hs) r
