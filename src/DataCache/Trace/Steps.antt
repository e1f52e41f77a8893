-- ===== src/DataCache/Trace/Steps.antt =====
-- The steps of the gateway as sequences of primitive moves (internal/datacache).
use opendrive_bridge.Common.{
  refl, Bool, true, not, List, [], ◌∷◌, inl, inr, Option-cases, Bool-cases, if_intro, All,
}
use opendrive_bridge.Common.Text.{Text}
use opendrive_bridge.Common.Dict.{find}
use opendrive_bridge.DataCache.Types.{unsent, Cache, Digest}
use opendrive_bridge.DataCache.Writing.{put_object, fill_object}
use opendrive_bridge.DataCache.Flush.{enqueue_all, oldest_unsent, oldest_unsent, enqueue_all}
use opendrive_bridge.DataCache.Discard.{refresh, remove, drain_begin, close}
use opendrive_bridge.DataCache.Steps.{
  Step, read, commit_put, commit_fill, begin_flush, end_flush, refresh_path, remove_path, clear_all,
  drain_all, close_all, step, run,
}
use opendrive_bridge.DataCache.Moves.{
  clean_copy, requested, quiet, drop, Moves, here, next, Moves-one, Moves-append,
}
use opendrive_bridge.DataCache.Accounting.{IsAccounted, Moves-IsAccounted}
use opendrive_bridge.DataCache.Trace.Eviction.{clear-Moves}
use opendrive_bridge.DataCache.Trace.Commits.{
  get-Moves, enqueue_all-Moves, put_commit-Moves, commit_clean-Moves, Fits, Disk,
}
use opendrive_bridge.DataCache.Trace.Uploads.{flush_begin-Moves, flush_end-Moves}

refresh-Moves : {k : Bool} (d : Digest) (p : Text) (c : Cache) → Moves k d c (refresh d p c).0
unfolding refresh
refresh-Moves d p c = elim (Option-cases (find p c.objs)) [
  | inl e ↦ rw (e, refresh) here
  | inr (o, e) ↦ elim (Bool-cases (unsent o.state)) [
    | inl u ↦ rw (e, refresh, u) here
    | inr u ↦ rw (e, refresh, u) (Moves-one (drop p o clean_copy e u refl))
  ]
]

remove-Moves : {k : Bool} (d : Digest) (p : Text) (c : Cache) → Moves k d c (remove d p c).0
unfolding remove
remove-Moves d p c = elim (Option-cases (find p c.objs)) [
  | inl e ↦ rw (e, remove) here
  | inr (o, e) ↦ elim (Option-cases (find p c.in_flight)) [
    | inl u ↦ rw (e, remove, u) (Moves-one (drop p o requested e u refl))
    | inr (x, u) ↦ rw (e, remove, u) here
  ]
]

drain_begin-Moves : {k : Bool} (d : Digest) (c : Cache) → Moves k d c (drain_begin c)
unfolding drain_begin
drain_begin-Moves d c =
    if_intro (Moves _ d c) (not c.cfg.write_back) c
      (enqueue_all (oldest_unsent 0x100000 (record c { draining = true }))
        (record c { draining = true }))
      here
      (next (quiet c.hits c.misses c.flush_queue true c.closed refl) (
        enqueue_all-Moves d (oldest_unsent 0x100000 (record c { draining = true }))
          (record c { draining = true })))

-- A step whose writer, if it has one, holds what it counts and has a path.
abbrev pub IsSound : Digest → Step → Type 0
IsSound d (commit_put stop now pw) = Fits pw.w.buffer (put_object d now pw)
IsSound d (commit_fill stop now want w) = Fits w.buffer (fill_object d now w)
IsSound d _ = Unit

abbrev pub StepDisk : Bool → Step → Cache → Type 0
StepDisk k (commit_put stop now pw) c = Disk k stop c
StepDisk k (commit_fill stop now want w) c = Disk k stop c
StepDisk k _ c = Unit

pub step-Moves :
    {k : Bool} (d : Digest) (s : Step) (c : Cache)
    → IsAccounted c
    → IsSound d s
    → StepDisk k s c
    → Moves k d c (step d s c)
unfolding step close
step-Moves d (read opens now p) c a h g = get-Moves d opens now p c
step-Moves d (commit_put stop now pw) c a h g = put_commit-Moves d stop now pw c a h g
step-Moves d (commit_fill stop now want w) c a h g = commit_clean-Moves d stop now want w c a h g
step-Moves d (begin_flush opens p) c a h g = flush_begin-Moves d opens p c
step-Moves d (end_flush p r) c a h g = flush_end-Moves d p r c a
step-Moves d (refresh_path p) c a h g = refresh-Moves d p c
step-Moves d (remove_path p) c a h g = remove-Moves d p c
step-Moves d clear_all c a h g = clear-Moves d c a
step-Moves d drain_all c a h g = drain_begin-Moves d c
step-Moves d close_all c a h g =
    Moves-one (quiet c.hits c.misses c.flush_queue c.draining true refl)

any_Disk : (s : Step) (c : Cache) → StepDisk true s c
any_Disk (commit_put stop now pw) c = inl refl
any_Disk (commit_fill stop now want w) c = inl refl
any_Disk (read opens now p) c = tt
any_Disk (begin_flush opens p) c = tt
any_Disk (end_flush p r) c = tt
any_Disk (refresh_path p) c = tt
any_Disk (remove_path p) c = tt
any_Disk clear_all c = tt
any_Disk drain_all c = tt
any_Disk close_all c = tt

-- A run of sound steps is a sequence of moves, whatever the journal and the disk answer.
pub run-Moves :
    (d : Digest) (ss : List Step) (c : Cache)
    → IsAccounted c
    → All (IsSound d) ss
    → Moves true d c (run d ss c)
unfolding run
run-Moves d [] c a hs = here
run-Moves d (s ∷ ss) c a hs =
    let ms : Moves true d c (step d s c) = step-Moves d s c a hs.0 (any_Disk s c) in
    Moves-append ms (run-Moves d ss (step d s c) (Moves-IsAccounted ms a) hs.1)

-- In every run from an accounted state whose writers hold what they count, whatever the journal and
-- the disk answer, the two byte counters stay the sums over
-- the objects of the index and over its unsent ones, and each object stands under its own path.
pub run-IsAccounted :
    (d : Digest) (ss : List Step) (c : Cache)
    → IsAccounted c
    → All (IsSound d) ss
    → IsAccounted (run d ss c)
run-IsAccounted d ss c a hs = Moves-IsAccounted (run-Moves d ss c a hs) a
