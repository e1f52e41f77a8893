-- ===== src/DataCache/Rules/Acknowledged.antt =====
-- The life of an unsent object over the runs of the gateway (internal/datacache).
use opendrive_bridge.Common.{
  ◌≡◌, refl, ◌∙◌, inl, inr, true, false, not, some, List, [], ◌∷◌, arith, filter, length, ltb, All,
  Option-cases, Bool-cases, if_intro,
}
use opendrive_bridge.Common.Text.{Text, text_eq}
use opendrive_bridge.Common.Dict.{Dict, find, values, find-delete}
use opendrive_bridge.DataCache.Types.{unsent, Object, Cache, Digest}
use opendrive_bridge.DataCache.Index.{forget}
use opendrive_bridge.DataCache.Flush.{uploaded, enqueue_all, oldest_unsent}
use opendrive_bridge.DataCache.Discard.{refresh, remove, clear, drain_begin, close}
use opendrive_bridge.DataCache.Steps.{
  Step, read, commit_put, commit_fill, begin_flush, end_flush, refresh_path, remove_path, clear_all,
  drain_all, close_all, step, run,
}
use opendrive_bridge.DataCache.Moves.{Moves}
use opendrive_bridge.DataCache.Accounting.{IsAccounted, Moves-IsAccounted}
use opendrive_bridge.DataCache.Trace.Steps.{IsSound}
use opendrive_bridge.DataCache.Recovery.Contents.{HasContents, IsCalm, Move-HasContents, calm-Disk}
use opendrive_bridge.DataCache.Recovery.Scan.{IsInjective}
use opendrive_bridge.DataCache.Recovery.Runs.{IsRecorded}
use opendrive_bridge.DataCache.Recovery.Invariant.{Moves-IsRecorded}
use opendrive_bridge.DataCache.Trace.Steps.{step-Moves}
use opendrive_bridge.DataCache.Moves.{Moves-keep}
use opendrive_bridge.DataCache.Rules.Survival.{
  put_commit-Holding, commit_clean-Holding, get-Holding, flush_begin-Holding, flush_end-Holding,
}
use opendrive_bridge.DataCache.Rules.Keeping.{Holding, forget-Holding, enqueue_all-Holding}

-- What a step must not do to the object at a path: an open that fails, a fill of the path, a
-- confirmed upload of it, a removal of it.
abbrev pub Spares : Text → Step → Type 0
Spares p (read opens now q) = opens ≡ true
Spares p (commit_put stop now pw) = Unit
Spares p (commit_fill stop now want w) = text_eq w.path p ≡ false
Spares p (begin_flush opens q) = opens ≡ true
Spares p (end_flush q r) = (hash : Text) → r ≡ uploaded hash → text_eq q p ≡ false
Spares p (remove_path q) = text_eq q p ≡ false
Spares p _ = Unit

refresh-Holding : (d : Digest) (q p : Text) (c : Cache) → Holding p c → Holding p (refresh d q c).0
unfolding refresh
refresh-Holding d q p c h = elim (Option-cases (find q c.objs)) [
  | inl e ↦ rw (e, refresh) h
  | inr (x, e) ↦ elim (Bool-cases (unsent x.state)) [
    | inl u ↦ rw (e, refresh, u) h
    | inr u ↦ rw (e, refresh, u) (forget-Holding d q p c (λ y g. cc (g, e, u)) h)
  ]
]

find-forget_ne :
    (d : Digest) (q p : Text) (c : Cache)
    → text_eq q p ≡ false
    → find p (forget d q c).objs ≡ find p c.objs
unfolding forget
find-forget_ne d q p c ne = elim (Option-cases (find q c.objs)) [
  | inl e ↦ rw (e, forget) refl
  | inr (x, e) ↦ rw (e, forget) (ground (arith, find-delete q p c.objs, ne))
]

remove-Holding :
    (d : Digest) (q p : Text) (c : Cache)
    → text_eq q p ≡ false
    → Holding p c
    → Holding p (remove d q c).0
unfolding remove
remove-Holding d q p c ne (o, f, u) = elim (Option-cases (find q c.objs)) [
  | inl e ↦ rw (e, remove) (o, f, u)
  | inr (x, e) ↦ elim (Option-cases (find q c.in_flight)) [
    | inl i ↦ rw (e, remove, i) (o, find-forget_ne d q p c ne ∙ f, u)
    | inr (y, i) ↦ rw (e, remove, i) (o, f, u)
  ]
]

-- One unsent object makes the count of them positive.
count_unsent :
    (p : Text) (m : Dict Object) (o : Object)
    → find p m ≡ some o
    → unsent o.state ≡ true
    → ltb 0 (length (filter (λ (x : Object). unsent x.state) (values m))) ≡ true
unfolding find
count_unsent p [] o f u = cc
count_unsent p ((j, w) ∷ m) o f u = ground (arith, count_unsent p m o)

pub clear-Holding : (d : Digest) (p : Text) (c : Cache) → Holding p c → (clear d c).0 ≡ c
unfolding clear
clear-Holding d p c (o, f, u) = rw (count_unsent p c.objs o f u, clear) refl

drain_begin-Holding : (p : Text) (c : Cache) → Holding p c → Holding p (drain_begin c)
unfolding drain_begin
drain_begin-Holding p c h =
    if_intro (Holding p) (not c.cfg.write_back) c
      (enqueue_all (oldest_unsent 0x100000 (record c { draining = true }))
        (record c { draining = true }))
      h
      (enqueue_all-Holding (oldest_unsent 0x100000 (record c { draining = true })) p
        (record c { draining = true }) h)

step-Holding :
    (d : Digest) (s : Step) (p : Text) (c : Cache)
    → IsAccounted c
    → HasContents d c
    → IsSound d s
    → Spares p s
    → Holding p c
    → Holding p (step d s c)
unfolding step close
step-Holding d (read opens now q) p c a hc g v h = rw v (get-Holding d now q p c hc h)
step-Holding d (commit_put stop now pw) p c a hc g v h = put_commit-Holding d stop now pw p c a g h
step-Holding d (commit_fill stop now want w) p c a hc g v h =
    commit_clean-Holding d stop now want w p c a g v h
step-Holding d (begin_flush opens q) p c a hc g v h = rw v (flush_begin-Holding d q p c hc h)
step-Holding d (end_flush q r) p c a hc g v h = flush_end-Holding d q r p c a v h
step-Holding d (refresh_path q) p c a hc g v h = refresh-Holding d q p c h
step-Holding d (remove_path q) p c a hc g v h = remove-Holding d q p c v h
step-Holding d clear_all p c a hc g v h = rw (clear-Holding d p c h) h
step-Holding d drain_all p c a hc g v h = drain_begin-Holding p c h
step-Holding d close_all p c a hc g v h = h

-- Take collision-free file names, and any run from a good state in which the journal takes every
-- record, no directory sync fails, no open of a content file
-- fails, and the path is neither filled, nor removed by its user, nor confirmed as uploaded. An
-- unsent object that was at the path is followed by an unsent object there.
pub unsent_survives :
    (d : Digest)
    → IsInjective d
    → (ss : List Step) (p : Text) (c : Cache) → IsAccounted c
    → IsRecorded c
    → HasContents d c
    → All (λ s. IsSound d s × IsCalm s × Spares p s) ss
    → Holding p c
    → Holding p (run d ss c)
unfolding run
unsent_survives d inj [] p c a r hc hs h = h
unsent_survives d inj (s ∷ ss) p c a r hc hs h =
    let ms : Moves false d c (step d s c) = step-Moves d s c a hs.0.0 (calm-Disk s c hs.0.1 r) in
    unsent_survives d inj ss p (step d s c) (Moves-IsAccounted ms a) (Moves-IsRecorded ms r)
      (Moves-keep (HasContents d) (Move-HasContents d inj) ms hc) hs.1
      (step-Holding d s p c a hc hs.0.0 hs.0.2 h)
