-- ===== src/DataCache/Rules/Keeping.antt =====
-- Unsent objects under evictions and commits (internal/datacache/store.go).
use opendrive_bridge.Common.{
  ◌≡◌, inl, inr, true, some, List, [], ◌∷◌, arith, leb, All, Option-cases, Bool-cases, if_intro,
}
use opendrive_bridge.Common.Text.{Text, text_eq, text_eq_iff}
use opendrive_bridge.Common.Dict.{find, find-insert, find-delete}
use opendrive_bridge.DataCache.Types.{unsent, Object, Cache, Digest, op_put}
use opendrive_bridge.DataCache.Index.{
  forget, forget_all, evict_if_needed, victims, high_mark, index_put,
}
use opendrive_bridge.DataCache.Writing.{
  CommitStop, tmp_sync, tmp_close, rename, dir_sync, nowhere, Writer, commit, commit_steps, enqueue,
}
use opendrive_bridge.DataCache.Flush.{enqueue_all}
use opendrive_bridge.DataCache.Moves.{accepts}
use opendrive_bridge.DataCache.Accounting.{IsAccounted}
use opendrive_bridge.DataCache.Trace.Eviction.{CleanAt, victims-CleanAt, find-forget}

-- The cache has an unsent object at the path.
abbrev pub Holding : Text → Cache → Type 0
Holding p c = (o : Object) × (find p c.objs ≡ some o) × (unsent o.state ≡ true)

pub forget-Holding :
    (d : Digest) (q p : Text) (c : Cache) → CleanAt c q → Holding p c → Holding p (forget d q c)
unfolding forget
forget-Holding d q p c h (o, f, u) = elim (Option-cases (find q c.objs)) [
  | inl e ↦ rw (e, forget) (o, f, u)
  | inr (x, e) ↦
      rw (e, forget) (o, ground (arith, find-delete q p c.objs, text_eq_iff q p, f, e, u, h x e), u)
]

pub forget_all-Holding :
    (d : Digest) (qs : List Text) (p : Text) (c : Cache)
    → All (CleanAt c) qs
    → Holding p c
    → Holding p (forget_all d qs c)
unfolding forget_all
forget_all-Holding d [] p c hs h = h
forget_all-Holding d (q ∷ qs) p c hs h =
    forget_all-Holding d qs p (forget d q c) (later qs hs.1) (forget-Holding d q p c hs.0 h)
  where
    later : (rs : List Text) → All (CleanAt c) rs → All (CleanAt (forget d q c)) rs
    later [] hs = tt
    later (r ∷ rs) hs = (λ o f. hs.0 o (find-forget d q r c o f), later rs hs.1)

-- An eviction of an accounted gateway takes no unsent object, whatever the pressure.
pub evict_keeps_unsent :
    (d : Digest) (p : Text) (c : Cache)
    → IsAccounted c
    → Holding p c
    → Holding p (evict_if_needed d c)
unfolding evict_if_needed
evict_keeps_unsent d p c a h =
    if_intro (Holding p) (leb c.bytes (high_mark c)) c (forget_all d (victims c) c) h
      (forget_all-Holding d (victims c) p c (victims-CleanAt c a) h)

pub enqueue-Holding : (q p : Text) (c : Cache) → Holding p c → Holding p (enqueue q c)
unfolding enqueue
enqueue-Holding q p c (o, f, u) = (o, ground arith, u)

pub enqueue_all-Holding :
    (qs : List Text) (p : Text) (c : Cache) → Holding p c → Holding p (enqueue_all qs c)
unfolding enqueue_all
enqueue_all-Holding [] p c h = h
enqueue_all-Holding (q ∷ qs) p c h =
    enqueue_all-Holding qs p (enqueue q c) (enqueue-Holding q p c h)

-- A commit leaves the unsent objects at other paths, and its own if that is unsent.
pub commit-Holding :
    (d : Digest) (stop : CommitStop) (w : Writer) (x : Object) (p : Text) (c : Cache)
    → (text_eq x.remote_path p ≡ true → unsent x.state ≡ true)
    → Holding p c
    → Holding p (commit d stop w x c).0
unfolding commit
commit-Holding d stop w x p c h (o, f, u) = elim (Bool-cases w.closed) [
  | inl e ↦ rw (e, commit) (o, f, u)
  | inr e ↦ rw (e, commit) (steps stop)
]
  where
    stored : Holding p (index_put x c)
    stored =
        unfold index_put in
        (elim (Bool-cases (text_eq x.remote_path p)) [
          | inl t ↦ (x, ground (arith, find-insert x.remote_path p x c.objs, t), h t)
          | inr t ↦ (o, ground (arith, find-insert x.remote_path p x c.objs, t, f), u)
        ])

    steps : (s : CommitStop) → Holding p (commit_steps d s w.buffer x c).0
    steps tmp_sync = (o, f, u)
    steps tmp_close = (o, f, u)
    steps rename = (o, f, u)
    steps dir_sync = (o, f, u)
    steps nowhere = elim (Bool-cases (accepts (op_put x) c)) [
      | inl t ↦ rw (t, commit_steps) (unfold index_put in stored)
      | inr t ↦ rw (t, commit_steps) (o, f, u)
    ]
