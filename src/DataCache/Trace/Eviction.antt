-- ===== src/DataCache/Trace/Eviction.antt =====
-- The eviction and the clearing of the cache as moves (internal/datacache/store.go, writeback.go).
use opendrive_bridge.Common.{
  ℕ, ◌-◌, ◌≡◌, refl, Bool, true, false, not, none, some, List, [], ◌∷◌, arith, inl, inr,
  Option-cases, Bool-cases, filter, filter-All, map-All, All, leb, ltb, length, if_intro,
}
use opendrive_bridge.Common.Text.{Text, text_eq_iff}
use opendrive_bridge.Common.Dict.{find, find-delete, values}
use opendrive_bridge.Common.Sort.{sort_by-All}
use opendrive_bridge.DataCache.Types.{unsent, Object, Cache, Digest}
use opendrive_bridge.DataCache.Index.{
  forget, evict_if_needed, forget_all, victims, doom, candidates, is_clean, used_before, high_mark,
  low_mark,
}
use opendrive_bridge.DataCache.Discard.{clear}
use opendrive_bridge.DataCache.Moves.{clean_copy, drop, Moves, here, next}
use opendrive_bridge.DataCache.Accounting.{IsAccounted, values-at_own_path}

-- Whatever stands at the path is upstream.
abbrev pub CleanAt : Cache → Text → Type 0
CleanAt c p = (o : Object) → find p c.objs ≡ some o → unsent o.state ≡ false

pub forget-absent : (d : Digest) (p : Text) (c : Cache) → find p c.objs ≡ none → forget d p c ≡ c
unfolding forget
forget-absent d p c e = rw (e, forget)

-- Forgetting one path leaves what the index has at the others.
pub find-forget :
    (d : Digest) (p q : Text) (c : Cache) (o : Object)
    → find q (forget d p c).objs ≡ some o
    → find q c.objs ≡ some o
unfolding forget
find-forget d p q c o f = ground (arith, find-delete p q c.objs, text_eq_iff p q)

All-CleanAt-forget :
    (d : Digest) (p : Text) (c : Cache) (qs : List Text)
    → All (CleanAt c) qs
    → All (CleanAt (forget d p c)) qs
All-CleanAt-forget d p c [] hs = tt
All-CleanAt-forget d p c (q ∷ qs) hs =
    (λ o f. hs.0 o (find-forget d p q c o f), All-CleanAt-forget d p c qs hs.1)

pub forget_all-Moves :
    {k : Bool} (d : Digest) (ps : List Text) (c : Cache)
    → All (CleanAt c) ps
    → Moves k d c (forget_all d ps c)
unfolding forget_all
forget_all-Moves {k} d [] c hs = here
forget_all-Moves {k} d (p ∷ ps) c hs =
    let rest : Moves k d (forget d p c) (forget_all d (p ∷ ps) c) =
      forget_all-Moves d ps (forget d p c) (All-CleanAt-forget d p c ps hs.1) in
    elim (Option-cases (find p c.objs)) [
      | inl e ↦ rw (forget-absent d p c e) (rw (forget-absent d p c e) at rest)
      | inr (o, e) ↦ next (drop p o clean_copy e (hs.0 o e) refl) rest
    ]

-- A clean object that stands under its own path.
abbrev IsCleanHere : Cache → Object → Type 0
IsCleanHere c o = (find o.remote_path c.objs ≡ some o) × (unsent o.state ≡ false)

is_clean-unsent : (o : Object) → is_clean o ≡ true → unsent o.state ≡ false
unfolding unsent
is_clean-unsent o h = ground arith

CleanAt-IsCleanHere : (c : Cache) (o : Object) → IsCleanHere c o → CleanAt c o.remote_path
CleanAt-IsCleanHere c o h x f = cc (h.0, h.1, f)

doom-CleanAt :
    (c : Cache) (low freed : ℕ) (os : List Object)
    → All (IsCleanHere c) os
    → All (CleanAt c) (doom low freed os)
unfolding doom
doom-CleanAt c low freed [] hs = tt
doom-CleanAt c low freed (o ∷ os) hs =
    if_intro (All (CleanAt c)) (leb freed low) [] (o.remote_path ∷ doom low (freed - o.size) os) tt
      (CleanAt-IsCleanHere c o hs.0, doom-CleanAt c low (freed - o.size) os hs.1)

pub victims-CleanAt : (c : Cache) → IsAccounted c → All (CleanAt c) (victims c)
unfolding victims candidates
victims-CleanAt c a = doom-CleanAt c (low_mark c) c.bytes (candidates c) (
    sort_by-All (IsCleanHere c) used_before (filter is_clean (values c.objs)) (
      filter-All is_clean (λ o f t. (f, is_clean-unsent o t)) (values c.objs)
        (values-at_own_path a)))

pub evict_if_needed-Moves :
    {k : Bool} (d : Digest) (c : Cache) → IsAccounted c → Moves k d c (evict_if_needed d c)
unfolding evict_if_needed
evict_if_needed-Moves d c a =
    if_intro (Moves _ d c) (leb c.bytes (high_mark c)) c (forget_all d (victims c) c) here
      (forget_all-Moves d (victims c) c (victims-CleanAt c a))

not-true : (b : Bool) → not b ≡ true → b ≡ false
not-true b h = ground arith

pub clear-Moves : {k : Bool} (d : Digest) (c : Cache) → IsAccounted c → Moves k d c (clear d c).0
unfolding clear
clear-Moves d c a =
    elim (Bool-cases (ltb 0 (length (filter (λ (o : Object). unsent o.state) (values c.objs))))) [
      | inl e ↦ rw (e, clear) here
      | inr e ↦
          rw (e, clear)
            (forget_all-Moves d _ c (
              map-All (CleanAt c) (λ (o : Object). o.remote_path)
                (filter (λ (o : Object). not (unsent o.state)) (values c.objs))
                (filter-All (λ (o : Object). not (unsent o.state))
                  (λ o f t. CleanAt-IsCleanHere c o (f, not-true (unsent o.state) t))
                  (values c.objs) (values-at_own_path a))))
    ]
