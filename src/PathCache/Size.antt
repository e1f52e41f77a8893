-- ===== src/PathCache/Size.antt =====
-- The size of the path cache (internal/cache/pathcache.go).
use opendrive_bridge.Common.{
  ℕ, zero, suc, ◌+◌, ◌≤◌, ◌<◌, ◌≡◌, refl, Bool, true, false, ◌||◌, none, some, List, [], ◌∷◌, arith,
  length, ◌⊎◌, inl, inr, Option-cases, Bool-cases, ltb, leb, leb→le, leb→lt, ◌==◌, is_some, filter,
  if_intro,
}
use opendrive_bridge.Common.Text.{Text, text_eq_iff, text_eq_refl, is_empty}
use opendrive_bridge.Common.Dict.{Dict, find, insert, delete, keys, find-insert}
use opendrive_bridge.PathCache.{
  Entry, PathCache, drop_path, drop_paths, drop_subtree, in_subtree, lookup, store, evict,
  evict_loop, oldest, observe, invalidate_path, invalidate_id, forget_parent_time, reset, Call,
  look, put, see, invalidate, invalidate_folder, start_over, answer_call, run_calls,
}
use opendrive_bridge.PathCache.Drops.{find-drop_path}

module _ {V : Type 0} where
  length-delete_le : (p : Text) (m : Dict V) → length (delete p m) ≤ length m
  unfolding delete
  length-delete_le p [] = omega arith
  length-delete_le p ((j, v) ∷ m) = ground (arith, length-delete_le p m)

  length-delete_lt :
      (p : Text) (v : V) (m : Dict V) → find p m ≡ some v → length (delete p m) < length m
  unfolding delete find
  length-delete_lt p v [] f = absurd (cc f)
  length-delete_lt p v ((j, w) ∷ m) f = ground (arith, length-delete_le p m, length-delete_lt p v m)

-- The search finds a path of the cache, if it starts with one or the cache is not empty.
oldest-found :
    (m : Dict Entry) (best : Text) (time : ℕ)
    → find [] m ≡ none
    → is_empty best ≡ false
    → (is_empty (oldest m best time) ≡ false)
      × ((oldest m best time ≡ best) ⊎ (is_some (find (oldest m best time) m) ≡ true))
unfolding oldest find
oldest-found [] best time n h = (h, inl refl)
oldest-found ((p, e) ∷ m) best time n h =
    let ne : is_empty p ≡ false = ground (arith, text_eq_iff p []) in
    let n' : find [] m ≡ none = ground arith in
    let (a, x) = oldest-found m p e.last_used n' ne in
    let (b, y) = oldest-found m best time n' h in ground (arith, text_eq_refl p)

-- The bound on the entries, and what makes the eviction reach it: no entry has the empty path.
pub record Bounded (c : PathCache) : Type 0 where
  pub no_empty : find [] c.by_path ≡ none
  pub within : length c.by_path ≤ c.max_entries

drop_path-no_empty :
    (p : Text) (c : PathCache) → find [] c.by_path ≡ none → find [] (drop_path p c).by_path ≡ none
drop_path-no_empty p c h = ground (arith, find-drop_path p [] c)

drop_path-le :
    (p : Text) (c : PathCache)
    → (length (drop_path p c).by_path ≤ length c.by_path)
      × ((drop_path p c).max_entries ≡ c.max_entries)
unfolding drop_path
drop_path-le p c = elim (Option-cases (find p c.by_path)) [
  | inl e ↦ rw (e, drop_path) (omega arith, refl)
  | inr (x, e) ↦ rw (e, drop_path) (length-delete_le p c.by_path, refl)
]

drop_path-lt :
    (p : Text) (c : PathCache)
    → is_some (find p c.by_path) ≡ true
    → length (drop_path p c).by_path < length c.by_path
unfolding drop_path
drop_path-lt p c h = elim (Option-cases (find p c.by_path)) [
  | inl e ↦ cc (h, e)
  | inr (x, e) ↦ rw (e, drop_path) (length-delete_lt p x c.by_path e)
]

drop_path-Bounded : (p : Text) (c : PathCache) → Bounded c → Bounded (drop_path p c)
drop_path-Bounded p c b = record {
  no_empty = drop_path-no_empty p c b.no_empty;
  within = omega (arith, drop_path-le p c, b.within);
}

drop_paths-Bounded : (ps : List Text) (c : PathCache) → Bounded c → Bounded (drop_paths ps c)
unfolding drop_paths
drop_paths-Bounded [] c b = b
drop_paths-Bounded (p ∷ ps) c b = drop_paths-Bounded ps (drop_path p c) (drop_path-Bounded p c b)

drop_subtree-Bounded :
    (path : Text) (include_self : Bool) (c : PathCache)
    → Bounded c
    → Bounded (drop_subtree path include_self c)
unfolding drop_subtree
drop_subtree-Bounded path include_self c b =
    if_intro Bounded (is_empty path) c
      (drop_paths (filter (in_subtree path include_self) (keys c.by_path)) c) b
      (drop_paths-Bounded (filter (in_subtree path include_self) (keys c.by_path)) c b)

-- The search finds an entry of a cache that is not empty.
oldest-drops :
    (m : Dict Entry)
    → find [] m ≡ none
    → 0 < length m
    → (is_empty (oldest m [] 0) ≡ false) × (is_some (find (oldest m [] 0) m) ≡ true)
unfolding oldest find
oldest-drops [] n h = absurd (omega arith)
oldest-drops ((p, e) ∷ m) n h =
    let ne : is_empty p ≡ false = ground (arith, text_eq_iff p []) in
    let n' : find [] m ≡ none = ground arith in
    let (a, x) = oldest-found m p e.last_used n' ne in ground (arith, text_eq_refl p)

-- As much fuel as there are entries is enough for the eviction to reach the bound.
evict_loop-Bounded :
    (fuel : ℕ) (c : PathCache)
    → find [] c.by_path ≡ none
    → length c.by_path ≤ fuel
    → Bounded (evict_loop fuel c)
unfolding evict_loop
evict_loop-Bounded zero c n h = record { no_empty = n; within = omega arith }
evict_loop-Bounded (suc fuel) c n h =
    let p = oldest c.by_path [] 0 in
    let c' = drop_path p c in
    elim (Bool-cases (leb (length c.by_path) c.max_entries)) [
      | inl e ↦
          rw (e, evict_loop)
            (record { no_empty = n; within = leb→le (length c.by_path) c.max_entries e })
      | inr e ↦
          let (ne, there) =
            oldest-drops c.by_path n (omega (arith, leb→lt (length c.by_path) c.max_entries e)) in
          rw (e, evict_loop)
            (rw ne (
              evict_loop-Bounded fuel (record c' { evictions = c'.evictions + 1 })
                (drop_path-no_empty p c n) (omega (arith, drop_path-lt p c there))))
    ]

evict-Bounded : (c : PathCache) → find [] c.by_path ≡ none → Bounded (evict c)
unfolding evict
evict-Bounded c n = evict_loop-Bounded (length c.by_path) c n (omega arith)

store-Bounded :
    (now : ℕ) (path id : Text) (c : PathCache) → Bounded c → Bounded (store now path id c)
unfolding store
store-Bounded now path id c b = elim (Bool-cases (is_empty path || is_empty id)) [
  | inl e ↦ rw (e, store) b
  | inr e ↦
      let fresh : Entry = record { id = id; expires = now + c.ttl; last_used = now } in
      rw (e, store)
        (evict-Bounded
          (record c { by_path = insert path fresh c.by_path; by_id = insert id path c.by_id })
          (ground (arith, find-insert path [] fresh c.by_path, text_eq_iff path [], b.no_empty)))
]

length-insert_there :
    {V : Type 0} (p : Text) (v w : V) (m : Dict V)
    → find p m ≡ some w
    → length (insert p v m) ≡ length m
unfolding insert find
length-insert_there p v w [] f = absurd (cc f)
length-insert_there p v w ((j, x) ∷ m) f = ground (arith, length-insert_there p v w m)

lookup-Bounded : (now : ℕ) (path : Text) (c : PathCache) → Bounded c → Bounded (lookup now path c).0
unfolding lookup
lookup-Bounded now path c b = elim (Option-cases (find path c.by_path)) [
  | inl e ↦ rw (e, lookup) (record { no_empty = b.no_empty; within = b.within })
  | inr (x, e) ↦ elim (Bool-cases (ltb x.expires now)) [
    | inl t ↦
        let d = drop_path-Bounded path c b in
        rw (e, lookup) (rw t (record { no_empty = d.no_empty; within = d.within }))
    | inr t ↦
        let used : Entry = record x { last_used = now } in
        rw (e, lookup)
          (rw t (record {
            no_empty =
                ground
                  (arith, find-insert path [] used c.by_path, text_eq_iff path [], b.no_empty, e);
            within = omega (arith, length-insert_there path used x c.by_path e, b.within);
          }))
  ]
]

observe-Bounded : (id : Text) (time : ℕ) (c : PathCache) → Bounded c → Bounded (observe id time c)
unfolding observe
observe-Bounded id time c b =
    let c' : PathCache = record c { updated = insert id time c.updated } in
    let b' : Bounded c' = record { no_empty = b.no_empty; within = b.within } in
    if_intro Bounded (is_empty id || time == 0) c _ b (elim (Option-cases (find id c.updated)) [
      | inl e ↦ rw e b'
      | inr (previous, e) ↦ rw e (
          if_intro Bounded (previous == time) c' _ b' (elim (Option-cases (find id c.by_id)) [
            | inl f ↦ rw f b'
            | inr (path, f) ↦ rw f (drop_subtree-Bounded path false c' b')
          ]))
    ])

forget_parent_time-Bounded :
    (path : Text) (c : PathCache) → Bounded c → Bounded (forget_parent_time path c)
unfolding forget_parent_time
forget_parent_time-Bounded path c b = record {
  no_empty = ground (arith, b.no_empty);
  within = ground (arith, b.within);
}

invalidate_id-Bounded : (id : Text) (c : PathCache) → Bounded c → Bounded (invalidate_id id c)
unfolding invalidate_id
invalidate_id-Bounded id c b =
    let c' : PathCache = record c { updated = delete id c.updated } in
    let b' : Bounded c' = record { no_empty = b.no_empty; within = b.within } in
    elim (Option-cases (find id c.by_id)) [
      | inl e ↦ rw (e, invalidate_id) b'
      | inr (path, e) ↦
          rw (e, invalidate_id)
            (forget_parent_time-Bounded path (drop_subtree path true c')
              (drop_subtree-Bounded path true c' b'))
    ]

answer_call-Bounded : (s : Call) (c : PathCache) → Bounded c → Bounded (answer_call s c)
unfolding answer_call invalidate_path reset find
answer_call-Bounded (look now path) c b = lookup-Bounded now path c b
answer_call-Bounded (put now path id) c b = store-Bounded now path id c b
answer_call-Bounded (see id time) c b = observe-Bounded id time c b
answer_call-Bounded (invalidate path) c b = drop_subtree-Bounded path true c b
answer_call-Bounded (invalidate_folder id) c b = invalidate_id-Bounded id c b
answer_call-Bounded start_over c b = record { no_empty = refl; within = omega arith }

-- Whatever calls are made, a cache within its bound stays within it, and no entry gets the empty path.
pub run_calls-Bounded : (ss : List Call) (c : PathCache) → Bounded c → Bounded (run_calls ss c)
unfolding run_calls
run_calls-Bounded [] c b = b
run_calls-Bounded (s ∷ ss) c b = run_calls-Bounded ss (answer_call s c) (answer_call-Bounded s c b)
