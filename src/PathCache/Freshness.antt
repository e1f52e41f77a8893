-- ===== src/PathCache/Freshness.antt =====
-- What a lookup of the path cache (internal/cache/pathcache.go) may answer.
use opendrive_bridge.Common.{
  All, ℕ, zero, suc, ◌+◌, ◌≤◌, ◌≡◌, refl, sym, ap, subst, ◌∙◌, Bool, true, false, ◌||◌, some, List,
  [], ◌∷◌, arith, length, ◌⊎◌, inl, inr, Option-cases, Bool-cases, ltb, leb, ◌==◌, filter, if_intro,
}
use opendrive_bridge.Common.Text.{Text, text_eq, text_eq_iff, is_empty}
use opendrive_bridge.Common.Dict.{find, insert, delete, keys, find-insert}
use opendrive_bridge.PathCache.{
  Entry, PathCache, new_path_cache, drop_path, drop_paths, drop_subtree, in_subtree, lookup, store,
  evict, evict_loop, oldest, observe, invalidate_path, invalidate_id, forget_parent_time, reset,
  Call, look, put, see, invalidate, invalidate_folder, start_over, answer_call, run_calls,
}
use opendrive_bridge.PathCache.Drops.{find-drop_path}
use opendrive_bridge.PathCache.Lifetime.{drop_path-ttl, run_calls-ttl}

-- A store of the id at the path, at the time, is among the calls.
unfoldable pub Made : ℕ → Text → Text → List Call → Type 0
Made now path id [] = ⊥
Made now path id (s ∷ ss) = (s ≡ put now path id) ⊎ Made now path id ss

-- An entry goes back to a store among the calls, `ttl` before it expires.
abbrev pub Backed : ℕ → List Call → Text → Entry → Type 0
Backed ttl ss path e = (now : ℕ) × Made now path e.id ss × (e.expires ≡ now + ttl)

pub record Sourced (ss : List Call) (c : PathCache) : Type 0 where
  pub at : (path : Text) (e : Entry) → find path c.by_path ≡ some e → Backed c.ttl ss path e

-- What has no more entries than a sourced cache is sourced.
fewer-Sourced :
    (ss : List Call) (c c' : PathCache)
    → c'.ttl ≡ c.ttl
    → ((path : Text) (e : Entry) → find path c'.by_path ≡ some e → find path c.by_path ≡ some e)
    → Sourced ss c
    → Sourced ss c'
fewer-Sourced ss c c' t f s = record {
  at = λ path e g.
      let (now, made, exact) = s.at path e (f path e g) in (now, made, omega (arith, exact, t));
}

drop_path-Sourced :
    (ss : List Call) (p : Text) (c : PathCache) → Sourced ss c → Sourced ss (drop_path p c)
drop_path-Sourced ss p c s =
    fewer-Sourced ss c (drop_path p c) (drop_path-ttl p c)
      (λ path e g. ground (arith, find-drop_path p path c, g)) s

drop_paths-Sourced :
    (ss : List Call) (ps : List Text) (c : PathCache) → Sourced ss c → Sourced ss (drop_paths ps c)
unfolding drop_paths
drop_paths-Sourced ss [] c s = s
drop_paths-Sourced ss (p ∷ ps) c s =
    drop_paths-Sourced ss ps (drop_path p c) (drop_path-Sourced ss p c s)

drop_subtree-Sourced :
    (ss : List Call) (path : Text) (include_self : Bool) (c : PathCache)
    → Sourced ss c
    → Sourced ss (drop_subtree path include_self c)
unfolding drop_subtree
drop_subtree-Sourced ss path include_self c s =
    if_intro (Sourced ss) (is_empty path) c
      (drop_paths (filter (in_subtree path include_self) (keys c.by_path)) c) s
      (drop_paths-Sourced ss (filter (in_subtree path include_self) (keys c.by_path)) c s)

evict_loop-Sourced :
    (ss : List Call) (fuel : ℕ) (c : PathCache) → Sourced ss c → Sourced ss (evict_loop fuel c)
unfolding evict_loop
evict_loop-Sourced ss zero c s = s
evict_loop-Sourced ss (suc fuel) c s =
    let p = oldest c.by_path [] 0 in
    let c' = drop_path p c in
    let d = drop_path-Sourced ss p c s in
    if_intro (Sourced ss) (leb (length c.by_path) c.max_entries || is_empty p) c
      (evict_loop fuel (record c' { evictions = c'.evictions + 1 })) s
      (evict_loop-Sourced ss fuel (record c' { evictions = c'.evictions + 1 })
        (record { at = d.at }))

store-Sourced :
    (ss : List Call) (now : ℕ) (path id : Text) (c : PathCache)
    → Made now path id ss
    → Sourced ss c
    → Sourced ss (store now path id c)
unfolding store evict
store-Sourced ss now path id c made s =
    let fresh : Entry = record { id = id; expires = now + c.ttl; last_used = now } in
    let c' : PathCache = record c {
      by_path = insert path fresh c.by_path;
      by_id = insert id path c.by_id;
    } in
    let s' : Sourced ss c' = record {
      at = λ q e g. elim (Bool-cases (text_eq path q)) [
        | inl t ↦
            let same : path ≡ q = (text_eq_iff path q).0 t in
            let it : fresh ≡ e = ground (arith, find-insert path q fresh c.by_path, t, g) in
            subst (λ x. Backed c.ttl ss q x) it (now, subst (λ x. Made now x id ss) same made, refl)
        | inr t ↦ s.at q e (ground (arith, find-insert path q fresh c.by_path, t, g))
      ];
    } in
    if_intro (Sourced ss) (is_empty path || is_empty id) c (evict c') s
      (evict_loop-Sourced ss (length c'.by_path) c' s')

lookup-Sourced :
    (ss : List Call) (now : ℕ) (path : Text) (c : PathCache)
    → Sourced ss c
    → Sourced ss (lookup now path c).0
unfolding lookup
lookup-Sourced ss now path c s = elim (Option-cases (find path c.by_path)) [
  | inl e ↦ rw (e, lookup) (record { at = s.at })
  | inr (x, e) ↦ elim (Bool-cases (ltb x.expires now)) [
    | inl t ↦ let d = drop_path-Sourced ss path c s in rw (e, lookup) (rw t (record { at = d.at }))
    | inr t ↦
        let used : Entry = record x { last_used = now } in
        rw (e, lookup)
          (rw t (record {
            at = λ q y g. elim (Bool-cases (text_eq path q)) [
              | inl v ↦
                  let same : path ≡ q = (text_eq_iff path q).0 v in
                  let it : used ≡ y = ground (arith, find-insert path q used c.by_path, v, g) in
                  subst (λ z. Backed c.ttl ss q z) it
                    (s.at q x (ap (λ z. find z c.by_path) (sym same) ∙ e))
              | inr v ↦ s.at q y (ground (arith, find-insert path q used c.by_path, v, g))
            ];
          }))
  ]
]

observe-Sourced :
    (ss : List Call) (id : Text) (time : ℕ) (c : PathCache)
    → Sourced ss c
    → Sourced ss (observe id time c)
unfolding observe
observe-Sourced ss id time c s =
    let c' : PathCache = record c { updated = insert id time c.updated } in
    let s' : Sourced ss c' = record { at = s.at } in
    if_intro (Sourced ss) (is_empty id || time == 0) c _ s
      (elim (Option-cases (find id c.updated)) [
        | inl e ↦ rw e s'
        | inr (previous, e) ↦ rw e (
            if_intro (Sourced ss) (previous == time) c' _ s'
              (elim (Option-cases (find id c.by_id)) [
                | inl f ↦ rw f s'
                | inr (path, f) ↦ rw f (drop_subtree-Sourced ss path false c' s')
              ]))
      ])

forget_parent_time-Sourced :
    (ss : List Call) (path : Text) (c : PathCache)
    → Sourced ss c
    → Sourced ss (forget_parent_time path c)
unfolding forget_parent_time
forget_parent_time-Sourced ss path c s =
    fewer-Sourced ss c (forget_parent_time path c) (ground arith) (λ q e g. ground (arith, g)) s

invalidate_id-Sourced :
    (ss : List Call) (id : Text) (c : PathCache) → Sourced ss c → Sourced ss (invalidate_id id c)
unfolding invalidate_id
invalidate_id-Sourced ss id c s =
    let c' : PathCache = record c { updated = delete id c.updated } in
    let s' : Sourced ss c' = record { at = s.at } in
    elim (Option-cases (find id c.by_id)) [
      | inl e ↦ rw (e, invalidate_id) s'
      | inr (path, e) ↦
          rw (e, invalidate_id)
            (forget_parent_time-Sourced ss path (drop_subtree path true c')
              (drop_subtree-Sourced ss path true c' s'))
    ]

-- The stores that a call makes are among the calls.
abbrev Known : List Call → Call → Type 0
Known ss (put now path id) = Made now path id ss
Known ss _ = Unit

answer_call-Sourced :
    (ss : List Call) (s : Call) (c : PathCache)
    → Known ss s
    → Sourced ss c
    → Sourced ss (answer_call s c)
unfolding answer_call invalidate_path reset find
answer_call-Sourced ss (look now path) c k h = lookup-Sourced ss now path c h
answer_call-Sourced ss (put now path id) c k h = store-Sourced ss now path id c k h
answer_call-Sourced ss (see id time) c k h = observe-Sourced ss id time c h
answer_call-Sourced ss (invalidate path) c k h = drop_subtree-Sourced ss path true c h
answer_call-Sourced ss (invalidate_folder id) c k h = invalidate_id-Sourced ss id c h
answer_call-Sourced ss start_over c k h = record { at = λ path e g. absurd (cc g) }

run_calls-Sourced :
    (ss ts : List Call) (c : PathCache)
    → All (Known ss) ts
    → Sourced ss c
    → Sourced ss (run_calls ts c)
unfolding run_calls
run_calls-Sourced ss [] c ks h = h
run_calls-Sourced ss (t ∷ ts) c ks h =
    run_calls-Sourced ss ts (answer_call t c) ks.1 (answer_call-Sourced ss t c ks.0 h)

Known-later : (s t : Call) (ss : List Call) → Known ss t → Known (s ∷ ss) t
unfolding Made
Known-later s (put now path id) ss k = inr k
Known-later s (look now path) ss k = tt
Known-later s (see id time) ss k = tt
Known-later s (invalidate path) ss k = tt
Known-later s (invalidate_folder id) ss k = tt
Known-later s start_over ss k = tt

Known-first : (s : Call) (ss : List Call) → Known (s ∷ ss) s
unfolding Made
Known-first (put now path id) ss = inl refl
Known-first (look now path) ss = tt
Known-first (see id time) ss = tt
Known-first (invalidate path) ss = tt
Known-first (invalidate_folder id) ss = tt
Known-first start_over ss = tt

All-Known_later : (s : Call) (ss ts : List Call) → All (Known ss) ts → All (Known (s ∷ ss)) ts
All-Known_later s ss [] ks = tt
All-Known_later s ss (t ∷ ts) ks = (Known-later s t ss ks.0, All-Known_later s ss ts ks.1)

All-Known : (ss : List Call) → All (Known ss) ss
All-Known [] = tt
All-Known (s ∷ ss) = (Known-first s ss, All-Known_later s ss ss (All-Known ss))

-- After any calls on a new cache, what a lookup answers for a path is an id that one of the calls
-- stored for that very path, and at most `ttl` before.
pub lookup_is_recent :
    (ss : List Call) (ttl max_entries now : ℕ) (path id : Text)
    → (lookup now path (run_calls ss (new_path_cache ttl max_entries))).1 ≡ some id
    → (stored : ℕ) × Made stored path id ss × (now ≤ stored + ttl)
unfolding lookup find
lookup_is_recent ss ttl max_entries now path id h =
    let c = run_calls ss (new_path_cache ttl max_entries) in
    let s : Sourced ss c =
      run_calls-Sourced ss ss (new_path_cache ttl max_entries) (All-Known ss)
        (record { at = λ p e g. absurd (cc g) }) in
    elim (Option-cases (find path c.by_path)) [
      | inl e ↦ absurd (ground (arith, e, h))
      | inr (x, e) ↦
          let (stored, made, exact) = s.at path x e in
          let fresh : now ≤ x.expires = ground (arith, e, h) in
          let same : x.id ≡ id = ground (arith, e, h) in
          (
            stored,
            subst (λ y. Made stored path y ss) same made,
            omega (arith, fresh, exact, run_calls-ttl ss (new_path_cache ttl max_entries)),
          )
    ]
