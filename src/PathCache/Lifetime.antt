-- ===== src/PathCache/Lifetime.antt =====
-- The lifetime of entries under the calls of the path cache (internal/cache/pathcache.go).
use opendrive_bridge.Common.{
  ℕ, zero, suc, ◌+◌, ◌≡◌, refl, ◌∙◌, Bool, true, false, ◌||◌, List, [], ◌∷◌, arith, length, filter,
  if_intro, inl, inr, Option-cases,
}
use opendrive_bridge.Common.Text.{Text, is_empty}
use opendrive_bridge.Common.Dict.{find, insert, delete, keys}
use opendrive_bridge.PathCache.{
  Entry, PathCache, drop_path, drop_paths, drop_subtree, in_subtree, lookup, store, evict,
  evict_loop, oldest, observe, invalidate_path, invalidate_id, forget_parent_time, reset, Call,
  look, put, see, invalidate, invalidate_folder, start_over, answer_call, run_calls,
}

pub drop_path-ttl : (p : Text) (c : PathCache) → (drop_path p c).ttl ≡ c.ttl
unfolding drop_path
drop_path-ttl p c = ground arith

drop_paths-ttl : (ps : List Text) (c : PathCache) → (drop_paths ps c).ttl ≡ c.ttl
unfolding drop_paths
drop_paths-ttl [] c = refl
drop_paths-ttl (p ∷ ps) c = drop_paths-ttl ps (drop_path p c) ∙ drop_path-ttl p c

drop_subtree-ttl : (p : Text) (b : Bool) (c : PathCache) → (drop_subtree p b c).ttl ≡ c.ttl
unfolding drop_subtree
drop_subtree-ttl p b c = ground (arith, drop_paths-ttl (filter (in_subtree p b) (keys c.by_path)) c)

evict_loop-ttl : (fuel : ℕ) (c : PathCache) → (evict_loop fuel c).ttl ≡ c.ttl
unfolding evict_loop
evict_loop-ttl zero c = refl
evict_loop-ttl (suc fuel) c =
    let p = oldest c.by_path [] 0 in
    let c' = drop_path p c in
    ground
      (arith, evict_loop-ttl fuel (record c' { evictions = c'.evictions + 1 }), drop_path-ttl p c)

store-ttl : (now : ℕ) (path id : Text) (c : PathCache) → (store now path id c).ttl ≡ c.ttl
unfolding store evict
store-ttl now path id c =
    let fresh : Entry = record { id = id; expires = now + c.ttl; last_used = now } in
    let c' : PathCache = record c {
      by_path = insert path fresh c.by_path;
      by_id = insert id path c.by_id;
    } in
    if_intro (λ (x : PathCache). x.ttl ≡ c.ttl) (is_empty path || is_empty id) c (evict c') refl
      (evict_loop-ttl (length c'.by_path) c')

lookup-ttl : (now : ℕ) (path : Text) (c : PathCache) → (lookup now path c).0.ttl ≡ c.ttl
unfolding lookup
lookup-ttl now path c = ground (arith, drop_path-ttl path c)

observe-ttl : (id : Text) (time : ℕ) (c : PathCache) → (observe id time c).ttl ≡ c.ttl
unfolding observe
observe-ttl id time c =
    let c' : PathCache = record c { updated = insert id time c.updated } in
    elim (Option-cases (find id c.by_id)) [
      | inl e ↦ ground (arith, e)
      | inr (path, e) ↦ ground (arith, e, drop_subtree-ttl path false c')
    ]

forget_parent_time-ttl : (path : Text) (c : PathCache) → (forget_parent_time path c).ttl ≡ c.ttl
unfolding forget_parent_time
forget_parent_time-ttl path c = ground arith

invalidate_id-ttl : (id : Text) (c : PathCache) → (invalidate_id id c).ttl ≡ c.ttl
unfolding invalidate_id
invalidate_id-ttl id c =
    let c' : PathCache = record c { updated = delete id c.updated } in
    elim (Option-cases (find id c.by_id)) [
      | inl e ↦ rw (e, invalidate_id) refl
      | inr (path, e) ↦
          rw (e, invalidate_id)
            (forget_parent_time-ttl path (drop_subtree path true c')
              ∙ drop_subtree-ttl path true c')
    ]

answer_call-ttl : (s : Call) (c : PathCache) → (answer_call s c).ttl ≡ c.ttl
unfolding answer_call invalidate_path reset
answer_call-ttl (look now path) c = lookup-ttl now path c
answer_call-ttl (put now path id) c = store-ttl now path id c
answer_call-ttl (see id time) c = observe-ttl id time c
answer_call-ttl (invalidate path) c = drop_subtree-ttl path true c
answer_call-ttl (invalidate_folder id) c = invalidate_id-ttl id c
answer_call-ttl start_over c = refl

pub run_calls-ttl : (ss : List Call) (c : PathCache) → (run_calls ss c).ttl ≡ c.ttl
unfolding run_calls
run_calls-ttl [] c = refl
run_calls-ttl (s ∷ ss) c = run_calls-ttl ss (answer_call s c) ∙ answer_call-ttl s c
