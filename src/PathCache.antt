-- ===== src/PathCache.antt =====
-- The cache of folder paths (internal/cache/pathcache.go). Clock values are numbers; the time of the
-- call is an argument. A folder's update time is a number, with 0 for one that is not known.
pub mod Drops
pub mod Invalidation
pub mod Size
pub mod Lifetime
pub mod Freshness
mod Tests
use opendrive_bridge.Common.{
  ℕ, zero, suc, ◌+◌, Bool, true, false, not, ◌&&◌, ◌||◌, Option, none, some, List, [], ◌∷◌, ◌++◌,
  ltb, leb, ◌==◌, length, filter, if◌then◌else◌,
}
use opendrive_bridge.Common.Text.{Text, text_eq, is_empty, has_prefix, slash}
use opendrive_bridge.Common.Dict.{Dict, find, insert, delete, keys}

pub record Entry : Type 0 where
  pub id : Text
  pub expires : ℕ
  pub last_used : ℕ

pub record PathCache : Type 0 where
  pub ttl : ℕ
  pub max_entries : ℕ
  pub by_path : Dict Entry
  pub by_id : Dict Text
  pub updated : Dict ℕ
  pub hits : ℕ
  pub misses : ℕ
  pub evictions : ℕ

-- `NewPathCache` with its two bounds.
abbrev pub new_path_cache : ℕ → ℕ → PathCache
new_path_cache ttl max_entries = record {
  ttl = ttl;
  max_entries = max_entries;
  by_path = [];
  by_id = [];
  updated = [];
  hits = 0;
  misses = 0;
  evictions = 0;
}

-- The reverse entry goes where it still names the path.
unfoldable pub unlink : Text → Text → Dict Text → Dict Text
unlink id path m = elim (find id m) [
  | none ↦ m
  | some current ↦ if text_eq current path then delete id m else m
]

-- `dropPathLocked`.
unfoldable pub drop_path : Text → PathCache → PathCache
unfolding unlink
drop_path path c = elim (find path c.by_path) [
  | none ↦ c
  | some e ↦ record c {
    by_path = delete path c.by_path;
    by_id = unlink e.id path c.by_id;
    updated = delete e.id c.updated;
  }
]

unfoldable pub drop_paths : List Text → PathCache → PathCache
unfolding drop_path
drop_paths [] c = c
drop_paths (p ∷ ps) c = drop_paths ps (drop_path p c)

abbrev pub subtree_prefix : Text → Text
subtree_prefix path = if text_eq path (slash ∷ []) then path else path ++ (slash ∷ [])

-- Whether `dropSubtreeLocked` takes the path `p`.
unfoldable pub in_subtree : Text → Bool → Text → Bool
unfolding text_eq has_prefix
in_subtree path include_self p =
    if text_eq p path then include_self else has_prefix p (subtree_prefix path)

-- `dropSubtreeLocked`.
unfoldable pub drop_subtree : Text → Bool → PathCache → PathCache
unfolding drop_paths in_subtree
drop_subtree path include_self c =
    if is_empty path
    then c
    else drop_paths (filter (in_subtree path include_self) (keys c.by_path)) c

-- `Lookup`.
unfoldable pub lookup : ℕ → Text → PathCache → PathCache × Option Text
unfolding drop_path
lookup now path c = elim (find path c.by_path) [
  | none ↦ (record c { misses = c.misses + 1 }, none)
  | some e ↦
      if ltb e.expires now
      then (let c' = drop_path path c in (record c' { misses = c'.misses + 1 }, none))
      else (
        record c {
          by_path = insert path (record e { last_used = now }) c.by_path;
          hits = c.hits + 1;
        },
        some e.id,
      )
]

-- The search of `evictLocked` for the entry that was used longest ago. An empty path stands for
-- none found.
unfoldable pub oldest : Dict Entry → Text → ℕ → Text
oldest [] best time = best
oldest ((p, e) ∷ m) best time =
    let replaced = oldest m p e.last_used in
    let kept = oldest m best time in
    if is_empty best || ltb e.last_used time then replaced else kept

-- The loop of `evictLocked`. Every round that goes on takes an entry out.
unfoldable pub evict_loop : ℕ → PathCache → PathCache
unfolding oldest drop_path
evict_loop zero c = c
evict_loop (suc fuel) c =
    let p = oldest c.by_path [] 0 in
    let c' = drop_path p c in
    let rest = evict_loop fuel (record c' { evictions = c'.evictions + 1 }) in
    if leb (length c.by_path) c.max_entries || is_empty p then c else rest

-- `evictLocked`.
unfoldable pub evict : PathCache → PathCache
unfolding evict_loop
evict c = evict_loop (length c.by_path) c

-- `Store`.
unfoldable pub store : ℕ → Text → Text → PathCache → PathCache
unfolding evict
store now path id c =
    if is_empty path || is_empty id
    then c
    else evict (record c {
      by_path = insert path (record { id = id; expires = now + c.ttl; last_used = now }) c.by_path;
      by_id = insert id path c.by_id;
    })

-- `Observe`.
unfoldable pub observe : Text → ℕ → PathCache → PathCache
unfolding drop_subtree
observe id time c =
    if is_empty id || time == 0
    then c
    else (let c' = record c { updated = insert id time c.updated } in
        elim (find id c.updated) [
          | none ↦ c'
          | some previous ↦
              if previous == time
              then c'
              else elim (find id c.by_id) [ none ↦ c' | some path ↦ drop_subtree path false c' ]
        ])

-- `InvalidatePath`.
unfoldable pub invalidate_path : Text → PathCache → PathCache
unfolding drop_subtree
invalidate_path path c = drop_subtree path true c

-- What stands before the last slash, if there is a slash.
unfoldable pub before_slash : Text → Option Text
before_slash [] = none
before_slash (a ∷ s) = elim (before_slash s) [
  | some t ↦ some (a ∷ t)
  | none ↦ if a == slash then some [] else none
]

-- The update time of the parent is forgotten, and its own entry stays.
unfoldable pub forget_parent_time : Text → PathCache → PathCache
unfolding before_slash
forget_parent_time path c = elim (before_slash path) [
  | none ↦ c
  | some parent ↦ if is_empty parent then c else elim (find parent c.by_path) [
    | none ↦ c
    | some e ↦ record c { updated = delete e.id c.updated }
  ]
]

-- `InvalidateID`.
unfoldable pub invalidate_id : Text → PathCache → PathCache
unfolding drop_subtree forget_parent_time
invalidate_id id c =
    let c' = record c { updated = delete id c.updated } in
    elim (find id c.by_id) [
      | none ↦ c'
      | some path ↦ forget_parent_time path (drop_subtree path true c')
    ]

-- `Reset`.
unfoldable pub reset : PathCache → PathCache
reset c = record c { by_path = []; by_id = []; updated = [] }

-- The calls that change the cache.
pub data Call : Type 0 where
  look : ℕ → Text → Call
  put : ℕ → Text → Text → Call
  see : Text → ℕ → Call
  invalidate : Text → Call
  invalidate_folder : Text → Call
  start_over : Call

unfoldable pub answer_call : Call → PathCache → PathCache
unfolding lookup store observe invalidate_path invalidate_id reset
answer_call (look now path) c = (lookup now path c).0
answer_call (put now path id) c = store now path id c
answer_call (see id time) c = observe id time c
answer_call (invalidate path) c = invalidate_path path c
answer_call (invalidate_folder id) c = invalidate_id id c
answer_call start_over c = reset c

unfoldable pub run_calls : List Call → PathCache → PathCache
unfolding answer_call
run_calls [] c = c
run_calls (s ∷ ss) c = run_calls ss (answer_call s c)
