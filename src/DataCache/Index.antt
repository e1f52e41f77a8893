-- ===== src/DataCache/Index.antt =====
-- The index and its accounts (internal/datacache/store.go): storing and forgetting an object, the
-- read, and the eviction. What the code does under one lock, or in one call with the lock taken
-- twice and nothing between, is one function here.
use opendrive_bridge.Common.{
  ℕ, ◌+◌, ◌-◌, ◌*◌, ◌/◌, Bool, true, false, Option, none, some, List, [], ◌∷◌, ltb, leb, is_some,
  filter, if◌then◌else◌,
}
use opendrive_bridge.Common.Text.{Text}
use opendrive_bridge.Common.Dict.{find, insert, delete, values, share}
use opendrive_bridge.Common.Sort.{sort_by}
use opendrive_bridge.DataCache.Types.{
  clean, unsent, Object, op_drop, op_touch, Cache, Digest, Result, ok, err, not_cached,
}
use opendrive_bridge.DataCache.Journal.{append}
use opendrive_bridge.DataCache.Path.{normalise_path}

-- The bytes that an object adds to the dirty account.
unfoldable pub dirty_share : Object → ℕ
unfolding unsent
dirty_share o = if unsent o.state then o.size else 0

abbrev pub size_of : Object → ℕ
size_of o = o.size

-- The accounts without the object that stood at a path, if one did.
unfoldable pub uncount : Option Object → Cache → Cache
unfolding dirty_share
uncount old c = record c {
  bytes = c.bytes - share size_of old;
  dirty_bytes = c.dirty_bytes - share dirty_share old;
}

-- The last part of `commit`: the object replaces what stood at its path.
unfoldable pub index_put : Object → Cache → Cache
unfolding uncount dirty_share
index_put o c =
    let c' = uncount (find o.remote_path c.objs) c in
    record c' {
      objs = insert o.remote_path o c.objs;
      bytes = c'.bytes + o.size;
      dirty_bytes = c'.dirty_bytes + dirty_share o;
    }

-- `forget`. The journal's answer is not looked at.
unfoldable pub forget : Digest → Text → Cache → Cache
unfolding uncount
forget d p c = elim (find p c.objs) [
  | none ↦ c
  | some o ↦
      let c' = uncount (some o) c in
      record c' {
        objs = delete p c.objs;
        files = delete (d.content_name p) c.files;
        journal = (append (op_drop p) true c.journal).0;
      }
]

-- `Has`, on a normalised path.
unfoldable pub has : Text → Cache → Bool
unfolding normalise_path
has p c = is_some (find (normalise_path p) c.objs)

-- The read that found an object and could open its content.
unfoldable pub touched : Text → Object → ℕ → Cache → Cache
touched p o now c = record c {
  objs = insert p (record o { last_access = now }) c.objs;
  hits = c.hits + 1;
  journal = (append (op_touch p now) false c.journal).0;
}

-- The read whose content could not be opened, for whatever reason.
unfoldable pub vanished : Digest → Text → Object → ℕ → Cache → Cache
unfolding forget
vanished d p o now c =
    let c' = forget d p (record c { objs = insert p (record o { last_access = now }) c.objs }) in
    record c' { misses = c'.misses + 1 }

-- `Get`, on a normalised path. `opens` is the environment's part in `os.Open`: with it false the
-- call fails though the file may be there.
unfoldable pub get : Digest → Bool → ℕ → Text → Cache → Cache × Result (Object × List ℕ)
unfolding touched vanished
get d opens now p c = elim (find p c.objs) [
  | none ↦ (record c { misses = c.misses + 1 }, err not_cached)
  | some o ↦ elim (if opens then find (d.content_name p) c.files else none) [
    | none ↦ (vanished d p o now c, err not_cached)
    | some content ↦ (touched p o now c, ok (record o { last_access = now }, content))
  ]
]

abbrev pub is_clean : Object → Bool
is_clean o = elim o.state [ clean ↦ true | _ ↦ false ]

abbrev pub used_before : Object → Object → Bool
used_before a b = ltb a.last_access b.last_access

-- The loop over the candidates: what it takes away, until `freed` is down to the low mark.
unfoldable pub doom : ℕ → ℕ → List Object → List Text
doom low freed [] = []
doom low freed (o ∷ os) =
    let more = doom low (freed - o.size) os in if leb freed low then [] else o.remote_path ∷ more

unfoldable pub candidates : Cache → List Object
candidates c = sort_by used_before (filter is_clean (values c.objs))

abbrev pub high_mark : Cache → ℕ
high_mark c = c.cfg.max_bytes * c.cfg.high_watermark / 100

abbrev pub low_mark : Cache → ℕ
low_mark c = c.cfg.max_bytes * c.cfg.low_watermark / 100

unfoldable pub forget_all : Digest → List Text → Cache → Cache
unfolding forget
forget_all d [] c = c
forget_all d (p ∷ ps) c = forget_all d ps (forget d p c)

-- What an eviction takes away.
unfoldable pub victims : Cache → List Text
unfolding doom candidates
victims c = doom (low_mark c) c.bytes (candidates c)

-- `evictIfNeeded`. Where nothing can be evicted it only logs.
unfoldable pub evict_if_needed : Digest → Cache → Cache
unfolding victims forget_all
evict_if_needed d c = if leb c.bytes (high_mark c) then c else forget_all d (victims c) c
