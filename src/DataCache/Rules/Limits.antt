-- ===== src/DataCache/Rules/Limits.antt =====
-- What the gateway refuses (internal/datacache/store.go, writeback.go): discarding unsent data, news
-- about a version that was replaced, and more unsent bytes than are allowed.
use Prim.Native.Nat.{max}
use opendrive_bridge.Common.{
  ℕ, ◌+◌, ◌-◌, ◌≤◌, ◌<◌, ◌≡◌, refl, ap, Bool, true, false, Option, none, some, List, [], ◌∷◌, ◌++◌,
  arith, ◌==◌, length, take, length-take_le,
}
use opendrive_bridge.Common.Text.{Text}
use opendrive_bridge.Common.Dict.{find, share, share-le-total, find-delete_self}
use opendrive_bridge.DataCache.Types.{State, clean, Object, Cache, Digest, ok, err, err_dirty}
use opendrive_bridge.DataCache.Index.{dirty_share, index_put}
use opendrive_bridge.DataCache.Writing.{
  CommitStop, tmp_sync, tmp_close, rename, dir_sync, nowhere, Writer, commit, new_writer, room_for,
  write, enqueue, queue_capacity,
}
use opendrive_bridge.DataCache.Flush.{
  set_state, flush_end, finish_upload, settle_clean, uploaded, hash_fits, change_to,
}
use opendrive_bridge.DataCache.Discard.{refresh, clear}
use opendrive_bridge.DataCache.Accounting.{IsAccounted}
use opendrive_bridge.DataCache.Rules.Keeping.{Holding}
use opendrive_bridge.DataCache.Rules.Acknowledged.{clear-Holding}

-- While an unsent object is at a path, refreshing the path is refused and changes nothing, and
-- clearing the cache leaves the gateway as it was.
pub discards_refuse_unsent :
    (d : Digest) (p : Text) (c : Cache)
    → Holding p c
    → (refresh d p c ≡ (c, err err_dirty)) × ((clear d c).0 ≡ c)
unfolding refresh
discards_refuse_unsent d p c (o, f, u) =
    (rw (f, refresh) (rw u refl), clear-Holding d p c (o, f, u))

set_state_stale :
    (p : Text) (o x : Object) (st : State) (reason : Text) (attempts : ℕ) (c : Cache)
    → find p c.objs ≡ some o
    → (o.stored_at == x.stored_at) ≡ false
    → set_state p (change_to st reason attempts x) c ≡ (c, false)
unfolding set_state
set_state_stale p o x st reason attempts c f v = rw (f, set_state) (rw v refl)

-- An upload ends well for a version that has been replaced since it started. The index, the
-- journal and the dirty account stay as they were, the slot is free, and the path of the newer
-- version is queued, if the queue has room.
pub superseded_upload :
    (d : Digest) (p hash : Text) (o x : Object) (c : Cache)
    → find p c.objs ≡ some o
    → find p c.in_flight ≡ some x
    → (o.stored_at == x.stored_at) ≡ false
    → hash_fits hash x ≡ true
    → c.cfg.write_back ≡ true
    → length c.flush_queue < queue_capacity
    → let c' = flush_end d p (uploaded hash) c in
      (c'.objs ≡ c.objs)
      × (c'.journal ≡ c.journal)
      × (c'.dirty_bytes ≡ c.dirty_bytes)
      × (find p c'.in_flight ≡ none)
      × (c'.flush_queue ≡ c.flush_queue ++ (p ∷ []))
unfolding flush_end
superseded_upload d p hash o x c f g v t w n =
    rw (g, flush_end)
      (rw (t, finish_upload)
        (rw (set_state_stale p o x clean [] x.flush_attempts c f v) (
          unfold settle_clean enqueue in
          rw w (
            ground (arith),
            ground (arith),
            ground (arith),
            ground (arith, find-delete_self p c.in_flight),
            ground (arith),
          ))))

cut_length : Option ℕ → List ℕ → ℕ
cut_length none bs = 0
cut_length (some k) bs = length (take k bs)

cut_length_le : (stops : Option ℕ) (bs : List ℕ) → cut_length stops bs ≤ length bs
unfolding cut_length
cut_length_le none bs = omega arith
cut_length_le (some k) bs = length-take_le k bs

-- A write never takes a limited writer past its limit, whatever the disk does.
write-le-limit :
    (stops : Option ℕ) (bs : List ℕ) (w : Writer)
    → 0 < w.limit
    → w.n ≤ w.limit
    → ((write stops bs w).0.n ≤ w.limit) × ((write stops bs w).0.limit ≡ w.limit)
unfolding write cut_length
write-le-limit stops bs w h k = ground (arith, cut_length_le stops bs)

-- Any sequence of writes, each with the answer of the disk.
unfoldable pub write_all : List (Option ℕ × List ℕ) → Writer → Writer
write_all [] w = w
write_all ((stops, bs) ∷ ws) w = write_all ws (write stops bs w).0

write_all-le-limit :
    (ws : List (Option ℕ × List ℕ)) (w : Writer)
    → 0 < w.limit
    → w.n ≤ w.limit
    → (write_all ws w).n ≤ w.limit
unfolding write_all
write_all-le-limit [] w h k = k
write_all-le-limit ((stops, bs) ∷ ws) w h k =
    let (below, same) = write-le-limit stops bs w h k in
    omega (
      arith,
      same,
      write_all-le-limit ws (write stops bs w).0 (omega (arith, same)) (omega (arith, same, below)),
    )

-- The writer of an admitted write starts empty, with the room that there was for its limit.
pub new_writer-room :
    (tmp : Bool) (p : Text) (expected : ℕ) (c : Cache) (w : Writer)
    → new_writer tmp p expected true c ≡ ok w
    → (w.limit ≡ room_for p c) × (w.n ≡ 0) × (0 < w.limit)
unfolding new_writer
new_writer-room tmp p expected c w h = ground arith

-- What a commit adds to the dirty account.
dirty-commit :
    (d : Digest) (stop : CommitStop) (w : Writer) (o : Object) (c : Cache)
    → (commit d stop w o c).0.dirty_bytes
      ≤ max c.dirty_bytes
          (c.dirty_bytes - share dirty_share (find o.remote_path c.objs) + dirty_share o)
unfolding commit index_put
dirty-commit d tmp_sync w o c = ground arith
dirty-commit d tmp_close w o c = ground arith
dirty-commit d rename w o c = ground arith
dirty-commit d dir_sync w o c = ground arith
dirty-commit d nowhere w o c = ground arith

-- A write-back write that was admitted, took any writes and is committed, with no other commit
-- between, does not lift the unsent bytes of an accounted state within the allowance above it.
pub admitted_within_allowance :
    (d : Digest) (tmp : Bool) (p : Text) (expected : ℕ) (c : Cache) (w : Writer)
    (ws : List (Option ℕ × List ℕ)) (stop : CommitStop) (o : Object)
    → IsAccounted c
    → c.dirty_bytes ≤ c.cfg.max_dirty_bytes
    → new_writer tmp p expected true c ≡ ok w
    → o.remote_path ≡ p
    → o.size ≡ (write_all ws w).n
    → (commit d stop (write_all ws w) o c).0.dirty_bytes ≤ c.cfg.max_dirty_bytes
unfolding room_for dirty_share
admitted_within_allowance d tmp p expected c w ws stop o a le admitted same size =
    let (room, start, pos) = new_writer-room tmp p expected c w admitted in
    let below = write_all-le-limit ws w pos (omega (arith, start)) in
    let here : share dirty_share (find o.remote_path c.objs) ≡ share dirty_share (find p c.objs) =
      ap (λ q. share dirty_share (find q c.objs)) same in
    ground (
      arith,
      dirty-commit d stop (write_all ws w) o c,
      share-le-total dirty_share p c.objs,
      a.dirty_exact,
      here,
      room,
      below,
    )
