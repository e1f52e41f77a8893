-- ===== src/DataCache/Rules/Concurrent.antt =====
-- Two writes that are open at once (internal/datacache/store.go, `newWriter`).
use opendrive_bridge.Common.{ℕ, ◌+◌, ◌≤◌, ◌<◌, ◌≡◌, refl, ap, ◌∙◌, true, false, none, arith}
use opendrive_bridge.Common.Text.{Text, text_eq}
use opendrive_bridge.Common.Dict.{find, insert, find-insert}
use opendrive_bridge.DataCache.Types.{unsent, Object, op_put, Cache, Digest, ok}
use opendrive_bridge.DataCache.Journal.{append, IsReliable}
use opendrive_bridge.DataCache.Index.{dirty_share, index_put}
use opendrive_bridge.DataCache.Writing.{Writer, new_writer, room_for, commit, commit_steps, nowhere}
use opendrive_bridge.DataCache.Trace.Commits.{accepts_of_IsReliable}
use opendrive_bridge.DataCache.Recovery.Runs.{append-reliable}
use opendrive_bridge.DataCache.Rules.Limits.{new_writer-room}

append-IsReliable :
    (o : Object) (c : Cache)
    → IsReliable c.journal
    → IsReliable (append (op_put o) true c.journal).0
append-IsReliable o c r = rw (append-reliable (op_put o) true c.journal r) (r.0, refl)

-- A commit that goes through at a path where nothing stands.
commit-new :
    (d : Digest) (w : Writer) (o : Object) (c : Cache)
    → w.closed ≡ false
    → IsReliable c.journal
    → find o.remote_path c.objs ≡ none
    → unsent o.state ≡ true
    → let c' = (commit d nowhere w o c).0 in
      (c'.dirty_bytes ≡ c.dirty_bytes + o.size)
      × (c'.objs ≡ insert o.remote_path o c.objs)
      × IsReliable c'.journal
unfolding commit index_put dirty_share
commit-new d w o c h r f u =
    rw (h, commit)
      (rw (accepts_of_IsReliable (op_put o) c r, commit_steps)
        (rw f (rw u (omega arith)), refl, append-IsReliable o c r))

-- Two writes to new paths are admitted while there is room. Each of them takes as much as it was
-- allowed, and both are committed: the unsent bytes are then above the allowance.
pub two_writers_exceed :
    (d : Digest) (c : Cache) (p q : Text) (n m : ℕ) (v w v' w' : Writer) (o x : Object)
    → IsReliable c.journal
    → c.dirty_bytes ≤ c.cfg.max_dirty_bytes
    → find p c.objs ≡ none
    → find q c.objs ≡ none
    → text_eq p q ≡ false
    → new_writer true p n true c ≡ ok v
    → new_writer true q m true c ≡ ok w
    → (v'.closed ≡ false) × (o.remote_path ≡ p) × (unsent o.state ≡ true) × (o.size ≡ v.limit)
    → (w'.closed ≡ false) × (x.remote_path ≡ q) × (unsent x.state ≡ true) × (x.size ≡ w.limit)
    → c.cfg.max_dirty_bytes < (commit d nowhere w' x (commit d nowhere v' o c).0).0.dirty_bytes
unfolding room_for
two_writers_exceed d c p q n m v w v' w' o x r le fp fq ne av aw (vc, op, ou, os) (wc, xp, xu, xs) =
    let c1 = (commit d nowhere v' o c).0 in
    let (dirty1, objs1, rel1) = commit-new d v' o c vc r (ap (λ y. find y c.objs) op ∙ fp) ou in
    let absent : find x.remote_path c1.objs ≡ none =
      ap (λ y. find y c1.objs) xp
      ∙ (ap (find q) objs1
          ∙ ground
              (arith, find-insert o.remote_path q o c.objs, ap (λ y. text_eq y q) op, ne, fq)) in
    let (dirty2, objs2, rel2) = commit-new d w' x c1 wc rel1 absent xu in
    ground (
      arith,
      dirty1,
      dirty2,
      os,
      xs,
      new_writer-room true p n c v av,
      new_writer-room true q m c w aw,
      fp,
      fq,
      le,
    )
