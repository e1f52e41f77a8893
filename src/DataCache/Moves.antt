-- ===== src/DataCache/Moves.antt =====
-- The primitive moves of the gateway. Every step of it is a sequence of them (Moves/Steps), so an
-- invariant is proved once for each move, in which the code's guard stands as a premise.
use opendrive_bridge.Common.{ℕ, ◌+◌, ◌-◌, ◌≡◌, Bool, true, false, none, some, List, length}
use opendrive_bridge.Common.Text.{Text, is_empty}
use opendrive_bridge.Common.Dict.{find, insert, delete}
use opendrive_bridge.DataCache.Types.{
  State, dirty, uploading, clean, unsent, Object, JournalRecord, op_put, op_state, op_touch, Cache,
  Digest,
}
use opendrive_bridge.DataCache.Journal.{append}
use opendrive_bridge.DataCache.Index.{dirty_share, index_put, forget}
use opendrive_bridge.DataCache.Flush.{
  Change, changed, change_to, change_record, sendable, hash_fits,
}

-- Why an object may leave the index: it is upstream, its content does not open, or its user asked
-- for it and no upload holds it.
pub data Grounds : Type 0 where
  clean_copy unreadable requested : Grounds

abbrev pub Holds : Grounds → Text → Object → Cache → Type 0
Holds clean_copy p o c = unsent o.state ≡ false
Holds unreadable p o c = Unit
Holds requested p o c = find p c.in_flight ≡ none

-- Why the version `x` in flight changes its state, and the attempts that are recorded with it.
pub data Cause (x : Object) (st : State) (attempts : ℕ) : Type 0 where
  starts :
      st ≡ uploading → attempts ≡ x.flush_attempts → unsent x.state ≡ true → Cause x st attempts
  fails : st ≡ dirty → attempts ≡ x.flush_attempts + 1 → Cause x st attempts
  arrives :
      (hash : Text)
      → hash_fits hash x ≡ true
      → st ≡ clean
      → attempts ≡ x.flush_attempts
      → Cause x st attempts

-- The result of a durable append.
abbrev pub logged : JournalRecord → Cache → Cache
logged rec c = record c { journal = (append rec true c.journal).0 }

abbrev pub accepts : JournalRecord → Cache → Bool
accepts rec c = (append rec true c.journal).1

-- A state change on the index.
abbrev pub moved : Text → Object → Change → Cache → Cache
moved p o ch c = record c {
  objs = insert p (changed ch o) c.objs;
  dirty_bytes = c.dirty_bytes - dirty_share o + dirty_share (changed ch o);
}

abbrev pub state_record : Text → Change → JournalRecord
state_record p ch = op_state (change_record p ch)

-- `k` tells whether a failed commit may spoil a file: only the theorems that say so exclude it.
pub data Move (k : Bool) (d : Digest) (c c' : Cache) : Type 0 where
  -- counters, the queue and the two flags of a shutdown
  quiet :
      (h m : ℕ) (q : List Text) (dr cl : Bool)
      → c' ≡ record c { hits = h; misses = m; flush_queue = q; draining = dr; closed = cl }
      → Move k d c c'
  -- an upload takes its slot, and gives it back
  claim :
      (p : Text) (o : Object)
      → sendable p c ≡ some o
      → c' ≡ record c { in_flight = insert p o c.in_flight }
      → Move k d c c'
  let_go : (p : Text) → c' ≡ record c { in_flight = delete p c.in_flight } → Move k d c c'
  -- a record that the journal does not take
  reject : (rec : JournalRecord) → accepts rec c ≡ false → c' ≡ logged rec c → Move k d c c'
  -- a read sets the time of the last access, and logs it without a flush
  glance :
      (p : Text) (o : Object) (now : ℕ)
      → find p c.objs ≡ some o
      → c' ≡ record c { objs = insert p (record o { last_access = now }) c.objs }
      → Move k d c c'
  log_touch :
      (p : Text) (now : ℕ)
      → c' ≡ record c { journal = (append (op_touch p now) false c.journal).0 }
      → Move k d c c'
  -- a commit that went through, and what a failed one leaves of the file
  store :
      (content : List ℕ) (o : Object)
      → o.size ≡ length content
      → is_empty o.remote_path ≡ false
      → accepts (op_put o) c ≡ true
      → c'
        ≡ index_put o (record (logged (op_put o) c) {
          files = insert (d.content_name o.remote_path) content c.files;
        })
      → Move k d c c'
  spoil :
      (p : Text) (content : List ℕ)
      → k ≡ true
      → c'
        ≡ record c { files = delete (d.content_name p) (insert (d.content_name p) content c.files) }
      → Move k d c c'
  drop :
      (p : Text) (o : Object) (g : Grounds)
      → find p c.objs ≡ some o
      → Holds g p o c
      → c' ≡ forget d p c
      → Move k d c c'
  change :
      (p : Text) (o x : Object) (st : State) (reason : Text) (attempts : ℕ)
      → find p c.objs ≡ some o
      → find p c.in_flight ≡ some x
      → o.stored_at ≡ x.stored_at
      → Cause x st attempts
      → accepts (state_record p (change_to st reason attempts x)) c ≡ true
      → c'
        ≡ moved p o
            (change_to st reason attempts x)
            (logged (state_record p (change_to st reason attempts x)) c)
      → Move k d c c'

pub data Moves (k : Bool) (d : Digest) : Cache → Cache → Type 0 where
  here : {a : Cache} → Moves k d a a
  next : {a b c : Cache} → Move k d a b → Moves k d b c → Moves k d a c

pub Moves-one : {k : Bool} {d : Digest} {a b : Cache} → Move k d a b → Moves k d a b
Moves-one m = next m here

pub Moves-append :
    {k : Bool} {d : Digest} {a b c : Cache} → Moves k d a b → Moves k d b c → Moves k d a c
Moves-append here ns = ns
Moves-append (next m ms) ns = next m (Moves-append ms ns)

-- What every move keeps, every sequence of moves keeps.
pub Moves-keep :
    {k : Bool} {d : Digest} (P : Cache → Type 0)
    → ((a b : Cache) → Move k d a b → P a → P b)
    → {a b : Cache} → Moves k d a b
    → P a
    → P b
Moves-keep P keep here h = h
Moves-keep P keep (next {a = a} {b = x} m ms) h = Moves-keep P keep ms (keep a x m h)
