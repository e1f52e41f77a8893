-- ===== src/DataCache/Recovery/Records.antt =====
-- Replayed indexes and live ones (internal/datacache/journal.go, `applyRecord`). Two views of an index
-- agree when they have the same objects but for the time of the last access, whose records are not
-- flushed, and the count of failed attempts, which a record cannot set back to 0.
use opendrive_bridge.Common.{
  ℕ, ◌≡◌, refl, sym, ap, ◌∙◌, true, false, Option, none, some, arith, inl, inr, Option-cases,
  Bool-cases, ==_iff, ◌==◌, ltb, if_intro,
}
use opendrive_bridge.Common.Text.{Text, text_eq_iff, is_empty}
use opendrive_bridge.Common.Dict.{Dict, find, insert, delete, find-insert, find-delete}
use opendrive_bridge.DataCache.Types.{Object, op_put, op_state, op_drop, op_touch}
use opendrive_bridge.DataCache.Journal.{apply_record, apply_state}
use opendrive_bridge.DataCache.Flush.{Change, changed, change_record}

abbrev pub seen : Option Object → Option Object
seen none = none
seen (some o) = some (record o { last_access = 0; flush_attempts = 0 })

pub record Agree (a b : Dict Object) : Type 0 where
  pub at : (p : Text) → seen (find p a) ≡ seen (find p b)

Agree-insert :
    {a b : Dict Object} (p : Text) (o o' : Object)
    → Agree a b
    → seen (some o) ≡ seen (some o')
    → Agree (insert p o a) (insert p o' b)
Agree-insert {a} {b} p o o' h e = record {
  at = λ q. ground (arith, find-insert p q o a, find-insert p q o' b, h.at q);
}

Agree-delete : {a b : Dict Object} (p : Text) → Agree a b → Agree (delete p a) (delete p b)
Agree-delete {a} {b} p h = record {
  at = λ q. ground (arith, find-delete p q a, find-delete p q b, h.at q);
}

-- A put is replayed as the commit stored it.
pub put-Agree :
    {a b : Dict Object} (o : Object)
    → is_empty o.remote_path ≡ false
    → Agree a b
    → Agree (apply_record a (op_put o)) (insert o.remote_path o b)
unfolding apply_record
put-Agree o n h = rw n (Agree-insert o.remote_path o o h refl)

pub drop-Agree :
    {a b : Dict Object} (p : Text) → Agree a b → Agree (apply_record a (op_drop p)) (delete p b)
unfolding apply_record
drop-Agree p h = Agree-delete p h

-- A read, logged or not, shows in neither.
pub glance-Agree :
    {a b : Dict Object} (p : Text) (o : Object) (now : ℕ)
    → find p b ≡ some o
    → Agree a b
    → Agree a (insert p (record o { last_access = now }) b)
glance-Agree {a} {b} p o now f h = record {
  at = λ q.
      ground
        (arith, find-insert p q (record o { last_access = now }) b, text_eq_iff p q, h.at q, f);
}

pub touch-Agree :
    {a b : Dict Object} (p : Text) (t : ℕ) → Agree a b → Agree (apply_record a (op_touch p t)) b
unfolding apply_record
touch-Agree {a} {b} p t h = elim (Option-cases (find p a)) [
  | inl e ↦ rw (e, apply_record) h
  | inr (o, e) ↦
      rw (e, apply_record)
        (if_intro (λ m. Agree m b) (ltb 0 t) (insert p (record o { last_access = t }) a) a
          (record {
            at = λ q. ground (
              arith,
              find-insert p q (record o { last_access = t }) a,
              text_eq_iff p q,
              h.at q,
              e,
            );
          })
          h)
]

pub seen-some :
    (x : Option Object) (o : Object)
    → seen x ≡ seen (some o)
    → (y : Object) × (x ≡ some y) × (seen (some y) ≡ seen (some o))
seen-some none o h = cc
seen-some (some y) o h = (y, refl, h)

same_version : (y o : Object) → seen (some y) ≡ seen (some o) → y.stored_at ≡ o.stored_at
same_version y o h = cc

seen-apply_state :
    (p : Text) (ch : Change) (y o : Object)
    → seen (some y) ≡ seen (some o)
    → seen (some (apply_state (change_record p ch) y)) ≡ seen (some (changed ch o))
unfolding apply_state changed
seen-apply_state p ch y o h = ground arith

-- A state record about the version that stands in the index is replayed as the index moved.
pub state-Agree :
    {a b : Dict Object} (p : Text) (o : Object) (ch : Change)
    → find p b ≡ some o
    → o.stored_at ≡ ch.of
    → Agree a b
    → Agree (apply_record a (op_state (change_record p ch))) (insert p (changed ch o) b)
unfolding apply_record
state-Agree {a} {b} p o ch f v h =
    let (y, e, s) = seen-some (find p a) o (h.at p ∙ ap seen f) in
    let t : (ch.of == y.stored_at) ≡ true =
      (==_iff ch.of y.stored_at).1 (sym (same_version y o s ∙ v)) in
    rw (e, apply_record)
      (rw (t) (elim (Bool-cases (ch.of == 0)) [
        | inl z ↦ rw z (Agree-insert p _ _ h (seen-apply_state p ch y o s))
        | inr z ↦ rw z (Agree-insert p _ _ h (seen-apply_state p ch y o s))
      ]))

-- A state record about a version that was replaced is not replayed.
pub stale_record_ignored :
    (m : Dict Object) (p : Text) (o : Object) (ch : Change)
    → find p m ≡ some o
    → (ch.of == 0) ≡ false
    → (ch.of == o.stored_at) ≡ false
    → apply_record m (op_state (change_record p ch)) ≡ m
unfolding apply_record
stale_record_ignored m p o ch f z v = rw (f, apply_record) (rw (z, v) refl)
