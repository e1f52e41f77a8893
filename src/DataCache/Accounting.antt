-- ===== src/DataCache/Accounting.antt =====
-- The accounts of the index (internal/datacache/store.go): its byte counters against the objects that
-- it holds, and the paths under which they stand.
use opendrive_bridge.Common.{
  ℕ, ◌+◌, ◌-◌, ◌≡◌, refl, ap, subst, ◌∙◌, Bool, some, arith, inl, inr, Option-cases, All,
}
use opendrive_bridge.Common.Text.{Text, text_eq_iff}
use opendrive_bridge.Common.Dict.{
  Dict, find, insert, delete, total, share, IsDistinct, insert-IsDistinct, delete-IsDistinct,
  total-insert, total-delete, share-le-total, find-insert, find-delete, values, values-All,
}
use opendrive_bridge.DataCache.Types.{Object, Cache, Digest}
use opendrive_bridge.DataCache.Index.{dirty_share, size_of, index_put, forget}
use opendrive_bridge.DataCache.Flush.{changed, change_to}
use opendrive_bridge.DataCache.Moves.{
  Move, quiet, claim, let_go, reject, glance, log_touch, store, spoil, drop, change, Moves,
  Moves-keep,
}

pub record Accounts (m : Dict Object) (bytes dirty_bytes : ℕ) : Type 0 where
  pub distinct : IsDistinct m
  pub bytes_exact : bytes ≡ total size_of m
  pub dirty_exact : dirty_bytes ≡ total dirty_share m
  pub keyed : (p : Text) (o : Object) → find p m ≡ some o → o.remote_path ≡ p

abbrev pub IsAccounted : Cache → Type 0
IsAccounted c = Accounts c.objs c.bytes c.dirty_bytes

module _ {m : Dict Object} {b e : ℕ} (a : Accounts m b e) where
  keyed-insert :
      (p : Text) (o : Object)
      → o.remote_path ≡ p
      → (q : Text) (x : Object) → find q (insert p o m) ≡ some x
      → x.remote_path ≡ q
  keyed-insert p o h q x f = ground (arith, find-insert p q o m, text_eq_iff p q, a.keyed q x)

  keyed-delete : (p q : Text) (x : Object) → find q (delete p m) ≡ some x → x.remote_path ≡ q
  keyed-delete p q x f = ground (arith, find-delete p q m, a.keyed q x)

  -- An object that replaces whatever stood at its path.
  pub put-Accounts :
      (p : Text) (o : Object)
      → o.remote_path ≡ p
      → Accounts
          (insert p o m)
          (b - share size_of (find p m) + o.size)
          (e - share dirty_share (find p m) + dirty_share o)
  put-Accounts p o h = record {
    distinct = insert-IsDistinct p o m a.distinct;
    bytes_exact =
        omega (arith, total-insert size_of p o m, share-le-total size_of p m, a.bytes_exact);
    dirty_exact =
        omega
          (arith, total-insert dirty_share p o m, share-le-total dirty_share p m, a.dirty_exact);
    keyed = keyed-insert p o h;
  }

  -- An object taken out.
  pub drop-Accounts :
      (p : Text)
      → Accounts (delete p m) (b - share size_of (find p m)) (e - share dirty_share (find p m))
  drop-Accounts p = record {
    distinct = delete-IsDistinct p m a.distinct;
    bytes_exact = omega (arith, total-delete size_of p m a.distinct, a.bytes_exact);
    dirty_exact = omega (arith, total-delete dirty_share p m a.distinct, a.dirty_exact);
    keyed = keyed-delete p;
  }

  -- An entry changed in place, its size kept.
  pub change-Accounts :
      (p : Text) (o o' : Object)
      → find p m ≡ some o
      → o'.remote_path ≡ o.remote_path
      → o'.size ≡ o.size
      → Accounts (insert p o' m) b (e - dirty_share o + dirty_share o')
  change-Accounts p o o' f r s = record {
    distinct = insert-IsDistinct p o' m a.distinct;
    bytes_exact =
        omega (arith, total-insert size_of p o' m, ap (share size_of) f, a.bytes_exact, s);
    dirty_exact = omega (
      arith,
      total-insert dirty_share p o' m,
      share-le-total dirty_share p m,
      ap (share dirty_share) f,
      a.dirty_exact,
    );
    keyed = keyed-insert p o' (r ∙ a.keyed p o f);
  }

module _ {m : Dict Object} {b e : ℕ} (a : Accounts m b e) where
  -- A read changes the time of the last access alone.
  pub access-Accounts :
      (p : Text) (o : Object) (now : ℕ)
      → find p m ≡ some o
      → Accounts (insert p (record o { last_access = now }) m) b e
  unfolding dirty_share
  access-Accounts p o now f =
      let eq : e - dirty_share o + dirty_share (record o { last_access = now }) ≡ e =
        omega (arith, share-le-total dirty_share p m, ap (share dirty_share) f, a.dirty_exact) in
      subst (λ x. Accounts (insert p (record o { last_access = now }) m) b x) eq
        (change-Accounts a p o (record o { last_access = now }) f refl refl)

-- Forgetting an object keeps the accounts.
pub forget-IsAccounted :
    (d : Digest) (p : Text) (c : Cache) → IsAccounted c → IsAccounted (forget d p c)
unfolding forget
forget-IsAccounted d p c a = elim (Option-cases (find p c.objs)) [
  | inl e ↦ rw (e, forget) a
  | inr (x, e) ↦ rw (e, forget) (rw e at (drop-Accounts a p))
]

-- Every move keeps the accounts, whatever the journal and the disk answer.
pub Move-IsAccounted :
    {k : Bool} {d : Digest} (c c' : Cache) → Move k d c c' → IsAccounted c → IsAccounted c'
unfolding index_put changed
Move-IsAccounted c c' (quiet h m q dr cl e) a = rw e a
Move-IsAccounted c c' (claim p o f e) a = rw e a
Move-IsAccounted c c' (let_go p e) a = rw e a
Move-IsAccounted c c' (reject rec f e) a = rw e a
Move-IsAccounted c c' (glance p o now f e) a = rw e (access-Accounts a p o now f)
Move-IsAccounted c c' (log_touch p now e) a = rw e a
Move-IsAccounted c c' (store content o s n f e) a = rw e (put-Accounts a o.remote_path o refl)
Move-IsAccounted c c' (spoil p content t e) a = rw e a
Move-IsAccounted {d = d} c c' (drop p o g f h e) a = rw e (forget-IsAccounted d p c a)
Move-IsAccounted c c' (change p o x st reason attempts f g v w t e) a =
    rw e (change-Accounts a p o (changed (change_to st reason attempts x) o) f refl refl)

pub Moves-IsAccounted :
    {k : Bool} {d : Digest} {c c' : Cache} → Moves k d c c' → IsAccounted c → IsAccounted c'
Moves-IsAccounted = Moves-keep IsAccounted Move-IsAccounted

-- An object that the index holds stands under its own path, and only there.
pub values-at_own_path :
    {m : Dict Object} {b e : ℕ}
    → Accounts m b e
    → All (λ o. find o.remote_path m ≡ some o) (values m)
values-at_own_path {m} a = values-All m a.distinct (λ k v f. ap (λ x. find x m) (a.keyed k v f) ∙ f)
