-- ===== src/DataCache/Recovery/Contents.antt =====
-- The content files of the objects of the index, over the runs of the gateway
-- (internal/datacache).
use opendrive_bridge.Common.{
  ℕ, ◌≡◌, ◌≢◌, refl, sym, ap, ◌∙◌, inl, inr, false, some, List, [], ◌∷◌, arith, length, All,
  Bool-cases,
}
use opendrive_bridge.Common.Text.{Text, text_eq, text_eq_iff}
use opendrive_bridge.Common.Dict.{
  Dict, find, insert, delete, find-insert, find-delete, find-insert_self,
}
use opendrive_bridge.DataCache.Types.{Object, Cache, Digest}
use opendrive_bridge.DataCache.Index.{index_put, forget}
use opendrive_bridge.DataCache.Writing.{dir_sync}
use opendrive_bridge.DataCache.Flush.{changed, change_to}
use opendrive_bridge.DataCache.Steps.{
  Step, commit_put, commit_fill, read, begin_flush, end_flush, refresh_path, remove_path, clear_all,
  drain_all, close_all, step, run,
}
use opendrive_bridge.DataCache.Moves.{
  Move, quiet, claim, let_go, reject, glance, log_touch, store, spoil, drop, change, Moves,
  Moves-keep, Moves-append,
}
use opendrive_bridge.DataCache.Accounting.{IsAccounted, Moves-IsAccounted}
use opendrive_bridge.DataCache.Trace.Steps.{IsSound, StepDisk, step-Moves}
use opendrive_bridge.DataCache.Recovery.Runs.{IsRecorded}
use opendrive_bridge.DataCache.Recovery.Invariant.{Moves-IsRecorded}
use opendrive_bridge.DataCache.Recovery.Scan.{IsInjective}

-- The file of a path, with as many bytes as its object counts.
abbrev pub FileFor : Digest → Dict (List ℕ) → Text → Object → Type 0
FileFor d files p o =
    (content : List ℕ) × (find (d.content_name p) files ≡ some content) × (length content ≡ o.size)

pub record Contents (d : Digest) (objs : Dict Object) (files : Dict (List ℕ)) : Type 0 where
  pub at : (p : Text) (o : Object) → find p objs ≡ some o → FileFor d files p o

abbrev pub HasContents : Digest → Cache → Type 0
HasContents d c = Contents d c.objs c.files

module _ (d : Digest) (inj : IsInjective d) where
  name_ne :
      (p q : Text) → text_eq p q ≡ false → text_eq (d.content_name p) (d.content_name q) ≡ false
  name_ne p q h = elim (Bool-cases (text_eq (d.content_name p) (d.content_name q))) [
    | inl e ↦ cc (h, (text_eq_iff p q).1 (inj p q ((text_eq_iff _ _).0 e)))
    | inr e ↦ e
  ]

  -- An entry that keeps its size keeps its file.
  change-Contents :
      {objs : Dict Object} {files : Dict (List ℕ)} (p : Text) (o o' : Object)
      → find p objs ≡ some o
      → o'.size ≡ o.size
      → Contents d objs files
      → Contents d (insert p o' objs) files
  change-Contents {objs} {files} p o o' f z h = record {
    at = λ q x g. elim (Bool-cases (text_eq p q)) [
      | inl e ↦
          let same : p ≡ q = (text_eq_iff p q).0 e in
          let (content, fits, size) = h.at q o (ap (λ y. find y objs) (sym same) ∙ f) in
          (content, fits, ground (arith, find-insert p q o' objs, e, g, size, z))
      | inr e ↦ h.at q x (ground (arith, find-insert p q o' objs, e, g))
    ];
  }

  store-Contents :
      {objs : Dict Object} {files : Dict (List ℕ)} (p : Text) (o : Object) (content : List ℕ)
      → o.size ≡ length content
      → Contents d objs files
      → Contents d (insert p o objs) (insert (d.content_name p) content files)
  store-Contents {objs} {files} p o content z h = record {
    at = λ q x g. elim (Bool-cases (text_eq p q)) [
      | inl e ↦
          let same : p ≡ q = (text_eq_iff p q).0 e in
          (
            content,
            ap (λ y. find (d.content_name y) (insert (d.content_name p) content files)) (sym same)
                ∙ find-insert_self (d.content_name p) content files,
            ground (arith, find-insert p q o objs, e, g, z),
          )
      | inr e ↦
          let (old, fits, size) = h.at q x (ground (arith, find-insert p q o objs, e, g)) in
          (
            old,
            ground (
              arith,
              find-insert (d.content_name p) (d.content_name q) content files,
              name_ne p q e,
              fits,
            ),
            size,
          )
    ];
  }

  drop-Contents :
      {objs : Dict Object} {files : Dict (List ℕ)} (p : Text)
      → Contents d objs files
      → Contents d (delete p objs) (delete (d.content_name p) files)
  drop-Contents {objs} {files} p h = record {
    at = λ q x g. elim (Bool-cases (text_eq p q)) [
      | inl e ↦ absurd (ground (arith, find-delete p q objs, e, g))
      | inr e ↦
          let (old, fits, size) = h.at q x (ground (arith, find-delete p q objs, e, g)) in
          (
            old,
            ground (
              arith,
              find-delete (d.content_name p) (d.content_name q) files,
              name_ne p q e,
              fits,
            ),
            size,
          )
    ];
  }

  pub Move-HasContents : (c c' : Cache) → Move false d c c' → HasContents d c → HasContents d c'
  unfolding index_put forget changed
  Move-HasContents c c' (quiet h m q dr cl e) r = rw e r
  Move-HasContents c c' (claim p o f e) r = rw e r
  Move-HasContents c c' (let_go p e) r = rw e r
  Move-HasContents c c' (reject rec f e) r = rw e r
  Move-HasContents c c' (glance p o now f e) r =
      rw e (change-Contents p o (record o { last_access = now }) f refl r)
  Move-HasContents c c' (log_touch p now e) r = rw e r
  Move-HasContents c c' (store content o s n f e) r =
      rw e (store-Contents o.remote_path o content s r)
  Move-HasContents c c' (spoil p content t e) r = cc t
  Move-HasContents c c' (drop p o g f h e) r = rw e (rw (f, forget) (drop-Contents p r))
  Move-HasContents c c' (change p o x st reason attempts f g v w t e) r =
      rw e (change-Contents p o (changed (change_to st reason attempts x) o) f refl r)

-- A step in which no directory sync fails.
abbrev pub IsCalm : Step → Type 0
IsCalm (commit_put stop now pw) = stop ≢ dir_sync
IsCalm (commit_fill stop now want w) = stop ≢ dir_sync
IsCalm _ = Unit

pub calm-Disk : (s : Step) (c : Cache) → IsCalm s → IsRecorded c → StepDisk false s c
calm-Disk (commit_put stop now pw) c h r = inr (h, r.reliable)
calm-Disk (commit_fill stop now want w) c h r = inr (h, r.reliable)
calm-Disk (read opens now p) c h r = tt
calm-Disk (begin_flush opens p) c h r = tt
calm-Disk (end_flush p q) c h r = tt
calm-Disk (refresh_path p) c h r = tt
calm-Disk (remove_path p) c h r = tt
calm-Disk clear_all c h r = tt
calm-Disk drain_all c h r = tt
calm-Disk close_all c h r = tt

-- A run of calm steps from a recorded state is a sequence of moves that spoil no file.
pub run-Moves_calm :
    (d : Digest) (ss : List Step) (c : Cache)
    → IsAccounted c
    → IsRecorded c
    → All (λ s. IsSound d s × IsCalm s) ss
    → Moves false d c (run d ss c)
unfolding run
run-Moves_calm d [] c a r hs = Moves.here
run-Moves_calm d (s ∷ ss) c a r hs =
    let ms : Moves false d c (step d s c) = step-Moves d s c a hs.0.0 (calm-Disk s c hs.0.1 r) in
    Moves-append ms
      (run-Moves_calm d ss (step d s c) (Moves-IsAccounted ms a) (Moves-IsRecorded ms r) hs.1)

pub run-HasContents :
    (d : Digest)
    → IsInjective d
    → (ss : List Step) (c : Cache) → IsAccounted c
    → IsRecorded c
    → All (λ s. IsSound d s × IsCalm s) ss
    → HasContents d c
    → HasContents d (run d ss c)
run-HasContents d inj ss c a r hs h =
    Moves-keep (HasContents d) (Move-HasContents d inj) (run-Moves_calm d ss c a r hs) h
