-- ===== src/DataCache/Recovery/Scan.antt =====
-- The startup scan, entry by entry (internal/datacache/store.go, `verifyAgainstDisk`).
use opendrive_bridge.Common.{
  ℕ, ◌≡◌, sym, ap, ◌∙◌, inl, inr, false, none, some, List, [], ◌∷◌, arith, length, Bool-cases,
}
use opendrive_bridge.Common.Text.{Text, text_eq, text_eq_iff, text_eq_refl}
use opendrive_bridge.Common.Dict.{Dict, find, find-delete, IsDistinct}
use opendrive_bridge.DataCache.Types.{Object, Digest}
use opendrive_bridge.DataCache.Startup.{Scan, scan_entry, scan_entries}

-- Different paths have different file names: what a collision-free hash gives.
abbrev pub IsInjective : Digest → Type 0
IsInjective d = (p q : Text) → d.content_name p ≡ d.content_name q → p ≡ q

-- A scan that has an object for a path keeps it where no later entry has that path.
kept_stays :
    (d : Digest) (p : Text) (o : Object) (m : Dict Object) (s : Scan)
    → find p m ≡ none
    → find p s.kept ≡ some o
    → find p (scan_entries d m s).kept ≡ some o
unfolding scan_entries find
kept_stays d p o [] s h k = k
kept_stays d p o ((j, w) ∷ m) s h k =
    kept_stays d p o m (scan_entry d j w s) (ground arith) (ground arith)

on_disk-scan_entry :
    (d : Digest) (p j : Text) (w : Object) (s : Scan) (content : List ℕ)
    → (d.content_name j ≡ d.content_name p → j ≡ p)
    → text_eq j p ≡ false
    → find (d.content_name p) s.on_disk ≡ some content
    → find (d.content_name p) (scan_entry d j w s).on_disk ≡ some content
unfolding scan_entry
on_disk-scan_entry d p j w s content inj h f = ground (
  arith,
  find-delete (d.content_name j) (d.content_name p) s.on_disk,
  text_eq_iff (d.content_name j) (d.content_name p),
  text_eq_iff j p,
)

-- An entry whose content has its size is kept.
pub find-scan_entries :
    (d : Digest)
    → IsInjective d
    → (p : Text) (o : Object) (content : List ℕ) (m : Dict Object) (s : Scan) → IsDistinct m
    → find p m ≡ some o
    → find (d.content_name p) s.on_disk ≡ some content
    → length content ≡ o.size
    → find p (scan_entries d m s).kept ≡ some o
unfolding scan_entries
find-scan_entries d inj p o content [] s ds f g z = unfold find in cc
find-scan_entries d inj p o content ((j, w) ∷ m) s ds f g z = elim (Bool-cases (text_eq j p)) [
  | inl e ↦
      let same : j ≡ p = (text_eq_iff j p).0 e in
      kept_stays d p o m (scan_entry d j w s) (ap (λ x. find x m) (sym same) ∙ ds.0)
        (unfold find scan_entry in ground (arith, text_eq_iff j p, text_eq_refl p))
  | inr e ↦
      find-scan_entries d inj p o content m (scan_entry d j w s) ds.1 (unfold find in ground arith)
        (on_disk-scan_entry d p j w s content (inj j p) e g) z
]
