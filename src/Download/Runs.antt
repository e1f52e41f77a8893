-- ===== src/Download/Runs.antt =====
-- Downloads into a file, one after another (`DownloadFile` of pkg/opendrive/download.go).
use mathlib.Core.List.{append-nil}
use opendrive_bridge.Common.{
  ℕ, ◌+◌, ◌≡◌, ◌⊎◌, refl, sym, ap, subst, ◌∙◌, true, ◌&&◌, none, some, List, [], ◌∷◌, ◌++◌, arith,
  length, skip, skip-all, length-append, ltb, ◌==◌, if◌then◌else◌, inl, inr, Bool-cases,
  Option-cases, Begins, All, if_intro,
}
use opendrive_bridge.Download.{
  DownloadParams, target_of, cannot_open, Remote, fresh_result, download, validate_download,
}
use opendrive_bridge.Download.Files.{
  Local, missing, directory, regular, first_bytes, write_at, content_of, resume_from, is_directory,
  FileDownload, complete, download_file,
}
use opendrive_bridge.Download.Resume.{Serves, download-Extends}

first_bytes-all : (f : List ℕ) → first_bytes (length f) f ≡ f
first_bytes-all [] = refl
first_bytes-all (b ∷ f) = ap (λ s. b ∷ s) (first_bytes-all f)

write_at-end : (f bs : List ℕ) → write_at (length f) bs f ≡ f ++ bs
unfolding write_at
write_at-end f [] = sym (append-nil f)
write_at-end f (b ∷ bs) =
    ap (λ s. s ++ ((b ∷ bs) ++ skip (length f + length (b ∷ bs)) f)) (first_bytes-all f)
    ∙ ap (λ s. f ++ s)
        (ap (λ s. (b ∷ bs) ++ s) (skip-all (length f + length (b ∷ bs)) f (omega arith))
          ∙ append-nil (b ∷ bs))

-- A path without a file starts from zero.
abbrev pub StartsAtZero : Local → DownloadParams → Type 0
StartsAtZero (regular f) p = Unit
StartsAtZero _ p = p.offset ≡ 0

starts :
    (l : Local) (p : DownloadParams)
    → StartsAtZero l p
    → (resume_from l p).offset ≡ length (content_of l)
starts missing p h = h
starts directory p h = h
starts (regular f) p h = refl

same_request :
    (l : Local) (p : DownloadParams)
    → (target_of (resume_from l p) ≡ target_of p) × ((resume_from l p).size ≡ p.size)
same_request missing p = (refl, refl)
same_request directory p = (refl, refl)
same_request (regular f) p = (refl, refl)

-- A file that is a beginning of the content, and the whole where no error is reported.
abbrev pub Holds : List ℕ → FileDownload → Type 0
Holds content x =
    Begins (content_of x.local) content × (x.failure ≡ none → content_of x.local ≡ content)

whole_of_length : (f content : List ℕ) → Begins f content → length f ≡ length content → f ≡ content
whole_of_length f content (c, e) h =
    sym (append-nil f) ∙ (ap (λ s. f ++ s) (sym (none_left f c content e h)) ∙ e)
  where
    none_left : (f c content : List ℕ) → f ++ c ≡ content → length f ≡ length content → c ≡ []
    none_left f [] content e h = refl
    none_left f (b ∷ c) content e h =
        absurd (omega (arith, length-append f (b ∷ c), h, ap length e))

full_length :
    (size offset n m wanted : ℕ)
    → offset ≡ n
    → size ≡ wanted
    → (wanted ≡ 0) ⊎ (wanted ≡ m)
    → (ltb 0 size && offset == size) ≡ true
    → n ≡ m
full_length size offset n m wanted at same w b = ground (arith, at, same, w, b)

-- One run of `DownloadFile`.
pub download_file-Holds :
    (r : Remote) (l : Local) (p : DownloadParams) (content : List ℕ)
    → Serves r (target_of p) content
    → Begins (content_of l) content
    → StartsAtZero l p
    → (p.size ≡ 0) ⊎ (p.size ≡ length content)
    → Holds content (download_file r l p)
unfolding download_file
download_file-Holds r l p content law held zero_start size =
    let q = resume_from l p in
    let f = content_of l in
    let at = starts l p zero_start in
    let d = download r q in
    let (got, all) =
      download-Extends r content f held q
        (subst (λ i. Serves r i content) (sym (same_request l p).0) law) at in
    let end : write_at q.offset d.out f ≡ f ++ d.out =
      ap (λ n. write_at n d.out f) at ∙ write_at-end f d.out in
    elim (Option-cases (validate_download p)) [
      | inr (e, v) ↦ rw (v, download_file) (held, λ h. absurd (cc h))
      | inl v ↦ elim (Bool-cases (ltb 0 q.size && q.offset == q.size)) [
        | inl b ↦
            rw (v, download_file)
              (rw b (
                held,
                λ h. whole_of_length f content held (
                    full_length q.size q.offset (length f) (length content) p.size at
                      (ap (λ n. n) (same_request l p).1) size b),
              ))
        | inr b ↦ elim (Bool-cases (is_directory l)) [
          | inl d ↦ rw (v, download_file) (rw b (rw d (held, λ h. absurd (cc h))))
          | inr d ↦
              rw (v, download_file)
                (rw b (rw d (subst (λ g. Begins g content) (sym end) got, λ h. end ∙ all h)))
        ]
      ]
    ]

-- Runs of `DownloadFile` one after another, each with the answers that upstream gave it.
unfoldable pub runs : List Remote → Local → DownloadParams → Local
unfolding download_file
runs [] l p = l
runs (r ∷ rs) l p = runs rs (download_file r l p).local p

run-StartsAtZero :
    (r : Remote) (l : Local) (p : DownloadParams)
    → StartsAtZero l p
    → StartsAtZero (download_file r l p).local p
unfolding download_file
run-StartsAtZero r l p h =
    let q = resume_from l p in
    let d = download r q in
    let P : FileDownload → Type 0 = λ x. StartsAtZero x.local p in
    let written : FileDownload = record {
      local = regular (write_at q.offset d.out (content_of l));
      result = d.result;
      failure = d.failure;
    } in
    let not_opened : FileDownload = record {
      local = l;
      result = fresh_result q.offset;
      failure = some cannot_open;
    } in
    elim (Option-cases (validate_download p)) [
      | inr (e, v) ↦ rw (v, download_file) h
      | inl v ↦
          rw (v, download_file)
            (if_intro P (ltb 0 q.size && q.offset == q.size)
              (record { local = l; result = complete q; failure = none })
              (if is_directory l then not_opened else written) h
              (if_intro P (is_directory l) not_opened written h tt))
    ]

runs-Begins :
    (rs : List Remote) (l : Local) (p : DownloadParams) (content : List ℕ)
    → All (λ r. Serves r (target_of p) content) rs
    → Begins (content_of l) content
    → StartsAtZero l p
    → (p.size ≡ 0) ⊎ (p.size ≡ length content)
    → Begins (content_of (runs rs l p)) content × StartsAtZero (runs rs l p) p
unfolding runs
runs-Begins [] l p content law held z size = (held, z)
runs-Begins (r ∷ rs) l p content (law, laws) held z size =
    let x = download_file r l p in
    runs-Begins rs x.local p content laws (download_file-Holds r l p content law held z size).0
      (run-StartsAtZero r l p z) size

-- However often a download into a file is broken off and started again, whichever way upstream answers
-- each time, the file is a beginning of the remote content, and after a run that reports no error it is
-- the whole. The file is taken to be a beginning of the content before, a path without a file starts
-- from zero, the declared size is 0 or the true one, and upstream gives a stream from the offset where
-- it answers 206 and from the start otherwise.
pub runs-Holds :
    (rs : List Remote) (r : Remote) (l : Local) (p : DownloadParams) (content : List ℕ)
    → All (λ s. Serves s (target_of p) content) rs
    → Serves r (target_of p) content
    → Begins (content_of l) content
    → StartsAtZero l p
    → (p.size ≡ 0) ⊎ (p.size ≡ length content)
    → Holds content (download_file r (runs rs l p) p)
runs-Holds rs r l p content laws law held z size =
    let (held', z') = runs-Begins rs l p content laws held z size in
    download_file-Holds r (runs rs l p) p content law held' z' size
