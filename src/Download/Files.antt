-- ===== src/Download/Files.antt =====
-- A download into a file (`DownloadFile` of pkg/opendrive/download.go): the file before and after.
use opendrive_bridge.Common.{
  ℕ, zero, suc, ◌+◌, Bool, true, false, ◌&&◌, Option, none, some, List, [], ◌∷◌, ◌++◌, length, skip,
  ltb, ◌==◌, if◌then◌else◌,
}
use opendrive_bridge.Download.{
  DownloadParams, DownloadResult, DownloadError, cannot_open, Remote, fresh_result,
  validate_download, download,
}

-- What stands at the local path.
pub data Local : Type 0 where
  missing directory : Local
  regular : List ℕ → Local

-- The first bytes of a file, with zeros where it has none.
abbrev pub first_bytes : ℕ → List ℕ → List ℕ
first_bytes zero f = []
first_bytes (suc n) [] = 0 ∷ first_bytes n []
first_bytes (suc n) (b ∷ f) = b ∷ first_bytes n f

-- Writing at a position; nothing is written for no bytes.
unfoldable pub write_at : ℕ → List ℕ → List ℕ → List ℕ
write_at n [] f = f
write_at n (b ∷ bs) f = first_bytes n f ++ ((b ∷ bs) ++ skip (n + length (b ∷ bs)) f)

abbrev pub content_of : Local → List ℕ
content_of (regular f) = f
content_of _ = []

-- `p.Offset`, as the local file gives it.
abbrev pub resume_from : Local → DownloadParams → DownloadParams
resume_from (regular f) p = record p { offset = length f }
resume_from _ p = p

abbrev pub is_directory : Local → Bool
is_directory directory = true
is_directory _ = false

-- The file behind `DownloadFile`, and what it answers.
pub record FileDownload : Type 0 where
  pub local : Local
  pub result : DownloadResult
  pub failure : Option DownloadError

abbrev pub complete : DownloadParams → DownloadResult
complete p = record (fresh_result p.offset) { total = some p.size; resumed = true }

-- `DownloadFile`.
unfoldable pub download_file : Remote → Local → DownloadParams → FileDownload
unfolding validate_download download write_at
download_file r l p0 =
    let p = resume_from l p0 in
    let d = download r p in
    elim (validate_download p0) [
      | some e ↦ record { local = l; result = fresh_result p0.offset; failure = some e }
      | none ↦
          if ltb 0 p.size && p.offset == p.size
          then record { local = l; result = complete p; failure = none }
          else if is_directory l
          then record { local = l; result = fresh_result p.offset; failure = some cannot_open }
          else record {
            local = regular (write_at p.offset d.out (content_of l));
            result = d.result;
            failure = d.failure;
          }
    ]
