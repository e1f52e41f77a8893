-- ===== src/Upload/Closing.antt =====
-- What a transfer that succeeded was closed with (`transfer` and `closeFile` of
-- pkg/opendrive/upload.go).
use opendrive_bridge.Common.{
  ℕ, ◌+◌, ◌≡◌, ◌⊎◌, refl, sym, ap, ◌∙◌, true, false, not, ◌&&◌, none, List, some, [], arith, length,
  inl, inr, good,
}
use opendrive_bridge.Common.Text.{Text, codes, is_empty}
use opendrive_bridge.Common.Dict.{Dict, find}
use opendrive_bridge.Upload.Types.{
  Created, UploadParams, Uploaded, Value, text, number, Calls, chunk_size_of, close_body, open_body,
}
use opendrive_bridge.Upload.Chunks.{Place, Source, wire_of}
use opendrive_bridge.Upload.Assembly.{Assembles}
use opendrive_bridge.Upload.Loop.{outgoing}
use opendrive_bridge.Upload.Pipeline.{Tools, Transferred, with_hash, transfer}
use opendrive_bridge.Upload.Delivery.{place_at, transfer-outcome}
use opendrive_bridge.Upload.Bodies.{when, find-close_body}

module _ {S F : Type 0} (api : Calls S F) (tools : Tools) (stored : Place → S → List ℕ) where
  -- The request of a file that is closed by its hash.
  abbrev ByHash : UploadParams → S → S → Dict Value → Uploaded F → Type 0
  ByHash p up before body u =
      (u.deduplicated ≡ true)
      × (before ≡ up)
      × (find (codes "temp_location") body ≡ none)
      × (find (codes "file_compressed") body ≡ none)
      × (find (codes "file_hash") body ≡ when (not (is_empty p.hash)) (text p.hash))

  -- The request of a file that was sent.
  abbrev BySending : Text → UploadParams → Source → S → Dict Value → Uploaded F → Type 0
  BySending id p src before body u =
      (temp : Text) × (u.deduplicated ≡ false)
      × (is_empty temp ≡ false)
      × (find (codes "temp_location") body ≡ some (text temp))
      × (find (codes "file_compressed") body ≡ when u.compressed (number 1))
      × (let h = (with_hash api tools p (tools.digest src.content)).hash in
          find (codes "file_hash") body ≡ when (not (is_empty h)) (text h))
      × (stored (place_at id temp) before
          ≡ outgoing (wire_of tools.zip u.compressed) (chunk_size_of p) (length src.content + 1)
              src.content)

  abbrev pub Closes : S → Text → UploadParams → Source → S → Uploaded F → Type 0
  Closes up id p src up' u =
      (before : S) × ((body : Dict Value) × (api.close_file before body ≡ (up', good u.file))
        × (find (codes "file_size") body ≡ some (number p.size))
        × (ByHash p up before body u ⊎ BySending id p src before body u))

  with_hash-size : (p : UploadParams) (h : Text) → (with_hash api tools p h).size ≡ p.size
  with_hash-size p h = ground arith

  -- A transfer that succeeds has closed the file with its size. If it reports that nothing was sent,
  -- the file was closed in the state that the transfer began in, and the request names no place of
  -- chunks and no compression. If it reports that the content was sent, the request names the place at
  -- which upstream held the whole content as it goes out, says that it is compressed exactly where
  -- it went out compressed, and gives the hash of the content where none was known before. Upstream
  -- is taken to assemble chunks, and to hold nothing for the file when the upload is opened.
  pub transfer-Closes :
      (up : S) (id : Text) (c : Created) (p : UploadParams) (src : Source) (t : Transferred S F)
      (u : Uploaded F)
      → ((place : Place) → Assembles api place (stored place))
      → ((temp : Text) → stored (place_at id temp) (api.open_file up (open_body id p)).0 ≡ [])
      → transfer api tools up id c p src ≡ some t
      → t.result ≡ good u
      → Closes up id p src t.up u
  transfer-Closes up id c p src t u asm new h k =
      elim (transfer-outcome api tools stored up id c p src t u asm new h k) [
        | inl s ↦
            let (place, zip, size, hash) = find-close_body id [] p false in
            (
              up,
              (close_body id [] p false, s.closing, size, inl (s.said.0, refl, place, zip, hash)),
            )
        | inr (temp, (zipped, d)) ↦
            let q = with_hash api tools p (tools.digest src.content) in
            let (place, zip, size, hash) = find-close_body id temp q zipped in
            let there : not (is_empty temp) ≡ true = ap not d.placed in
            (
              d.before,
              (
                close_body id temp q zipped,
                d.closing,
                size ∙ ap (λ n. some (number n)) (with_hash-size p (tools.digest src.content)),
                inr (
                  temp,
                  d.said.0,
                  d.placed,
                  place ∙ ap (λ b. when b (text temp)) there,
                  zip
                      ∙ (ap (λ b. when (b && zipped) (number 1)) there
                          ∙ ap (λ b. when b (number 1)) (sym d.said.1)),
                  hash,
                  d.held
                      ∙ ap
                          (λ b.
                            outgoing (wire_of tools.zip b) (chunk_size_of p)
                              (length src.content + 1) src.content)
                          (sym d.said.1),
                ),
              ),
            )
      ]
