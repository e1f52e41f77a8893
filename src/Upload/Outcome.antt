-- ===== src/Upload/Outcome.antt =====
-- What a successful upload leaves at upstream (`Upload` of pkg/opendrive/upload.go), and what a file
-- that is closed by its hash is closed with.
use opendrive_bridge.Common.{
  ℕ, ◌≡◌, ◌⊎◌, refl, sym, ap, subst, ◌∙◌, Bool, false, Option, none, some, List, [], if◌then◌else◌,
  inl, inr, Bool-cases, Option-cases, Answer, good, bad, Answer-cases, some_inj, bad≢good,
}
use opendrive_bridge.Common.Text.{Text, is_empty}
use opendrive_bridge.Common.Dict.{Dict}
use opendrive_bridge.Sdk.Errors.{ApiError}
use opendrive_bridge.PathCache.{PathCache}
use opendrive_bridge.Upload.Types.{
  Created, created_id, UploadParams, Uploaded, UploadError, Value, create_body, open_body,
  validate_upload, Calls,
}
use opendrive_bridge.Upload.Chunks.{Place, Source}
use opendrive_bridge.Upload.Assembly.{Assembles}
use opendrive_bridge.Upload.Pipeline.{
  Tools, Transferred, UploadEnd, root_folder_id, forget_listing, settle, settle_maybe, refused,
  reclaim_orphan, transfer, after_create, upload,
}
use opendrive_bridge.Upload.Delivery.{place_at, Shortcut, Delivered, transfer-outcome}

module _ {S F : Type 0} (api : Calls S F) (stored : Place → S → List ℕ) where
  -- Upstream's part: chunks are assembled, a new record holds nothing at any place, and opening an
  -- upload adds no bytes.
  pub record Upstream : Type 0 where
    pub assembles : (place : Place) → Assembles api place (stored place)
    pub fresh :
        (up : S) (body : Dict Value) (c : Created)
        → (api.create_file up body).1 ≡ good c
        → (temp : Text) → stored (place_at (created_id c) temp) (api.create_file up body).0 ≡ []
    pub opens :
        (up : S) (body : Dict Value) (place : Place)
        → stored place (api.open_file up body).0 ≡ stored place up

-- The folder that an upload goes to.
abbrev pub folder_of : UploadParams → Text
folder_of p = if is_empty p.folder_id then root_folder_id else p.folder_id

module _ {S F : Type 0} (api : Calls S F) (tools : Tools) where
  pub settle_good :
      (id : Text) (p : UploadParams) (cache : Option PathCache) (t : Transferred S F)
      (u : Uploaded F)
      → t.result ≡ good u
      → settle api tools id p cache t ≡ record { up = t.up; cache = cache; result = good u }
  unfolding settle
  settle_good id p cache t u e = rw e refl

  pub settle_bad :
      (id : Text) (p : UploadParams) (cache : Option PathCache) (t : Transferred S F)
      (e : UploadError)
      → t.result ≡ bad e
      → settle api tools id p cache t
        ≡ refused api tools (reclaim_orphan api tools t.up id p) cache e
  unfolding settle
  settle_bad id p cache t e h = rw h refl

module _ {S F : Type 0} (api : Calls S F) (tools : Tools) (stored : Place → S → List ℕ) where
  -- A successful upload: the record that was made for it, and how it was filled.
  abbrev pub Done : S → UploadParams → Source → S → Uploaded F → Type 0
  Done up p src up' u =
      (made : S) × ((c : Created) × (api.create_file up (create_body (folder_of p) p)
          ≡ (made, good c))
        × (is_empty (created_id c) ≡ false)
        × (Shortcut api tools stored (created_id c) p made up' u
            ⊎ ((temp : Text) × ((zipped : Bool) × Delivered api tools stored (created_id c) temp
                    zipped p src up' u))))

  settle_maybe_good :
      (id : Text) (p : UploadParams) (cache : Option PathCache) (o : Option (Transferred S F))
      (x : UploadEnd S F) (u : Uploaded F)
      → settle_maybe api tools id p cache o ≡ some x
      → x.result ≡ good u
      → (t : Transferred S F) × (o ≡ some t) × (t.result ≡ good u) × (t.up ≡ x.up)
  unfolding settle_maybe
  settle_maybe_good id p cache none x u h k = absurd (cc h)
  settle_maybe_good id p cache (some t) x u h k = elim (Answer-cases t.result) [
    | inl (r, e) ↦
        let q = sym (settle_good api tools id p cache t r e) ∙ some_inj h in
        (t, refl, e ∙ (ap (λ w. w.result) q ∙ k), ap (λ w. w.up) q)
    | inr (f, e) ↦
        let q = sym (settle_bad api tools id p cache t f e) ∙ some_inj h in
        absurd (bad≢good (ap (λ w. w.result) q ∙ k))
  ]

  after_create-Done :
      (up : S) (p : UploadParams) (src : Source) (cache : Option PathCache)
      (r : S × Answer ApiError Created) (x : UploadEnd S F) (u : Uploaded F)
      → Upstream api stored
      → r ≡ api.create_file up (create_body (folder_of p) p)
      → after_create api tools (folder_of p) p src cache r ≡ some x
      → x.result ≡ good u
      → Done up p src x.up u
  unfolding after_create
  after_create-Done up p src cache (made, bad e) x u law from h k = absurd (cc (h, k))
  after_create-Done up p src cache (made, good c) x u law from h k =
      let id = created_id c in
      elim (Bool-cases (is_empty id)) [
        | inl b ↦ absurd (cc (h, k, b))
        | inr b ↦
            let (t, ran, ok, same) =
              settle_maybe_good id p (forget_listing (folder_of p) cache)
                (transfer api tools made id c p src) x u (sym (goes_on b) ∙ h) k in
            let new : (temp : Text) → stored (place_at id temp) made ≡ [] = λ temp.
              ap (λ w. stored (place_at id temp) w.0) from
              ∙ law.fresh up (create_body (folder_of p) p) c (sym (ap (λ w. w.1) from)) temp in
            let found =
              transfer-outcome api tools stored made id c p src t u law.assembles
                (λ temp. law.opens made (open_body id p) (place_at id temp) ∙ new temp) ran ok in
            subst (λ v. Done up p src v u) same (made, (c, sym from, b, found))
      ]
    where
      goes_on :
          is_empty (created_id c) ≡ false
          → after_create api tools (folder_of p) p src cache (made, good c)
            ≡ settle_maybe api tools
                (created_id c)
                p
                (forget_listing (folder_of p) cache)
                (transfer api tools made (created_id c) c p src)
      goes_on b = rw b refl

  -- A successful upload made a record for the file. Either upstream had the content, no chunk was
  -- sent and the file was closed without a temporary location, or upstream held the whole content as
  -- it goes out, chunk by chunk, when the file was closed with its place, its size and its hash.
  -- Upstream is taken to assemble chunks, to give new records that hold nothing, and to add no bytes
  -- when an upload is opened.
  pub upload-Done :
      (up : S) (cache : Option PathCache) (p : UploadParams) (src : Source) (x : UploadEnd S F)
      (u : Uploaded F)
      → Upstream api stored
      → upload api tools up cache p src ≡ some x
      → x.result ≡ good u
      → Done up p src x.up u
  unfolding upload
  upload-Done up cache p src x u law h k =
      elim (Option-cases (validate_upload tools.name_error p)) [
        | inr (e, v) ↦ absurd (bad≢good (ap (λ w. w.result) (some_inj (sym (invalid e v) ∙ h)) ∙ k))
        | inl v ↦
            after_create-Done up p src cache (api.create_file up (create_body (folder_of p) p)) x u
              law refl (sym (valid v) ∙ h) k
      ]
    where
      invalid :
          (e : UploadError)
          → validate_upload tools.name_error p ≡ some e
          → upload api tools up cache p src ≡ some (refused api tools up cache e)
      invalid e v = rw (v, upload) refl

      valid :
          validate_upload tools.name_error p ≡ none
          → upload api tools up cache p src
            ≡ after_create api tools
                (folder_of p)
                p
                src
                cache
                (api.create_file up (create_body (folder_of p) p))
      valid v = rw (v, upload) refl
