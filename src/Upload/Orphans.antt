-- ===== src/Upload/Orphans.antt =====
-- Every upload ends, and one that failed takes its record back (`reclaimOrphan` of
-- pkg/opendrive/upload.go).
use opendrive_bridge.Common.{
  ℕ, ◌+◌, ◌≡◌, ◌⊎◌, refl, sym, ap, subst, ◌∙◌, Bool, true, false, Option, none, some, List, [], ◌∷◌,
  length, inl, inr, Bool-cases, Option-cases, Answer, good, bad, Answer-cases,
}
use opendrive_bridge.Common.Text.{Text, is_empty}
use opendrive_bridge.Sdk.Errors.{ApiError}
use opendrive_bridge.PathCache.{PathCache}
use opendrive_bridge.Upload.Types.{
  Created, created_id, Opened, UploadParams, Uploaded, no_file_id, UploadError, upstream_said,
  no_temp_location, create_body, open_body, close_body, validate_upload, chunk_size_of, Calls,
}
use opendrive_bridge.Upload.Chunks.{Source, no_progress, Sent, send_loop, send_chunks, wire_of}
use opendrive_bridge.Upload.Pipeline.{
  Tools, Transferred, UploadEnd, forget_listing, settle, settle_maybe, refused, reclaim_orphan,
  closed, close_up, with_hash, after_chunks, temp_of, zipped_of, after_open, transfer, after_create,
  upload,
}
use opendrive_bridge.Upload.Refines.{send_chunks-ends}
use opendrive_bridge.Upload.Delivery.{place_at, chunk_size_pos}
use opendrive_bridge.Upload.Outcome.{folder_of, settle_good, settle_bad}
use opendrive_bridge.Upload.Ledger.{Ledger, Same, send_loop-ids}

module _ {S F : Type 0} (api : Calls S F) (ids : S → List Text) where
  -- The record was there beside the files from before, and its deletion was the last call.
  abbrev pub IsDeleted : List Text → Text → UploadParams → S → UploadEnd S F → Type 0
  IsDeleted l id p at x =
      (ids at ≡ id ∷ l) × (x.up ≡ (api.delete_trashed at id p.access_folder_id p.sharing_id).0)

  -- How an upload may end: nothing was asked of upstream; the creation failed and was the last call;
  -- it was answered without an id and was the last call; the file is there; or the upload failed and
  -- its record was deleted, or could not be.
  pub data Ending (up : S) (p : UploadParams) (x : UploadEnd S F) : Type 0 where
    unasked : (e : UploadError) → x.result ≡ bad e → x.up ≡ up → Ending up p x
    uncreated :
        (e : ApiError)
        → (api.create_file up (create_body (folder_of p) p)).1 ≡ bad e
        → x.up ≡ (api.create_file up (create_body (folder_of p) p)).0
        → Ending up p x
    nameless :
        (c : Created)
        → (api.create_file up (create_body (folder_of p) p)).1 ≡ good c
        → is_empty (created_id c) ≡ true
        → x.result ≡ bad no_file_id
        → x.up ≡ (api.create_file up (create_body (folder_of p) p)).0
        → Ending up p x
    stored :
        (c : Created) (u : Uploaded F)
        → (api.create_file up (create_body (folder_of p) p)).1 ≡ good c
        → x.result ≡ good u
        → ids x.up ≡ created_id c ∷ ids up
        → Ending up p x
    taken_back :
        (c : Created) (e : UploadError) (at : S)
        → (api.create_file up (create_body (folder_of p) p)).1 ≡ good c
        → x.result ≡ bad e
        → IsDeleted (ids up) (created_id c) p at x
        → (api.delete_trashed at (created_id c) p.access_folder_id p.sharing_id).1 ≡ none
        → ids x.up ≡ ids up
        → Ending up p x
    left_over :
        (c : Created) (e : UploadError) (f : ApiError) (at : S)
        → (api.create_file up (create_body (folder_of p) p)).1 ≡ good c
        → x.result ≡ bad e
        → IsDeleted (ids up) (created_id c) p at x
        → (api.delete_trashed at (created_id c) p.access_folder_id p.sharing_id).1 ≡ some f
        → (ids x.up ≡ created_id c ∷ ids up) ⊎ (ids x.up ≡ ids up)
        → Ending up p x

  abbrev pub Clean : S → UploadParams → Option (UploadEnd S F) → Type 0
  Clean up p o = (x : UploadEnd S F) × (o ≡ some x) × Ending up p x

module _ {S F : Type 0} (api : Calls S F) (ids : S → List Text) (law : Ledger api ids) where
  module _ (tools : Tools) where
    -- A transfer that has ended, with the ids it started from.
    Stopped : List Text → Option (Transferred S F) → Type 0
    Stopped l o = (t : Transferred S F) × (o ≡ some t) × (ids t.up ≡ l)

    closed-up :
        (dedup zipped : Bool) (sent n : ℕ) (h : Text) (r : S × Answer ApiError F)
        → (closed api tools dedup zipped sent n h r).up ≡ r.0
    closed-up dedup zipped sent n h (up, good f) = refl
    closed-up dedup zipped sent n h (up, bad e) = refl

    close_up-ids :
        (id temp : Text) (p : UploadParams) (dedup zipped : Bool) (sent n : ℕ) (up : S)
        → ids (close_up api tools id temp p dedup zipped sent n up).up ≡ ids up
    unfolding close_up
    close_up-ids id temp p dedup zipped sent n up =
        ap ids
          (closed-up dedup zipped sent n p.hash (api.close_file up (close_body id temp p zipped)))
        ∙ law.closes up (close_body id temp p zipped)

    after_chunks-Stopped :
        (id temp : Text) (p : UploadParams) (zipped : Bool) (x : Sent S)
        → Stopped (ids x.up) (after_chunks api tools id temp p zipped (some x))
    unfolding after_chunks Stopped
    after_chunks-Stopped id temp p zipped x = elim (Option-cases x.failure) [
      | inr (e, f) ↦ rw f (record { up = x.up; result = bad e }, refl, refl)
      | inl f ↦
          let q = with_hash api tools p (tools.digest x.so_far.digested) in
          rw f (
            close_up api tools id temp q false zipped x.so_far.wire_offset x.so_far.chunks x.up,
            refl,
            close_up-ids id temp q false zipped x.so_far.wire_offset x.so_far.chunks x.up,
          )
    ]

    sends-Stopped :
        (id temp : Text) (p : UploadParams) (zipped : Bool) (l : List Text) (o : Option (Sent S))
        → ((x : Sent S) × (o ≡ some x))
        → Same api ids law l o
        → Stopped l (after_chunks api tools id temp p zipped o)
    unfolding Same
    sends-Stopped id temp p zipped l none (x, e) h = absurd (cc e)
    sends-Stopped id temp p zipped l (some y) (x, e) h =
        subst (λ k. Stopped k (after_chunks api tools id temp p zipped (some y))) h
          (after_chunks-Stopped id temp p zipped y)

    after_open-Stopped :
        (id : Text) (c : Created) (p : UploadParams) (src : Source) (r : S × Answer ApiError Opened)
        → Stopped (ids r.0) (after_open api tools id c p src r)
    unfolding after_open Stopped send_chunks
    after_open-Stopped id c p src (up, bad e) =
        (record { up = up; result = bad (upstream_said e) }, refl, refl)
    after_open-Stopped id c p src (up, good o) =
        let temp = temp_of api tools c o in
        let zipped = zipped_of api tools c o in
        let wire = wire_of tools.zip zipped in
        let chunk = chunk_size_of p in
        let (y, e, few) =
          send_chunks-ends api (place_at id temp) wire chunk p.size up src (chunk_size_pos p) in
        elim (Bool-cases (is_empty temp)) [
          | inl b ↦ rw b (record { up = up; result = bad no_temp_location }, refl, refl)
          | inr b ↦ rw b (
              sends-Stopped id temp p zipped (ids up)
                (send_loop api (place_at id temp) wire chunk p.size (length src.content + 1) up
                  no_progress src)
                (y, e)
                (send_loop-ids api ids law (place_at id temp) wire chunk p.size
                  (length src.content + 1) up no_progress src))
        ]

    transfer-Stopped :
        (up : S) (id : Text) (c : Created) (p : UploadParams) (src : Source)
        → Stopped (ids up) (transfer api tools up id c p src)
    unfolding transfer Stopped
    transfer-Stopped up id c p src = elim (Bool-cases c.require_hash_only) [
      | inl b ↦ rw b (
        close_up api tools id [] p true false 0 0 up,
        refl,
        close_up-ids id [] p true false 0 0 up,
      )
      | inr b ↦
          let (t, e, h) = after_open-Stopped id c p src (api.open_file up (open_body id p)) in
          rw b (t, e, h ∙ law.opens up (open_body id p))
    ]

    reclaimed :
        (up : S) (id : Text) (p : UploadParams)
        → is_empty id ≡ false
        → p.keep_on_failure ≡ false
        → p.open_if_exists ≡ false
        → reclaim_orphan api tools up id p
          ≡ (api.delete_trashed up id p.access_folder_id p.sharing_id).0
    unfolding reclaim_orphan
    reclaimed up id p b k o = rw b (rw k (rw o refl))

    -- A failed transfer, by the answer to the deletion of its record.
    reclaim-Ending :
        (up at : S) (c : Created) (p : UploadParams) (x : UploadEnd S F) (e : UploadError)
        → (api.create_file up (create_body (folder_of p) p)).1 ≡ good c
        → x.result ≡ bad e
        → IsDeleted api ids (ids up) (created_id c) p at x
        → Ending api ids up p x
    reclaim-Ending up at c p x e made fails asked =
        let id = created_id c in
        elim (Option-cases (api.delete_trashed at id p.access_folder_id p.sharing_id).1) [
          | inl n ↦ taken_back c e at made fails asked n (
              ap ids asked.1 ∙ law.deletes at id p.access_folder_id p.sharing_id (ids up) asked.0 n)
          | inr (f, n) ↦ left_over c e f at made fails asked n (
              subst (λ k. (ids k ≡ id ∷ ids up) ⊎ (ids k ≡ ids up)) (sym asked.1)
                (law.may_delete at id p.access_folder_id p.sharing_id (ids up) f asked.0 n))
        ]

    settle-Ending :
        (up : S) (c : Created) (p : UploadParams) (cache : Option PathCache) (t : Transferred S F)
        → (api.create_file up (create_body (folder_of p) p)).1 ≡ good c
        → is_empty (created_id c) ≡ false
        → p.keep_on_failure ≡ false
        → p.open_if_exists ≡ false
        → ids t.up ≡ created_id c ∷ ids up
        → Ending api ids up p (settle api tools (created_id c) p cache t)
    settle-Ending up c p cache t made b k o h =
        let x = settle api tools (created_id c) p cache t in
        elim (Answer-cases t.result) [
          | inl (r, w) ↦
              let same = settle_good api tools (created_id c) p cache t r w in
              stored c r made (ap (λ v. v.result) same) (ap (λ v. ids v.up) same ∙ h)
          | inr (e, w) ↦
              let same = settle_bad api tools (created_id c) p cache t e w in
              reclaim-Ending up t.up c p x e made (ap (λ v. v.result) same)
                (h, ap (λ v. v.up) same ∙ reclaimed t.up (created_id c) p b k o)
        ]

    settle_maybe-Clean :
        (up : S) (c : Created) (p : UploadParams) (cache : Option PathCache)
        (o : Option (Transferred S F))
        → (api.create_file up (create_body (folder_of p) p)).1 ≡ good c
        → is_empty (created_id c) ≡ false
        → p.keep_on_failure ≡ false
        → p.open_if_exists ≡ false
        → Stopped (created_id c ∷ ids up) o
        → Clean api ids up p (settle_maybe api tools (created_id c) p cache o)
    unfolding settle_maybe Stopped
    settle_maybe-Clean up c p cache o made b k q (t, e, h) =
        rw e (
          settle api tools (created_id c) p cache t,
          refl,
          settle-Ending up c p cache t made b k q h,
        )

    after_create-Clean :
        (up : S) (p : UploadParams) (src : Source) (cache : Option PathCache)
        (r : S × Answer ApiError Created)
        → p.keep_on_failure ≡ false
        → p.open_if_exists ≡ false
        → r ≡ api.create_file up (create_body (folder_of p) p)
        → Clean api ids up p (after_create api tools (folder_of p) p src cache r)
    unfolding after_create Stopped
    after_create-Clean up p src cache (up', bad e) k o from = (
      refused api tools up' cache (upstream_said e),
      refl,
      uncreated e (sym (ap (λ w. w.1) from)) (ap (λ w. w.0) from),
    )
    after_create-Clean up p src cache (up', good c) k o from =
        let made = sym (ap (λ w. w.1) from) in
        let cache' = forget_listing (folder_of p) cache in
        elim (Bool-cases (is_empty (created_id c))) [
          | inl b ↦ rw b (
            refused api tools up' cache' no_file_id,
            refl,
            nameless c made b refl (ap (λ w. w.0) from),
          )
          | inr b ↦ rw b (
              settle_maybe-Clean up c p cache' (transfer api tools up' (created_id c) c p src) made
                b k o
                (let (t, e, h) = transfer-Stopped up' (created_id c) c p src in
                  (t, e, h ∙ (ap (λ w. ids w.0) from ∙ law.adds up (folder_of p) p c o made))))
        ]

    -- Every upload ends, with as many rounds of its chunk loop as its source has bytes and one more.
    -- Where the creation was answered with an id and the upload failed, the deletion of the record was
    -- asked for in a state in which upstream kept it; if it succeeded, the files are those from before
    -- the upload, and if it failed, there is at most the record beside them. An upload that was not
    -- asked for a file, or whose creation failed, asks nothing further. The record is one that was not
    -- to be kept and cannot have been there before. Upstream is taken to add the files that it
    -- creates, to have deleted what it says it has, and to keep the others in the other calls.
    pub upload-Clean :
        (up : S) (cache : Option PathCache) (p : UploadParams) (src : Source)
        → p.keep_on_failure ≡ false
        → p.open_if_exists ≡ false
        → Clean api ids up p (upload api tools up cache p src)
    unfolding upload
    upload-Clean up cache p src k o = elim (Option-cases (validate_upload tools.name_error p)) [
      | inr (e, v) ↦ rw (v, upload) (refused api tools up cache e, refl, unasked e refl refl)
      | inl v ↦
          rw (v, upload)
            (after_create-Clean up p src cache (api.create_file up (create_body (folder_of p) p)) k
              o refl)
    ]
