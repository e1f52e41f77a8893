-- ===== src/Upload/Delivery.antt =====
-- What a transfer that reports success has done (`transfer` of pkg/opendrive/upload.go).
use opendrive_bridge.Common.{
  ℕ, ◌+◌, ◌≤◌, ◌≡◌, ◌⊎◌, refl, sym, ap, ◌∙◌, Bool, true, false, none, some, List, [], arith, length,
  inl, inr, Bool-cases, Option-cases, Answer, good, bad, some_inj, good_inj,
}
use opendrive_bridge.Common.Text.{Text, is_empty}
use opendrive_bridge.Sdk.Errors.{ApiError}
use opendrive_bridge.Upload.Types.{
  Created, Opened, UploadParams, Uploaded, UploadError, Calls, chunk_size_of, close_body, open_body,
}
use opendrive_bridge.Upload.Chunks.{Place, Source, Sent, send_chunks, wire_of}
use opendrive_bridge.Upload.Assembly.{Assembles}
use opendrive_bridge.Upload.Loop.{outgoing}
use opendrive_bridge.Upload.Refines.{Refines, send_chunks-Refines}
use opendrive_bridge.Upload.Pipeline.{
  Tools, Transferred, with_hash, closed, close_up, after_chunks, temp_of, zipped_of, after_open,
  transfer,
}

pub chunk_size_pos : (p : UploadParams) → 1 ≤ chunk_size_of p
unfolding chunk_size_of
chunk_size_pos p = ground arith

abbrev pub place_at : Text → Text → Place
place_at id temp = record { file_id = id; temp_location = temp }

module _ {S F : Type 0} (api : Calls S F) (tools : Tools) (stored : Place → S → List ℕ) where
  -- A content that was sent: upstream held all of it, chunk by chunk as it went out, when the file was
  -- closed with its place and its hash.
  pub record Delivered (id temp : Text) (zipped : Bool) (p : UploadParams) (src : Source) (up : S)
      (u : Uploaded F) : Type 0 where
    pub before : S
    pub placed : is_empty temp ≡ false
    pub held :
        stored (place_at id temp) before
        ≡ outgoing (wire_of tools.zip zipped) (chunk_size_of p) (length src.content + 1) src.content
    pub sized : (p.size ≡ 0) ⊎ (length src.content ≡ p.size)
    pub closing :
        api.close_file before
          (close_body id temp (with_hash api tools p (tools.digest src.content)) zipped)
        ≡ (up, good u.file)
    pub said : (u.deduplicated ≡ false) × (u.compressed ≡ zipped)

  closed_good :
      (dedup zipped : Bool) (sent n : ℕ) (h : Text) (r : S × Answer ApiError F) (u : Uploaded F)
      → (closed api tools dedup zipped sent n h r).result ≡ good u
      → (r ≡ ((closed api tools dedup zipped sent n h r).up, good u.file))
        × (u.deduplicated ≡ dedup)
        × (u.compressed ≡ zipped)
  closed_good dedup zipped sent n h (up, bad e) u k = absurd (cc k)
  closed_good dedup zipped sent n h (up, good f) u k =
      let v : Uploaded F = record {
        file = f;
        deduplicated = dedup;
        compressed = zipped;
        bytes_sent = sent;
        chunks = n;
        hash = h;
      } in
      let e : v ≡ u = good_inj k in
      (
        ap (λ w. (up, good w.file)) e,
        sym (ap (λ w. w.deduplicated) e),
        sym (ap (λ w. w.compressed) e),
      )

  close_up_good :
      (id temp : Text) (p : UploadParams) (dedup zipped : Bool) (sent n : ℕ) (up : S)
      (u : Uploaded F)
      → (close_up api tools id temp p dedup zipped sent n up).result ≡ good u
      → (api.close_file up (close_body id temp p zipped)
          ≡ ((close_up api tools id temp p dedup zipped sent n up).up, good u.file))
        × (u.deduplicated ≡ dedup)
        × (u.compressed ≡ zipped)
  unfolding close_up
  close_up_good id temp p dedup zipped sent n up u k =
      closed_good dedup zipped sent n p.hash (api.close_file up (close_body id temp p zipped)) u k

  after_chunks-Delivered :
      (id temp : Text) (p : UploadParams) (src : Source) (zipped : Bool) (x : Sent S)
      (t : Transferred S F) (u : Uploaded F)
      → is_empty temp ≡ false
      → Refines
          (stored (place_at id temp))
          p.size
          (outgoing
            (wire_of tools.zip zipped)
            (chunk_size_of p)
            (length src.content + 1)
            src.content)
          src.content
          x
      → after_chunks api tools id temp p zipped (some x) ≡ some t
      → t.result ≡ good u
      → Delivered id temp zipped p src t.up u
  unfolding after_chunks
  after_chunks-Delivered id temp p src zipped x t u here r h k = elim (Option-cases x.failure) [
    | inr (e, f) ↦ absurd (cc (sym (chunks_failed e f) ∙ h, k))
    | inl f ↦
        let q = with_hash api tools p (tools.digest x.so_far.digested) in
        let y =
          close_up api tools id temp q false zipped x.so_far.wire_offset x.so_far.chunks x.up in
        let e : y ≡ t = some_inj (sym (chunks_sent f) ∙ h) in
        let (closing, plain, z) =
          close_up_good id temp q false zipped x.so_far.wire_offset x.so_far.chunks x.up u
            (ap (λ w. w.result) e ∙ k) in
        record {
          before = x.up;
          placed = here;
          held = r.whole f;
          sized = r.sized f;
          closing =
              ap
                (λ d.
                  api.close_file x.up
                    (close_body id temp (with_hash api tools p (tools.digest d)) zipped))
                (sym (r.all_read f))
              ∙ (closing ∙ ap (λ w. (w.up, good u.file)) e);
          said = (plain, z);
        }
  ]
    where
      chunks_failed :
          (e : UploadError)
          → x.failure ≡ some e
          → after_chunks api tools id temp p zipped (some x)
            ≡ some (record { up = x.up; result = bad e })
      chunks_failed e f = rw f refl

      chunks_sent :
          x.failure ≡ none
          → after_chunks api tools id temp p zipped (some x)
            ≡ some (
                close_up api tools id temp
                  (with_hash api tools p (tools.digest x.so_far.digested))
                  false
                  zipped
                  x.so_far.wire_offset
                  x.so_far.chunks
                  x.up)
      chunks_sent f = rw f refl

  pub open_sends :
      (id : Text) (c : Created) (p : UploadParams) (src : Source) (up : S) (o : Opened) (x : Sent S)
      → is_empty (temp_of api tools c o) ≡ false
      → send_chunks api
          (place_at id (temp_of api tools c o))
          (wire_of tools.zip (zipped_of api tools c o))
          (chunk_size_of p)
          p.size
          up
          src
        ≡ some x
      → after_open api tools id c p src (up, good o)
        ≡ after_chunks api tools id (temp_of api tools c o) p (zipped_of api tools c o) (some x)
  unfolding after_open
  open_sends id c p src up o x b e =
      rw b (ap (after_chunks api tools id (temp_of api tools c o) p (zipped_of api tools c o)) e)

  after_open-Delivered :
      (id : Text) (c : Created) (p : UploadParams) (src : Source) (r : S × Answer ApiError Opened)
      (t : Transferred S F) (u : Uploaded F)
      → ((place : Place) → Assembles api place (stored place))
      → ((temp : Text) → stored (place_at id temp) r.0 ≡ [])
      → after_open api tools id c p src r ≡ some t
      → t.result ≡ good u
      → (temp : Text) × ((zipped : Bool) × Delivered id temp zipped p src t.up u)
  unfolding after_open
  after_open-Delivered id c p src (up, bad e) t u asm new h k = absurd (cc (h, k))
  after_open-Delivered id c p src (up, good o) t u asm new h k =
      let temp = temp_of api tools c o in
      let zipped = zipped_of api tools c o in
      let place = place_at id temp in
      let (x, sent, few, r) =
        send_chunks-Refines api place (stored place) (wire_of tools.zip zipped) (chunk_size_of p)
          p.size up src (asm place) (chunk_size_pos p) (new temp) in
      elim (Bool-cases (is_empty temp)) [
        | inl b ↦ absurd (cc (h, k, b))
        | inr b ↦ (
          temp,
          (
            zipped,
            after_chunks-Delivered id temp p src zipped x t u b r
                (sym (open_sends id c p src up o x b sent) ∙ h) k,
          ),
        )
      ]

  -- A file that was closed on the strength of its hash: nothing was sent.
  pub record Shortcut (id : Text) (p : UploadParams) (before up : S) (u : Uploaded F) : Type 0 where
    pub closing : api.close_file before (close_body id [] p false) ≡ (up, good u.file)
    pub said : (u.deduplicated ≡ true) × (u.compressed ≡ false)

  pub transfer-outcome :
      (up : S) (id : Text) (c : Created) (p : UploadParams) (src : Source) (t : Transferred S F)
      (u : Uploaded F)
      → ((place : Place) → Assembles api place (stored place))
      → ((temp : Text) → stored (place_at id temp) (api.open_file up (open_body id p)).0 ≡ [])
      → transfer api tools up id c p src ≡ some t
      → t.result ≡ good u
      → Shortcut id p up t.up u
        ⊎ ((temp : Text) × ((zipped : Bool) × Delivered id temp zipped p src t.up u))
  unfolding transfer
  transfer-outcome up id c p src t u asm new h k = elim (Bool-cases c.require_hash_only) [
    | inl b ↦
        let e = some_inj (sym (hash_only b) ∙ h) in
        let (closing, plain, z) =
          close_up_good id [] p true false 0 0 up u (ap (λ w. w.result) e ∙ k) in
        inl (record { closing = closing ∙ ap (λ w. (w.up, good u.file)) e; said = (plain, z) })
    | inr b ↦ inr (
        after_open-Delivered id c p src (api.open_file up (open_body id p)) t u asm new
          (sym (full b) ∙ h) k)
  ]
    where
      hash_only :
          c.require_hash_only ≡ true
          → transfer api tools up id c p src ≡ some (close_up api tools id [] p true false 0 0 up)
      hash_only b = rw b refl

      full :
          c.require_hash_only ≡ false
          → transfer api tools up id c p src
            ≡ after_open api tools id c p src (api.open_file up (open_body id p))
      full b = rw b refl
