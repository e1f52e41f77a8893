-- ===== src/Upload/Ledger.antt =====
-- The files that upstream keeps, through the chunk loop (pkg/opendrive/upload.go).
use opendrive_bridge.Common.{
  ℕ, zero, suc, ◌+◌, ◌-◌, ◌≡◌, ◌⊎◌, refl, ap, subst, ◌∙◌, Bool, true, false, Option, none, some,
  List, ◌∷◌, length, take, skip, ltb, leb, ◌==◌, if◌then◌else◌, inl, inr, Bool-cases, Option-cases,
  Answer, good, bad,
}
use opendrive_bridge.Common.Text.{Text}
use opendrive_bridge.Common.Dict.{Dict}
use opendrive_bridge.Sdk.Errors.{ApiError}
use opendrive_bridge.Upload.Types.{
  Created, created_id, source_unreadable, UploadParams, create_body, Value, Calls,
}
use opendrive_bridge.Upload.Chunks.{
  server_offset, Posted, Place, send_one, posted, resume_at, after_refusal, after_first,
  send_chunk_resuming, Source, read_end, goes_on, is_broken, Progress, progress_by, Sent, loop_over,
  after_chunk, send_loop,
}

-- The ids of the files that upstream keeps, and what the calls do to them. A creation that is answered
-- adds the file, under the id in the answer, where an existing file was not to be opened instead; of
-- one that fails nothing is said. A deletion that is answered takes the file away; one that fails may
-- have taken it away or not. The other calls change none.
pub record Ledger {S F : Type 0} (api : Calls S F) (ids : S → List Text) : Type 0 where
  pub adds :
      (up : S) (folder : Text) (p : UploadParams) (c : Created)
      → p.open_if_exists ≡ false
      → (api.create_file up (create_body folder p)).1 ≡ good c
      → ids (api.create_file up (create_body folder p)).0 ≡ created_id c ∷ ids up
  pub opens : (up : S) (body : Dict Value) → ids (api.open_file up body).0 ≡ ids up
  pub sends :
      (up : S) (id temp : Text) (offset : ℕ) (bs : List ℕ)
      → ids (api.send_chunk up id temp offset bs).0 ≡ ids up
  pub closes : (up : S) (body : Dict Value) → ids (api.close_file up body).0 ≡ ids up
  pub deletes :
      (up : S) (id access sharing : Text) (rest : List Text)
      → ids up ≡ id ∷ rest
      → (api.delete_trashed up id access sharing).1 ≡ none
      → ids (api.delete_trashed up id access sharing).0 ≡ rest
  pub may_delete :
      (up : S) (id access sharing : Text) (rest : List Text) (e : ApiError)
      → ids up ≡ id ∷ rest
      → (api.delete_trashed up id access sharing).1 ≡ some e
      → (ids (api.delete_trashed up id access sharing).0 ≡ id ∷ rest)
        ⊎ (ids (api.delete_trashed up id access sharing).0 ≡ rest)

module _ {S F : Type 0} (api : Calls S F) (ids : S → List Text) (law : Ledger api ids) where
  module _ (place : Place) where
    posted-ids :
        (n offset want : ℕ) (r : S × Answer ApiError ℕ)
        → (posted api place n offset want r).up ≡ r.0
    posted-ids n offset want (up, good w) = refl
    posted-ids n offset want (up, bad e) = refl

    resume_at-ids :
        (up : S) (e : ApiError) (offset : ℕ) (bs : List ℕ) (at : ℕ)
        → ids (resume_at api place up e offset bs at).up ≡ ids up
    resume_at-ids up e offset bs at = elim (Bool-cases (leb (offset + length bs) at)) [
      | inl b ↦ rw b refl
      | inr b ↦ elim (Bool-cases (ltb offset at)) [
        | inr c ↦ rw b (rw c refl)
        | inl c ↦
            let tail = skip (at - offset) bs in
            rw b (
              rw c (
                ap ids (posted-ids 2 at (length tail) (send_one api place up at tail))
                ∙ law.sends up place.file_id place.temp_location at tail))
      ]
    ]

    after_refusal-ids :
        (up : S) (e : ApiError) (offset : ℕ) (bs : List ℕ) (o : Option ℕ)
        → ids (after_refusal api place up e offset bs o).up ≡ ids up
    after_refusal-ids up e offset bs none = refl
    after_refusal-ids up e offset bs (some at) = resume_at-ids up e offset bs at

    after_first-ids :
        (offset : ℕ) (bs : List ℕ) (r : S × Answer ApiError ℕ)
        → ids (after_first api place offset bs r).up ≡ ids r.0
    unfolding after_first
    after_first-ids offset bs (up, good w) = refl
    after_first-ids offset bs (up, bad e) = after_refusal-ids up e offset bs (server_offset e)

    chunk-ids :
        (up : S) (offset : ℕ) (bs : List ℕ)
        → ids (send_chunk_resuming api place up offset bs).up ≡ ids up
    unfolding send_chunk_resuming
    chunk-ids up offset bs =
        after_first-ids offset bs (send_one api place up offset bs)
        ∙ law.sends up place.file_id place.temp_location offset bs

  -- What is there answers with the same ids.
  unfoldable pub Same : List Text → Option (Sent S) → Type 0
  Same l none = Unit
  Same l (some x) = ids x.up ≡ l

  Same-eq : {l m : List Text} (o : Option (Sent S)) → l ≡ m → Same l o → Same m o
  Same-eq o e h = subst (λ k. Same k o) e h

  module _ (place : Place) (wire : List ℕ → List ℕ) (chunk size : ℕ) where
    after_chunk-ids :
        (read bs : List ℕ) (more : Bool) (g : Progress) (x : Posted S) (rest : Option (Sent S))
        → Same (ids x.up) rest
        → Same (ids x.up) (after_chunk api place wire chunk size read bs more g x rest)
    unfolding Same
    after_chunk-ids read bs more g x rest h = elim (Option-cases x.failure) [
      | inr (e, f) ↦ rw f refl
      | inl f ↦ elim (Bool-cases more) [ inl b ↦ rw f (rw b h) | inr b ↦ rw f (rw b refl) ]
    ]

    end-ids :
        (b : Bool) (up : S) (g : Progress)
        → ids
            (if b
              then record { up = up; so_far = g; failure = some source_unreadable }
              else loop_over api place wire chunk size up g).up
          ≡ ids up
    end-ids true up g = refl
    end-ids false up g = refl

    pub send_loop-ids :
        (fuel : ℕ) (up : S) (g : Progress) (s : Source)
        → Same (ids up) (send_loop api place wire chunk size fuel up g s)
    unfolding send_loop Same
    send_loop-ids zero up g s = tt
    send_loop-ids (suc fuel) up g s =
        let read = take chunk s.content in
        let x = send_chunk_resuming api place up g.wire_offset (wire read) in
        let g' = progress_by read (wire read) x.attempts g in
        let s' : Source = record s { content = skip chunk s.content } in
        let rest = send_loop api place wire chunk size fuel x.up g' s' in
        elim (Bool-cases (length read == 0)) [
          | inl n ↦ rw n (end-ids (is_broken (read_end chunk s)) up g)
          | inr n ↦ rw n (
              Same-eq
                (after_chunk api place wire chunk size read (wire read) (goes_on (read_end chunk s))
                  g x rest)
                (chunk-ids place up g.wire_offset (wire read))
                (after_chunk-ids read (wire read) (goes_on (read_end chunk s)) g x rest
                  (send_loop-ids fuel x.up g' s')))
        ]
