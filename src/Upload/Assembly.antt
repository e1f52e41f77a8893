-- ===== src/Upload/Assembly.antt =====
-- What upstream holds after the chunk loop (`sendChunks` of pkg/opendrive/upload.go): the specification
-- is one append of the outgoing bytes, whatever answers are lost and whatever chunks land in part.
use mathlib.Core.List.{append_assoc}
use opendrive_bridge.Common.{
  ℕ, ◌+◌, ◌-◌, ◌≤◌, ◌≡◌, refl, sym, ap, ◌∙◌, none, some, List, ◌++◌, arith, length, take, skip,
  take-skip, take-all, take-add, length-take, length-append, ltb, leb, inl, inr, Bool-cases,
  Option-cases, Answer, good, bad,
}
use opendrive_bridge.Sdk.Errors.{ApiError}
use opendrive_bridge.Upload.Types.{Calls}
use opendrive_bridge.Upload.Chunks.{
  server_offset, Posted, Place, send_one, posted, check_written, resume_at, after_refusal,
  after_first, send_chunk_resuming,
}

written_all :
    (offset want w count : ℕ) → check_written offset want w ≡ none → w ≡ count → want ≤ count
written_all offset want w count h k = ground (arith, h, k)

module _ {S F : Type 0} (api : Calls S F) (place : Place) (stored : S → List ℕ) where
  -- Upstream's part: a chunk that goes on where the stored bytes end adds some of its bytes, none or
  -- all of them. The count of an accepted chunk is what it added, and the offset that a refusal names
  -- is where the stored bytes end then.
  pub record Adds (up : S) (payload : List ℕ) (r : S × Answer ApiError ℕ) : Type 0 where
    pub count : ℕ
    pub count_le : count ≤ length payload
    pub added : stored r.0 ≡ stored up ++ take count payload
    pub counted : (w : ℕ) → r.1 ≡ good w → w ≡ count
    pub named :
        (e : ApiError) (at : ℕ) → r.1 ≡ bad e → server_offset e ≡ some at → at ≡ length (stored r.0)

  abbrev pub Assembles : Type 0
  Assembles =
      (up : S) (payload : List ℕ)
      → Adds up payload (send_one api place up (length (stored up)) payload)

  -- A chunk that was posted: part of it is there, and all of it where no error is reported.
  pub record Landed (up : S) (payload : List ℕ) (x : Posted S) : Type 0 where
    pub within : (n : ℕ) × (stored x.up ≡ stored up ++ take n payload)
    pub whole : x.failure ≡ none → stored x.up ≡ stored up ++ payload

  posted-Landed :
      (n offset : ℕ) (up : S) (payload : List ℕ) (r : S × Answer ApiError ℕ)
      → Adds up payload r
      → Landed up payload (posted api place n offset (length payload) r)
  posted-Landed n offset up payload (up', good w) a = record {
    within = (a.count, a.added);
    whole = λ h.
        a.added
        ∙ ap (λ s. stored up ++ s)
            (take-all a.count payload
              (written_all offset (length payload) w a.count h (a.counted w refl)));
  }
  posted-Landed n offset up payload (up', bad e) a = record {
    within = (a.count, a.added);
    whole = λ h. absurd (cc h);
  }

  -- The tail that is sent again goes behind the part that is there.
  tail-Landed :
      (up : S) (payload : List ℕ) (n : ℕ) (up' : S) (x : Posted S)
      → stored up' ≡ stored up ++ take n payload
      → Landed up' (skip n payload) x
      → Landed up payload x
  tail-Landed up payload n up' x h l = record {
    within = (
      n + l.within.0,
      l.within.1
          ∙ (ap (λ s. s ++ take l.within.0 (skip n payload)) h
              ∙ (append_assoc (stored up) (take n payload) (take l.within.0 (skip n payload))
                  ∙ ap (λ s. stored up ++ s) (sym (take-add n l.within.0 payload)))),
    );
    whole = λ f.
        l.whole f
        ∙ (ap (λ s. s ++ skip n payload) h
            ∙ (append_assoc (stored up) (take n payload) (skip n payload)
                ∙ ap (λ s. stored up ++ s) (take-skip n payload)));
  }

  length-stored :
      (up : S) (payload : List ℕ) (n : ℕ) (up' : S)
      → stored up' ≡ stored up ++ take n payload
      → n ≤ length payload
      → length (stored up') ≡ length (stored up) + n
  length-stored up payload n up' h k =
      ap length h
      ∙ (length-append (stored up) (take n payload)
          ∙ ap (λ m. length (stored up) + m) (length-take n payload k))

  resume_at-Landed :
      Assembles
      → (up : S) (payload : List ℕ) (up' : S) (e : ApiError) (n at : ℕ) → n ≤ length payload
      → stored up' ≡ stored up ++ take n payload
      → at ≡ length (stored up')
      → Landed up payload (resume_at api place up' e (length (stored up)) payload at)
  resume_at-Landed good_up up payload up' e n at k h i =
      let len = length-stored up payload n up' h k in
      elim (Bool-cases (leb (length (stored up) + length payload) at)) [
        | inl b ↦ rw b (record {
          within = (n, h);
          whole =
              λ f. h ∙ ap (λ s. stored up ++ s) (take-all n payload (ground (arith, b, i, len)));
        })
        | inr b ↦ elim (Bool-cases (ltb (length (stored up)) at)) [
          | inr c ↦ rw b (rw c (record { within = (n, h); whole = λ f. absurd (cc f) }))
          | inl c ↦
              let m : at - length (stored up) ≡ n = ground (arith, i, len) in
              rw b (
                rw c (
                  rw m (
                    rw i (
                      tail-Landed up payload n up'
                        (posted api place 2 (length (stored up')) (length (skip n payload))
                          (send_one api place up' (length (stored up')) (skip n payload)))
                        h
                        (posted-Landed 2 (length (stored up')) up' (skip n payload)
                          (send_one api place up' (length (stored up')) (skip n payload))
                          (good_up up' (skip n payload)))))))
        ]
      ]

  after_refusal-Landed :
      Assembles
      → (up : S) (payload : List ℕ) (up' : S) (e : ApiError) → Adds up payload (up', bad e)
      → Landed up payload
          (after_refusal api place up' e (length (stored up)) payload (server_offset e))
  after_refusal-Landed good_up up payload up' e a = elim (Option-cases (server_offset e)) [
    | inl o ↦ rw o (record { within = (a.count, a.added); whole = λ f. absurd (cc f) })
    | inr (at, o) ↦ rw o (
        resume_at-Landed good_up up payload up' e a.count at a.count_le a.added
          (a.named e at refl o))
  ]

  after_first-Landed :
      Assembles
      → (up : S) (payload : List ℕ) (r : S × Answer ApiError ℕ) → Adds up payload r
      → Landed up payload (after_first api place (length (stored up)) payload r)
  unfolding after_first
  after_first-Landed good_up up payload (up', good w) a =
      posted-Landed 1 (length (stored up)) up payload (up', good w) a
  after_first-Landed good_up up payload (up', bad e) a =
      after_refusal-Landed good_up up payload up' e a

  pub send_chunk_resuming-Landed :
      Assembles
      → (up : S) (payload : List ℕ)
      → Landed up payload (send_chunk_resuming api place up (length (stored up)) payload)
  unfolding send_chunk_resuming
  send_chunk_resuming-Landed good_up up payload =
      after_first-Landed good_up up payload (send_one api place up (length (stored up)) payload)
        (good_up up payload)
