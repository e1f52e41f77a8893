-- ===== src/Upload/Refines.antt =====
-- What an upload's chunk loop promises (`sendChunks` of pkg/opendrive/upload.go).
use opendrive_bridge.Common.{
  ℕ, zero, suc, ◌+◌, ◌-◌, ◌*◌, ◌≤◌, ◌<◌, ◌≡◌, ◌⊎◌, refl, sym, ap, ◌∙◌, Bool, true, false, Option,
  none, some, List, [], ◌++◌, arith, length, take, skip, take-skip, length-take_le, length-skip,
  ltb, ◌==◌, if◌then◌else◌, inl, inr, Bool-cases, Option-cases, Begins, Answer, good, bad,
}
use opendrive_bridge.Sdk.Errors.{ApiError}
use opendrive_bridge.Upload.Types.{source_unreadable, Calls}
use opendrive_bridge.Upload.Chunks.{
  server_offset, Posted, Place, send_one, posted, resume_at, after_refusal, after_first,
  send_chunk_resuming, Source, read_end, goes_on, is_broken, Progress, no_progress, progress_by,
  Sent, size_check, loop_over, after_chunk, send_loop, send_chunks,
}
use opendrive_bridge.Upload.Assembly.{Assembles}
use opendrive_bridge.Upload.Loop.{outgoing, nothing_read, send_loop-Assembled}

module _ {S F : Type 0} (api : Calls S F) (place : Place) where
  -- At most two requests for a chunk.
  posted_le :
      (n offset want : ℕ) (r : S × Answer ApiError ℕ)
      → (posted api place n offset want r).attempts ≡ n
  posted_le n offset want (up, good w) = refl
  posted_le n offset want (up, bad e) = refl

  resume_at-attempts :
      (up : S) (e : ApiError) (offset : ℕ) (payload : List ℕ) (at : ℕ)
      → (resume_at api place up e offset payload at).attempts ≤ 2
  resume_at-attempts up e offset payload at =
      let again = skip (at - offset) payload in
      ground (arith, posted_le 2 at (length again) (send_one api place up at again))

  after_refusal-attempts :
      (up : S) (e : ApiError) (offset : ℕ) (payload : List ℕ) (o : Option ℕ)
      → (after_refusal api place up e offset payload o).attempts ≤ 2
  after_refusal-attempts up e offset payload none = omega arith
  after_refusal-attempts up e offset payload (some at) = resume_at-attempts up e offset payload at

  after_first-attempts :
      (offset : ℕ) (payload : List ℕ) (r : S × Answer ApiError ℕ)
      → (after_first api place offset payload r).attempts ≤ 2
  unfolding after_first
  after_first-attempts offset payload (up, good w) = omega arith
  after_first-attempts offset payload (up, bad e) =
      after_refusal-attempts up e offset payload (server_offset e)

  attempts_le :
      (up : S) (offset : ℕ) (payload : List ℕ)
      → (send_chunk_resuming api place up offset payload).attempts ≤ 2
  unfolding send_chunk_resuming
  attempts_le up offset payload =
      after_first-attempts offset payload (send_one api place up offset payload)

shorter :
    (n : ℕ) (xs : List ℕ)
    → 1 ≤ n
    → (length (take n xs) == 0) ≡ false
    → length (skip n xs) < length xs
shorter n xs k h = ground (arith, k, h, length-take_le n xs, length-skip n xs)

module _ {S F : Type 0} (api : Calls S F) (place : Place) (wire : List ℕ → List ℕ)
    (chunk size : ℕ) where
  same_progress :
      (b : Bool) (up : S) (g : Progress) (n : ℕ)
      → (if b
          then record { up = up; so_far = g; failure = some source_unreadable }
          else loop_over api place wire chunk size up g).so_far.chunks
        ≤ g.chunks + 2 * n
  same_progress true up g n = omega arith
  same_progress false up g n = omega arith

  Finished : Progress → ℕ → Option (Sent S) → Type 0
  Finished g n o = (y : Sent S) × (o ≡ some y) × (y.so_far.chunks ≤ g.chunks + 2 * n)

  after_chunk-Finished :
      (read payload : List ℕ) (more : Bool) (g : Progress) (x : Posted S) (o : Option (Sent S))
      (m n : ℕ)
      → x.attempts ≤ 2
      → m < n
      → Finished (progress_by read payload x.attempts g) m o
      → Finished g n (after_chunk api place wire chunk size read payload more g x o)
  unfolding Finished
  after_chunk-Finished read payload more g x o m n k h (y, e, c) = elim (Option-cases x.failure) [
    | inr (f, q) ↦ rw q (
      record { up = x.up; so_far = record g { chunks = g.chunks + x.attempts }; failure = some f },
      refl,
      omega (arith, k, h),
    )
    | inl q ↦ elim (Bool-cases more) [
      | inl b ↦ rw q (rw b (y, e, omega (arith, k, h, c)))
      | inr b ↦ rw q (
          rw b (
            loop_over api place wire chunk size x.up (progress_by read payload x.attempts g),
            refl,
            omega (arith, k, h),
          ))
    ]
  ]

  send_loop-Finished :
      1 ≤ chunk
      → (fuel : ℕ) (up : S) (g : Progress) (s : Source) → length s.content < fuel
      → Finished g (length s.content) (send_loop api place wire chunk size fuel up g s)
  unfolding send_loop Finished
  send_loop-Finished pos zero up g s h = absurd (omega (arith, h))
  send_loop-Finished pos (suc fuel) up g s h =
      let read = take chunk s.content in
      let x = send_chunk_resuming api place up g.wire_offset (wire read) in
      let g' = progress_by read (wire read) x.attempts g in
      let s' : Source = record s { content = skip chunk s.content } in
      elim (Bool-cases (length read == 0)) [
        | inl n ↦
            let y =
              if is_broken (read_end chunk s)
              then record { up = up; so_far = g; failure = some source_unreadable }
              else loop_over api place wire chunk size up g in
            rw n (y, refl, same_progress (is_broken (read_end chunk s)) up g (length s.content))
        | inr n ↦
            let less : length (skip chunk s.content) < length s.content =
              shorter chunk s.content pos n in
            rw n (
              after_chunk-Finished read (wire read) (goes_on (read_end chunk s)) g x
                (send_loop api place wire chunk size fuel x.up g' s')
                (length (skip chunk s.content)) (length s.content)
                (attempts_le api place up g.wire_offset (wire read)) less
                (send_loop-Finished pos fuel x.up g' s' (omega (arith, less, h))))
      ]

pub send_chunks-ends :
    {S F : Type 0} (api : Calls S F) (place : Place) (wire : List ℕ → List ℕ) (chunk size : ℕ)
    (up : S) (s : Source)
    → 1 ≤ chunk
    → (y : Sent S) × (send_chunks api place wire chunk size up s ≡ some y)
      × (y.so_far.chunks ≤ 2 * length s.content)
unfolding send_chunks Finished
send_chunks-ends api place wire chunk size up s pos =
    let (y, e, c) =
      send_loop-Finished api place wire chunk size pos (length s.content + 1) up no_progress s
        (omega arith) in
    (y, e, omega (arith, c))

outgoing_plain :
    (chunk fuel : ℕ) (xs : List ℕ)
    → 1 ≤ chunk
    → length xs < fuel
    → outgoing (λ b. b) chunk fuel xs ≡ xs
unfolding outgoing
outgoing_plain chunk zero xs pos h = absurd (omega (arith, h))
outgoing_plain chunk (suc fuel) xs pos h = elim (Bool-cases (length (take chunk xs) == 0)) [
  | inl n ↦ rw n (sym (nothing_read chunk xs pos n))
  | inr n ↦
      let less = shorter chunk xs pos n in
      rw n (
        ap (λ r. take chunk xs ++ r)
          (outgoing_plain chunk fuel (skip chunk xs) pos (omega (arith, less, h)))
        ∙ take-skip chunk xs)
]

-- What a finished chunk loop means for upstream, for the bytes `out` that the content goes out as.
pub record Refines {S : Type 0} (stored : S → List ℕ) (size : ℕ) (out content : List ℕ) (y : Sent S)
    : Type 0 where
  pub part : Begins (stored y.up) out
  pub whole : y.failure ≡ none → stored y.up ≡ out
  pub all_read : y.failure ≡ none → y.so_far.digested ≡ content
  pub sized : y.failure ≡ none → (size ≡ 0) ⊎ (length content ≡ size)

zero_add : (n : ℕ) → n ≡ 0 + n
zero_add n = omega arith

size_check-none : (size n : ℕ) → size_check size n ≡ none → (size ≡ 0) ⊎ (n ≡ size)
size_check-none size n h = elim (Bool-cases (ltb 0 size)) [
  | inr z ↦ inl (ground (arith, z))
  | inl z ↦ inr (ground (arith, z, h))
]

-- The chunk loop comes to an end, with at most two requests for a byte of the content, and then
-- upstream, which held nothing, holds a beginning of what goes out; where no error is reported it
-- holds all of it, every byte of the source went through the digest, and their number is the
-- declared size where one is declared. Chunks take at least one byte, and upstream adds a
-- beginning of each chunk that goes on where its bytes end, counts what it added, and names the
-- end of its bytes in a refusal that names an offset.
pub send_chunks-Refines :
    {S F : Type 0} (api : Calls S F) (place : Place) (stored : S → List ℕ) (wire : List ℕ → List ℕ)
    (chunk size : ℕ) (up : S) (s : Source)
    → Assembles api place stored
    → 1 ≤ chunk
    → stored up ≡ []
    → (y : Sent S) × (send_chunks api place wire chunk size up s ≡ some y)
      × (y.so_far.chunks ≤ 2 * length s.content)
      × Refines stored size (outgoing wire chunk (length s.content + 1) s.content) s.content y
unfolding send_chunks
send_chunks-Refines api place stored wire chunk size up s good_up pos new =
    let (y, e, c) = send_chunks-ends api place wire chunk size up s pos in
    let a =
      send_loop-Assembled api place wire chunk size stored good_up pos (length s.content + 1) up
        no_progress s (sym (ap length new)) y e in
    (
      y,
      e,
      c,
      record {
        part = (
          a.part.0,
          a.part.1 ∙ ap (λ b. b ++ outgoing wire chunk (length s.content + 1) s.content) new,
        );
        whole = λ f.
            a.whole f ∙ ap (λ b. b ++ outgoing wire chunk (length s.content + 1) s.content) new;
        all_read = a.all_read;
        sized = λ f.
            size_check-none size (length s.content)
              (ap (size_check size) (zero_add (length s.content)) ∙ a.sized f);
      },
    )
