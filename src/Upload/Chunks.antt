-- ===== src/Upload/Chunks.antt =====
-- Sending the content (`sendChunks`, `sendChunkResuming` and `serverOffset` of pkg/opendrive/upload.go).
-- The source is what is left of its bytes, and whether reading it ends with an error.
use opendrive_bridge.Common.{
  ℕ, zero, suc, ◌+◌, ◌-◌, ◌*◌, ◌^◌, Bool, true, false, not, ◌&&◌, Option, none, some, List, [], ◌∷◌,
  ◌++◌, length, take, skip, ltb, leb, ◌==◌, if◌then◌else◌, Answer, good, bad,
}
use opendrive_bridge.Common.Text.{Text, codes, has_prefix, drop_prefix}
use opendrive_bridge.Sdk.Errors.{ApiError}
use opendrive_bridge.Upload.Types.{
  UploadError, upstream_said, source_unreadable, wrong_written, cannot_rewind, size_differs, Calls,
}

abbrev pub is_digit : ℕ → Bool
is_digit c = leb b'0' c && leb c b'9'

-- The value of the digits in front.
unfoldable pub leading_number : ℕ → Text → ℕ
leading_number n [] = n
leading_number n (c ∷ s) =
    let more = leading_number (10 * n + (c - b'0')) s in if is_digit c then more else n

unfoldable pub starts_with_digit : Text → Bool
starts_with_digit [] = false
starts_with_digit (c ∷ s) = is_digit c

abbrev offset_mark : Text
offset_mark = codes "uploaded="

-- The first match of `uploaded=(\d+)`.
unfoldable pub match_offset : Text → Option ℕ
unfolding has_prefix drop_prefix leading_number starts_with_digit
match_offset [] = none
match_offset (c ∷ s) =
    let rest = match_offset s in
    let behind = drop_prefix (c ∷ s) offset_mark in
    if has_prefix (c ∷ s) offset_mark && starts_with_digit behind
    then some (leading_number 0 behind)
    else rest

abbrev in_int64 : Option ℕ → Option ℕ
in_int64 none = none
in_int64 (some n) = if leb (2 ^ 63) n then none else some n

-- `serverOffset`.
unfoldable pub server_offset : ApiError → Option ℕ
unfolding match_offset
server_offset e = in_int64 (match_offset e.upstream_msg)

-- What posting a chunk comes to: the state of upstream, the requests made, and how it ended.
pub record Posted (S : Type 0) : Type 0 where
  pub up : S
  pub attempts : ℕ
  pub failure : Option UploadError

-- The check of the count that upstream answers.
abbrev pub check_written : ℕ → ℕ → ℕ → Option UploadError
check_written offset want written =
    if written == want then none else some (wrong_written offset written want)

-- The file and the place that the chunks of an upload go to.
pub record Place : Type 0 where
  pub file_id : Text
  pub temp_location : Text

module _ {S F : Type 0} (api : Calls S F) (place : Place) where
  abbrev pub send_one : S → ℕ → List ℕ → S × Answer ApiError ℕ
  send_one up offset payload = api.send_chunk up place.file_id place.temp_location offset payload

  abbrev pub posted : ℕ → ℕ → ℕ → S × Answer ApiError ℕ → Posted S
  posted n offset want (up, good w) = record {
    up = up;
    attempts = n;
    failure = check_written offset want w;
  }
  posted n offset want (up, bad e) = record {
    up = up;
    attempts = n;
    failure = some (upstream_said e);
  }

  -- The three cases of `sendChunkResuming` for the offset that upstream is at.
  abbrev pub resume_at : S → ApiError → ℕ → List ℕ → ℕ → Posted S
  resume_at up e offset payload at =
      if leb (offset + length payload) at
      then record { up = up; attempts = 1; failure = none }
      else if ltb offset at
      then (let tail = skip (at - offset) payload in
          posted 2 at (length tail) (send_one up at tail))
      else record { up = up; attempts = 1; failure = some (cannot_rewind at offset e) }

  abbrev pub after_refusal : S → ApiError → ℕ → List ℕ → Option ℕ → Posted S
  after_refusal up e offset payload none = record {
    up = up;
    attempts = 1;
    failure = some (upstream_said e);
  }
  after_refusal up e offset payload (some at) = resume_at up e offset payload at

  unfoldable pub after_first : ℕ → List ℕ → S × Answer ApiError ℕ → Posted S
  unfolding server_offset
  after_first offset payload (up, good w) = posted 1 offset (length payload) (up, good w)
  after_first offset payload (up, bad e) = after_refusal up e offset payload (server_offset e)

  -- `sendChunkResuming`.
  unfoldable pub send_chunk_resuming : S → ℕ → List ℕ → Posted S
  unfolding after_first
  send_chunk_resuming up offset payload = after_first offset payload (send_one up offset payload)

-- An `io.Reader`.
pub record Source : Type 0 where
  pub content : List ℕ
  pub breaks : Bool

-- How `io.ReadFull` ends: the buffer is full, the source is at its end, or it cannot be read.
pub data ReadEnd : Type 0 where
  filled at_end broken : ReadEnd

abbrev pub read_end : ℕ → Source → ReadEnd
read_end n s = if leb n (length s.content) then filled else if s.breaks then broken else at_end

abbrev pub goes_on : ReadEnd → Bool
goes_on filled = true
goes_on _ = false

abbrev pub is_broken : ReadEnd → Bool
is_broken broken = true
is_broken _ = false

-- The counters of `sendChunks`, with what the digest has read.
pub record Progress : Type 0 where
  pub source_offset : ℕ
  pub wire_offset : ℕ
  pub chunks : ℕ
  pub digested : List ℕ

abbrev pub no_progress : Progress
no_progress = record { source_offset = 0; wire_offset = 0; chunks = 0; digested = [] }

abbrev pub progress_by : List ℕ → List ℕ → ℕ → Progress → Progress
progress_by read payload attempts g = record {
  source_offset = g.source_offset + length read;
  wire_offset = g.wire_offset + length payload;
  chunks = g.chunks + attempts;
  digested = g.digested ++ read;
}

-- How the chunk loop ended.
pub record Sent (S : Type 0) : Type 0 where
  pub up : S
  pub so_far : Progress
  pub failure : Option UploadError

-- The check behind the loop.
abbrev pub size_check : ℕ → ℕ → Option UploadError
size_check size n = if ltb 0 size && not (n == size) then some (size_differs n size) else none

module _ {S F : Type 0} (api : Calls S F) (place : Place) (wire : List ℕ → List ℕ)
    (chunk size : ℕ) where
  abbrev pub loop_over : S → Progress → Sent S
  loop_over up g = record { up = up; so_far = g; failure = size_check size g.source_offset }

  abbrev pub after_chunk :
      List ℕ → List ℕ → Bool → Progress → Posted S → Option (Sent S) → Option (Sent S)
  after_chunk read payload more g x rest = elim (x.failure) [
    | some e ↦ some (record {
      up = x.up;
      so_far = record g { chunks = g.chunks + x.attempts };
      failure = some e;
    })
    | none ↦ if more then rest else some (loop_over x.up (progress_by read payload x.attempts g))
  ]

  -- The loop of `sendChunks`, over the bytes as they go out (`wire`, the compression or nothing).
  unfoldable pub send_loop : ℕ → S → Progress → Source → Option (Sent S)
  unfolding send_chunk_resuming
  send_loop zero up g s = none
  send_loop (suc fuel) up g s =
      let read = take chunk s.content in
      let end = read_end chunk s in
      let payload = wire read in
      let x = send_chunk_resuming api place up g.wire_offset payload in
      let rest =
        send_loop fuel x.up (progress_by read payload x.attempts g)
          (record s { content = skip chunk s.content }) in
      if length read == 0
      then some (
          if is_broken end
          then record { up = up; so_far = g; failure = some source_unreadable }
          else loop_over up g)
      else after_chunk read payload (goes_on end) g x rest

-- `sendChunks`. Every chunk takes at least one byte from the source.
unfoldable pub send_chunks :
    {S F : Type 0} → Calls S F → Place → (List ℕ → List ℕ) → ℕ → ℕ → S → Source → Option (Sent S)
unfolding send_loop
send_chunks api place wire chunk size up s =
    send_loop api place wire chunk size (length s.content + 1) up no_progress s

-- Compression at the request of upstream.
abbrev pub wire_of : (List ℕ → List ℕ) → Bool → List ℕ → List ℕ
wire_of zip compressed bs = if compressed then zip bs else bs
