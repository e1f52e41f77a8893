-- ===== src/Download.antt =====
-- The download of a file with resumption (pkg/opendrive/download.go). Upstream, one request at a time,
-- is an argument, and so are JSON, lower case, numbers in texts and the digest. A write to the local
-- file is taken to succeed, and `Progress` and the archive download are left out.
pub mod Files
pub mod Resume
pub mod Runs
pub mod Verified
mod Tests
use opendrive_bridge.Common.{
  ℕ, zero, suc, ◌+◌, ◌*◌, Bool, true, false, not, ◌&&◌, ◌||◌, Option, none, some, List, [], ◌∷◌,
  ◌++◌, length, take, skip, ltb, leb, ◌==◌, if◌then◌else◌, Answer, good, bad,
}
use opendrive_bridge.Common.Text.{Text, codes, is_empty, contains, trim_space, slash}
use opendrive_bridge.DataCache.Path.{equal_fold}
use opendrive_bridge.Sdk.Errors.{ApiError}

-- `DownloadParams`.
pub record DownloadParams : Type 0 where
  pub file_id : Text
  pub offset : ℕ
  pub size : ℕ
  pub hash : Text
  pub sharing_id : Text
  pub inline : Bool
  pub probe : Option Bool

-- What a request for a stream names: the file, the share where there is one, and the disposition.
pub record Target : Type 0 where
  pub file : Text
  pub share : Text
  pub as_inline : Bool

abbrev pub target_of : DownloadParams → Target
target_of p = record { file = p.file_id; share = p.sharing_id; as_inline = p.inline }

-- `DownloadResult`; a total that is not known is missing.
pub record DownloadResult : Type 0 where
  pub written : ℕ
  pub offset : ℕ
  pub resumed : Bool
  pub total : Option ℕ
  pub name : Text
  pub hash : Text
  pub hash_verified : Bool

-- The errors that a download answers with.
pub data DownloadError : Type 0 where
  upstream_failed : ApiError → DownloadError
  no_id bad_hash_length bandwidth_exhausted json_for_bytes ended_before_offset : DownloadError
  stream_broken cannot_open : DownloadError
  hash_differs : Text → Text → DownloadError

-- `DownloadProbe`, as far as it is used.
pub record ProbeReply : Type 0 where
  pub bw_exceeded : Bool

-- `StreamResponse`, with the bytes that its body gives and whether reading it ends with an error.
pub record Reply : Type 0 where
  pub status : ℕ
  pub content_type : Text
  pub content_range : Text
  pub content_length : Option ℕ
  pub name : Text
  pub body : List ℕ
  pub breaks : Bool

-- The requests, and what is taken from the Go library: the probe, the stream from an offset, lower
-- case, JSON, an error in a body, a number in a text and the digest.
pub record Remote : Type 0 where
  pub probe : Text → Text → Answer ApiError ProbeReply
  pub stream : Target → Option ℕ → Answer ApiError Reply
  pub lower : Text → Text
  pub read_probe : List ℕ → Option ProbeReply
  pub error_in_body : List ℕ → Option ApiError
  pub parse_int : Text → Option ℕ
  pub digest : List ℕ → Text

-- `validate`.
unfoldable pub validate_download : DownloadParams → Option DownloadError
validate_download p =
    if is_empty p.file_id
    then some no_id
    else if not (is_empty p.hash) && not (length p.hash == 32)
    then some bad_hash_length
    else none

abbrev pub probe_threshold : ℕ
probe_threshold = 8 * 1048576

-- `wantsProbe`.
unfoldable pub wants_probe : DownloadParams → Bool
wants_probe p = elim (p.probe) [ some b ↦ b | none ↦ leb probe_threshold p.size ]

-- `Probe` of a file with an id.
abbrev pub probe_failure : Answer ApiError ProbeReply → Option DownloadError
probe_failure (bad e) = some (upstream_failed e)
probe_failure (good r) = if r.bw_exceeded then some bandwidth_exhausted else none

-- What stands behind the last slash, where there is one.
last_part : Text → Option Text
last_part [] = none
last_part (c ∷ s) = elim (last_part s) [
  | some t ↦ some t
  | none ↦ if c == slash then some s else none
]

abbrev pub from_length : Option ℕ → Bool → ℕ → Option ℕ
from_length none resumed offset = none
from_length (some n) resumed offset = some (if resumed then n + offset else n)

abbrev pub or_else : Option ℕ → Option ℕ → Option ℕ
or_else (some n) o = some n
or_else none o = o

module _ (r : Remote) where
  unfoldable pub ranged_total : Option Text → Option ℕ
  unfolding trim_space
  ranged_total none = none
  ranged_total (some t) = r.parse_int (trim_space t)

  -- `totalFromResponse`.
  unfoldable pub total_from : Reply → Bool → ℕ → Option ℕ
  unfolding last_part ranged_total
  total_from x resumed offset =
      or_else (ranged_total (last_part x.content_range))
        (from_length x.content_length resumed offset)

  -- `isJSONContentType`.
  unfoldable pub is_json_type : Text → Bool
  unfolding contains
  is_json_type t = contains (r.lower t) (codes "json")

  -- `readInsteadOfBytes`.
  unfoldable pub read_instead : Reply → DownloadError
  read_instead x =
      let raw = take 65536 x.body in
      if x.breaks && leb (length x.body) 65535 then stream_broken else elim (r.read_probe raw) [
        | some p ↦ if p.bw_exceeded then bandwidth_exhausted else or_error (r.error_in_body raw)
        | none ↦ or_error (r.error_in_body raw)
      ]
    where
      or_error : Option ApiError → DownloadError
      or_error (some e) = upstream_failed e
      or_error none = json_for_bytes

-- What a download came to: the bytes that the destination was given, the result and the error.
pub record Download : Type 0 where
  pub out : List ℕ
  pub result : DownloadResult
  pub failure : Option DownloadError

abbrev pub fresh_result : ℕ → DownloadResult
fresh_result offset = record {
  written = 0;
  offset = offset;
  resumed = false;
  total = none;
  name = [];
  hash = [];
  hash_verified = false;
}

abbrev pub gives_up : ℕ → DownloadError → Download
gives_up offset e = record { out = []; result = fresh_result offset; failure = some e }

module _ (r : Remote) (p : DownloadParams) where
  -- The check of the digest, where the stream covered the whole file.
  unfoldable pub verify : List ℕ → Bool → Download → Download
  unfolding equal_fold
  verify body resumed d =
      let hash = r.digest body in
      let hashed : DownloadResult = record d.result { hash = hash } in
      if (p.offset == 0 || not resumed) && not (is_empty p.hash)
      then record d {
        result = record hashed { hash_verified = true };
        failure = if equal_fold hash p.hash then none else some (hash_differs hash p.hash);
      }
      else record d { result = hashed }

  -- The copy to the destination, of what follows the bytes that are skipped.
  unfoldable pub copied : Reply → Bool → DownloadResult → List ℕ → Download
  unfolding verify
  copied x resumed d out =
      let d' : DownloadResult = record d { written = length out } in
      if x.breaks
      then record { out = out; result = d'; failure = some stream_broken }
      else verify x.body resumed (record { out = out; result = d'; failure = none })

  -- The callback of `Download`.
  unfoldable pub receive : Reply → Download
  unfolding is_json_type read_instead total_from copied
  receive x =
      let resumed = x.status == 206 in
      let d : DownloadResult = record (fresh_result p.offset) {
        resumed = resumed;
        total = total_from r x resumed p.offset;
        name = x.name;
      } in
      if is_json_type r x.content_type
      then gives_up p.offset (read_instead r x)
      else if ltb 0 p.offset && not resumed
      then (if ltb (length x.body) p.offset
          then record { out = []; result = d; failure = some ended_before_offset }
          else copied x resumed d (skip p.offset x.body))
      else copied x resumed d x.body

  abbrev pub range_of : Option ℕ
  range_of = if ltb 0 p.offset then some p.offset else none

  unfoldable pub streamed : Answer ApiError Reply → Download
  unfolding receive
  streamed (bad e) = gives_up p.offset (upstream_failed e)
  streamed (good x) = receive x

  unfoldable pub probed : Option DownloadError
  unfolding wants_probe
  probed = if wants_probe p then probe_failure (r.probe p.file_id p.sharing_id) else none

  -- `Download`.
  unfoldable pub download : Download
  unfolding validate_download probed streamed
  download = elim (validate_download p) [
    | some e ↦ gives_up p.offset e
    | none ↦ elim probed [
      | some e ↦ gives_up p.offset e
      | none ↦ streamed (r.stream (target_of p) range_of)
    ]
  ]
