-- ===== src/Upload/Tests.antt =====
-- Uploads at concrete inputs: a drive that stores the first bytes of a chunk and refuses the rest.
use opendrive_bridge.Common.{
  ℕ, ◌+◌, ◌-◌, ◌*◌, ◌^◌, ◌≤◌, ◌≡◌, refl, sym, ap, ◌∙◌, true, false, Option, none, some, List, [],
  ◌∷◌, ◌++◌, arith, length, take, take-all, ltb, leb, ◌==◌, if◌then◌else◌, inl, inr, Bool-cases,
  Answer, good, bad, some_inj, good_inj, bad_inj,
}
use opendrive_bridge.Common.Text.{Text, codes, text_eq, text_eq_refl, has_prefix, drop_prefix}
use opendrive_bridge.Sdk.Errors.{ApiError, upstream_error, shape_json, retry_default, no_diagnosis}
use opendrive_bridge.Upload.Types.{
  Created, created_id, UploadParams, Uploaded, validate_upload, chunk_size_of, Calls,
}
use opendrive_bridge.Upload.Chunks.{
  server_offset, Place, send_chunk_resuming, after_first, Source, Sent, send_loop, send_chunks,
  is_digit, match_offset, leading_number, starts_with_digit,
}
use opendrive_bridge.Upload.Assembly.{Adds, Assembles}
use opendrive_bridge.Upload.Loop.{outgoing}
use opendrive_bridge.Upload.Refines.{Refines, send_chunks-Refines}
use opendrive_bridge.Upload.Pipeline.{
  Tools, Transferred, UploadEnd, close_up, after_chunks, after_open, transfer, settle, settle_maybe,
  after_create, forget_listing, upload,
}
use opendrive_bridge.Upload.Outcome.{Upstream, Done, upload-Done}
use opendrive_bridge.Upload.Ledger.{Ledger}
use opendrive_bridge.Upload.Orphans.{Clean, upload-Clean}
use opendrive_bridge.Upload.Closing.{Closes, transfer-Closes}

-- A drive with the bytes of one upload, the ids of its files, and the lengths at which the next
-- chunks are cut off.
record Drive : Type 0 where
  bytes : List ℕ
  files : List Text
  cuts : List ℕ

-- The refusal that names an offset of one digit.
abbrev message_at : ℕ → Text
message_at n = if ltb n 10 then codes "uploaded=" ++ ((b'0' + n) ∷ []) else []

abbrev refusal : ℕ → ApiError
refusal n = record {
  kind = upstream_error;
  http_code = 400;
  upstream_code = 400;
  upstream_msg = message_at n;
  oauth_error = [];
  op = [];
  url = [];
  retry_after = 0;
  shape = shape_json;
  scope = [];
  ambiguous = false;
  resolved = false;
  retry = retry_default;
  retry_budget = 0;
  diagnosis = no_diagnosis;
}

abbrev clip : ℕ → ℕ → ℕ
clip k n = if leb k n then k else n

abbrev land : Drive → List ℕ → List ℕ → Drive × Answer ApiError ℕ
land d bs [] = (record d { bytes = d.bytes ++ bs }, good (length bs))
land d bs (k ∷ ks) =
    let d' : Drive = record d { bytes = d.bytes ++ take (clip k (length bs)) bs; cuts = ks } in
    (d', bad (refusal (length d'.bytes)))

abbrev remove_first : Text → List Text → List Text
unfolding text_eq
remove_first id [] = []
remove_first id (x ∷ xs) = if text_eq x id then xs else x ∷ xs

abbrev new_file : Created
new_file = record {
  file_id = [];
  file_id_upper = codes "f1";
  temp_location = codes "t1";
  require_compression = false;
  require_hash_only = false;
}

abbrev drive_calls : Calls Drive ℕ
unfolding remove_first
drive_calls = record {
  create_file = λ d body. (record d { bytes = []; files = codes "f1" ∷ d.files }, good new_file);
  open_file = λ d body. (d, good (record { temp_location = []; require_compression = false }));
  send_chunk = λ d id temp offset bs.
      if offset == length d.bytes then land d bs d.cuts else (d, bad (refusal (length d.bytes)));
  close_file = λ d body. (d, good (length d.bytes));
  delete_trashed = λ d id access sharing. (record d { files = remove_first id d.files }, none);
}

digit : (n : ℕ) → ltb n 10 ≡ true → is_digit (b'0' + n) ≡ true
digit n h = ground (arith, h)

small : (n : ℕ) → ltb n 10 ≡ true → leb (2 ^ 63) (10 * 0 + (b'0' + n - b'0')) ≡ false
small n h = ground (arith, h)

value : (n : ℕ) → 0 + (b'0' + n - b'0') ≡ n
value n = omega arith

named_offset : (n at : ℕ) → server_offset (refusal n) ≡ some at → at ≡ n
unfolding server_offset match_offset has_prefix drop_prefix leading_number starts_with_digit
named_offset n at = elim (Bool-cases (ltb n 10)) [
  | inr b ↦ rw b (λ h. absurd (cc h))
  | inl b ↦ rw b (rw (digit n b) (rw (small n b) (λ h. sym (some_inj h) ∙ value n)))
]

clip_le : (k n : ℕ) → clip k n ≤ n
clip_le k n = ground arith

same : (n : ℕ) → (n == n) ≡ true
same n = ground arith

abbrev bytes_of : Place → Drive → List ℕ
bytes_of place d = d.bytes

land-Adds :
    (place : Place) (d : Drive) (bs : List ℕ) (ks : List ℕ)
    → Adds drive_calls place (bytes_of place) d bs (land d bs ks)
land-Adds place d bs [] = record {
  count = length bs;
  count_le = omega arith;
  added = ap (λ s. d.bytes ++ s) (sym (take-all (length bs) bs (omega arith)));
  counted = λ w h. sym (good_inj h);
  named = λ e at h. absurd (cc h);
}
land-Adds place d bs (k ∷ ks) = record {
  count = clip k (length bs);
  count_le = clip_le k (length bs);
  added = refl;
  counted = λ w h. absurd (cc h);
  named = λ e at h s.
      named_offset (length (d.bytes ++ take (clip k (length bs)) bs)) at
        (ap server_offset (bad_inj h) ∙ s);
}

drive-Assembles : (place : Place) → Assembles drive_calls place (bytes_of place)
unfolding drive_calls
drive-Assembles place d bs = rw (same (length d.bytes)) (land-Adds place d bs d.cuts)

drive-Upstream : Upstream drive_calls bytes_of
unfolding drive_calls
drive-Upstream = record {
  assembles = drive-Assembles;
  fresh = λ d body c h temp. refl;
  opens = λ d body place. refl;
}

drive-Ledger : Ledger drive_calls (λ d. d.files)
unfolding drive_calls
drive-Ledger = record {
  adds = λ d folder p c o h. ap (λ x. created_id x ∷ d.files) (good_inj h);
  opens = λ d body. refl;
  sends = send-files;
  closes = λ d body. refl;
  deletes = λ d id access sharing rest h g. rw h (rw (text_eq_refl id, remove_first) refl);
  may_delete = λ d id access sharing rest e h g. absurd (cc g);
}
  where
    land-files : (d : Drive) (bs ks : List ℕ) → (land d bs ks).0.files ≡ d.files
    land-files d bs [] = refl
    land-files d bs (k ∷ ks) = refl

    send-files :
        (d : Drive) (id temp : Text) (offset : ℕ) (bs : List ℕ)
        → (drive_calls.send_chunk d id temp offset bs).0.files ≡ d.files
    send-files d id temp offset bs = elim (Bool-cases (offset == length d.bytes)) [
      | inl b ↦ rw b (land-files d bs d.cuts)
      | inr b ↦ rw b refl
    ]

abbrev drive : List ℕ → Drive
drive cuts = record { bytes = []; files = codes "a" ∷ []; cuts = cuts }

abbrev five : Source
five = record { content = 1 ∷ 2 ∷ 3 ∷ 4 ∷ 5 ∷ []; breaks = false }

abbrev place : Place
place = record { file_id = codes "f1"; temp_location = codes "t1" }

abbrev plain : List ℕ → List ℕ
plain bs = bs

-- Five bytes in chunks of two; the first chunk lands whole without an answer, the second in part.
abbrev ap_up : Option (Sent Drive) → Option (List ℕ)
ap_up none = none
ap_up (some y) = some y.up.bytes

five_arrive :
    ap_up (send_chunks drive_calls place plain 2 5 (drive (2 ∷ 1 ∷ [])) five)
    ≡ some (1 ∷ 2 ∷ 3 ∷ 4 ∷ 5 ∷ [])
unfolding send_chunks send_loop send_chunk_resuming after_first server_offset match_offset
    has_prefix drop_prefix leading_number starts_with_digit drive_calls
five_arrive = refl

send_chunks-Refines_example :
    (y : Sent Drive) × (send_chunks drive_calls place plain 2 5 (drive (2 ∷ 1 ∷ [])) five ≡ some y)
    × (y.so_far.chunks ≤ 2 * length five.content)
    × Refines
        (bytes_of place)
        5
        (outgoing plain 2 (length five.content + 1) five.content)
        five.content
        y
send_chunks-Refines_example =
    send_chunks-Refines drive_calls place (bytes_of place) plain 2 5 (drive (2 ∷ 1 ∷ [])) five
      (drive-Assembles place) (omega arith) refl

abbrev tools : Tools
tools = record { zip = λ bs. bs; digest = λ bs. codes "d"; name_error = λ name. none }

abbrev five_params : UploadParams
five_params = record {
  folder_id = [];
  name = codes "b";
  size = 5;
  hash = [];
  mod_time = none;
  open_if_exists = false;
  chunk_size = 0;
  access_folder_id = [];
  sharing_id = [];
  keep_on_failure = false;
}

abbrev five_file : Uploaded ℕ
five_file = record {
  file = 5;
  deduplicated = false;
  compressed = false;
  bytes_sent = 5;
  chunks = 2;
  hash = codes "d";
}

abbrev five_end : UploadEnd Drive ℕ
five_end = record {
  up = record { bytes = 1 ∷ 2 ∷ 3 ∷ 4 ∷ 5 ∷ []; files = codes "f1" ∷ codes "a" ∷ []; cuts = [] };
  cache = none;
  result = good five_file;
}

five_uploaded : upload drive_calls tools (drive (3 ∷ [])) none five_params five ≡ some five_end
unfolding upload validate_upload after_create forget_listing transfer after_open after_chunks
    close_up chunk_size_of send_chunks send_loop send_chunk_resuming after_first server_offset
    match_offset has_prefix drop_prefix leading_number starts_with_digit drive_calls settle
    settle_maybe
five_uploaded = refl

-- A source that cannot be read behind its fifth byte, of a size that is not declared, is closed as
-- if it had ended there.
broken_source_accepted :
    upload drive_calls tools
      (drive (3 ∷ []))
      none
      (record five_params { size = 0 })
      (record five { breaks = true })
    ≡ some five_end
unfolding upload validate_upload after_create forget_listing transfer after_open after_chunks
    close_up chunk_size_of send_chunks send_loop send_chunk_resuming after_first server_offset
    match_offset has_prefix drop_prefix leading_number starts_with_digit drive_calls settle
    settle_maybe
broken_source_accepted = refl

upload-Done_example :
    Done drive_calls tools bytes_of (drive (3 ∷ [])) five_params five five_end.up five_file
upload-Done_example =
    upload-Done drive_calls tools bytes_of (drive (3 ∷ [])) none five_params five five_end five_file
      drive-Upstream five_uploaded refl

-- Four bytes are declared and five come, so the upload fails and its record goes.
abbrev four_params : UploadParams
four_params = record five_params { size = 4 }

upload-Clean_example :
    Clean drive_calls
      (λ d. d.files)
      (drive [])
      four_params
      (upload drive_calls tools (drive []) none four_params five)
upload-Clean_example =
    upload-Clean drive_calls (λ d. d.files) drive-Ledger tools (drive []) none four_params five refl
      refl

-- A transfer of five bytes, of which three land first.
abbrev five_moved : Transferred Drive ℕ
five_moved = record {
  up = record { bytes = 1 ∷ 2 ∷ 3 ∷ 4 ∷ 5 ∷ []; files = codes "a" ∷ []; cuts = [] };
  result = good five_file;
}

five_transferred :
    transfer drive_calls tools (drive (3 ∷ [])) (codes "f1") new_file five_params five
    ≡ some five_moved
unfolding transfer after_open after_chunks close_up chunk_size_of send_chunks send_loop
    send_chunk_resuming after_first server_offset match_offset has_prefix drop_prefix leading_number
    starts_with_digit drive_calls
five_transferred = refl

transfer-Closes_example :
    Closes drive_calls tools bytes_of
      (drive (3 ∷ []))
      (codes "f1")
      five_params
      five
      five_moved.up
      five_file
unfolding drive_calls
transfer-Closes_example =
    transfer-Closes drive_calls tools bytes_of (drive (3 ∷ [])) (codes "f1") new_file five_params
      five five_moved five_file drive-Assembles (λ temp. refl) five_transferred refl
