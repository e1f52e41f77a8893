-- ===== src/Download/Tests.antt =====
-- Downloads at concrete inputs.
use mathlib.Core.List.{append-nil}
use opendrive_bridge.Common.{
  ℕ, ◌≡◌, refl, ap, subst, Bool, true, false, Option, none, some, List, [], ◌∷◌, take, skip,
  take-skip, ◌==◌, inr, good, good_inj,
}
use opendrive_bridge.Common.Text.{codes, contains, has_prefix}
use opendrive_bridge.Download.{
  DownloadParams, target_of, Reply, Remote, is_json_type, total_from, verify, copied, receive,
  range_of, streamed, probed, download, validate_download, wants_probe,
}
use opendrive_bridge.Download.Files.{missing, regular, write_at, download_file}
use opendrive_bridge.Download.Resume.{Gives, Serves}
use opendrive_bridge.Download.Runs.{Holds, runs, runs-Holds}
use opendrive_bridge.Download.Verified.{Checked, download-Checked}

abbrev text4 : List ℕ
text4 = 1 ∷ 2 ∷ 3 ∷ 4 ∷ []

abbrev reply : ℕ → List ℕ → Bool → Reply
reply status body breaks = record {
  status = status;
  content_type = codes "bin";
  content_range = [];
  content_length = none;
  name = [];
  body = body;
  breaks = breaks;
}

-- A remote that honours offsets or not, and breaks off after some bytes or not at all.
abbrev stream_of : Bool → Option ℕ → Option ℕ → Reply
stream_of honours none none = reply 200 text4 false
stream_of honours none (some k) = reply 200 (take k text4) true
stream_of true (some n) none = reply 206 (skip n text4) false
stream_of true (some n) (some k) = reply 206 (take k (skip n text4)) true
stream_of false (some n) none = reply 200 text4 false
stream_of false (some n) (some k) = reply 200 (take k text4) true

abbrev remote : Bool → Option ℕ → Remote
remote honours cut = record {
  probe = λ id share. good (record { bw_exceeded = false });
  stream = λ id range. good (stream_of honours range cut);
  lower = λ t. t;
  read_probe = λ raw. none;
  error_in_body = λ raw. none;
  parse_int = λ t. none;
  digest = λ bs. codes "0123456789abcdef0123456789abcdef";
}

whole_reply : (s : ℕ) → Gives (reply s text4 false) text4
whole_reply s = (([], refl), λ h. refl)

cut_reply : (s k : ℕ) (xs : List ℕ) → Gives (reply s (take k xs) true) xs
cut_reply s k xs = ((skip k xs, take-skip k xs), λ h. absurd (cc h))

abbrev four_bytes : DownloadParams
four_bytes = record {
  file_id = codes "f";
  offset = 0;
  size = 4;
  hash = [];
  sharing_id = [];
  inline = false;
  probe = none;
}

remote-Serves :
    (honours : Bool) (cut : Option ℕ) → Serves (remote honours cut) (target_of four_bytes) text4
remote-Serves true none = record {
  tail = λ n x h j s.
      subst (λ y. Gives y (skip n text4)) (good_inj h) (([], append-nil (skip n text4)), λ k. refl);
  restart = λ n x h j s. absurd (cc (s, ap (λ y. y.status == 206) (good_inj h)));
  start = λ x h j. subst (λ y. Gives y text4) (good_inj h) (whole_reply 200);
}
remote-Serves true (some k) = record {
  tail = λ n x h j s.
      subst (λ y. Gives y (skip n text4)) (good_inj h) (cut_reply 206 k (skip n text4));
  restart = λ n x h j s. absurd (cc (s, ap (λ y. y.status == 206) (good_inj h)));
  start = λ x h j. subst (λ y. Gives y text4) (good_inj h) (cut_reply 200 k text4);
}
remote-Serves false none = record {
  tail = λ n x h j s. absurd (cc (s, ap (λ y. y.status == 206) (good_inj h)));
  restart = λ n x h j s. subst (λ y. Gives y text4) (good_inj h) (whole_reply 200);
  start = λ x h j. subst (λ y. Gives y text4) (good_inj h) (whole_reply 200);
}
remote-Serves false (some k) = record {
  tail = λ n x h j s. absurd (cc (s, ap (λ y. y.status == 206) (good_inj h)));
  restart = λ n x h j s. subst (λ y. Gives y text4) (good_inj h) (cut_reply 200 k text4);
  start = λ x h j. subst (λ y. Gives y text4) (good_inj h) (cut_reply 200 k text4);
}

-- A stream that breaks off after two bytes, one that restarts and breaks off after three, and one
-- that goes on from there.
abbrev broken_off : List Remote
broken_off = remote true (some 2) ∷ remote false (some 3) ∷ []

three_runs :
    (download_file (remote true none) (runs broken_off missing four_bytes) four_bytes).local
    ≡ regular text4
unfolding runs download_file validate_download download probed wants_probe streamed receive
    is_json_type contains has_prefix copied verify write_at total_from
three_runs = refl

runs-Holds_example :
    Holds text4 (download_file (remote true none) (runs broken_off missing four_bytes) four_bytes)
runs-Holds_example =
    runs-Holds broken_off (remote true none) missing four_bytes text4
      (remote-Serves true (some 2), (remote-Serves false (some 3), tt)) (remote-Serves true none)
      (text4, refl) refl (inr refl)

download-Checked_example :
    (x : Reply) × ((remote true none).stream
        (target_of four_bytes)
        (range_of (remote true none) four_bytes)
      ≡ good x)
    × Checked (remote true none) four_bytes x (download (remote true none) four_bytes)
unfolding download validate_download probed wants_probe streamed receive is_json_type contains
    has_prefix copied verify total_from
download-Checked_example = download-Checked (remote true none) four_bytes refl

-- Without a file, an offset of the caller's leaves zeros in front of the bytes that come.
hole_of_zeros :
    (download_file (remote true none) missing (record four_bytes { offset = 2; size = 0 })).local
    ≡ regular (0 ∷ 0 ∷ 3 ∷ 4 ∷ [])
unfolding download_file validate_download download probed wants_probe streamed receive is_json_type
    contains has_prefix copied verify write_at total_from
hole_of_zeros = refl
