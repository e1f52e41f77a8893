-- ===== src/Upload/Bodies.antt =====
-- The fields of the closing request (`closeFile` of pkg/opendrive/upload.go).
use opendrive_bridge.Common.{
  ℕ, ◌≡◌, refl, ◌∙◌, Bool, true, false, not, ◌&&◌, Option, none, some, ◌++◌, if◌then◌else◌,
}
use opendrive_bridge.Common.Text.{Text, codes, is_empty, text_eq}
use opendrive_bridge.Common.Dict.{Dict, find}
use opendrive_bridge.Upload.Types.{
  UploadParams, Value, text, number, field_if, text_field, time_field, scope_fields, close_body,
}

abbrev pub when : Bool → Value → Option Value
when b v = if b then some v else none

-- Passing over the fields of another name.
module _ (k j : Text) (v : Value) (rest : Dict Value) where
  find-if :
      (b : Bool)
      → text_eq j k ≡ true
      → find k rest ≡ none
      → find k (field_if b j v ++ rest) ≡ when b v
  unfolding find
  find-if true h n = rw h refl
  find-if false h n = n

  find-pass : (b : Bool) → text_eq j k ≡ false → find k (field_if b j v ++ rest) ≡ find k rest
  unfolding find
  find-pass true h = rw h refl
  find-pass false h = refl

find-time :
    (k : Text) (t : Option ℕ) (rest : Dict Value)
    → text_eq (codes "file_time") k ≡ false
    → find k (time_field t ++ rest) ≡ find k rest
unfolding find
find-time k none rest h = refl
find-time k (some t) rest h = rw h refl

find-scope :
    (k : Text) (p : UploadParams)
    → text_eq (codes "access_folder_id") k ≡ false
    → text_eq (codes "sharing_id") k ≡ false
    → find k (scope_fields p) ≡ none
unfolding find
find-scope k p h i =
    let sharing = codes "sharing_id" in
    find-pass k (codes "access_folder_id") (text p.access_folder_id)
      (text_field sharing p.sharing_id) (not (is_empty p.access_folder_id)) h
    ∙ last (not (is_empty p.sharing_id))
  where
    last : (b : Bool) → find k (field_if b (codes "sharing_id") (text p.sharing_id)) ≡ none
    last true = rw i refl
    last false = refl

-- What the closing request names, in terms of its arguments.
pub find-close_body :
    (id temp : Text) (p : UploadParams) (zipped : Bool)
    → (find (codes "temp_location") (close_body id temp p zipped)
        ≡ when (not (is_empty temp)) (text temp))
      × (find (codes "file_compressed") (close_body id temp p zipped)
          ≡ when (not (is_empty temp) && zipped) (number 1))
      × (find (codes "file_size") (close_body id temp p zipped) ≡ some (number p.size))
      × (find (codes "file_hash") (close_body id temp p zipped)
          ≡ when (not (is_empty p.hash)) (text p.hash))
unfolding close_body find text_eq
find-close_body id temp p zipped = (
  find-if place place (text temp) behind_place there refl (
      pass_hash place refl
      ∙ pass_time place refl
      ∙ pass_zip place refl
      ∙ find-scope place p refl refl),
  pass_place packed refl
      ∙ (pass_hash packed refl
          ∙ (pass_time packed refl
              ∙ find-if packed packed (number 1) (scope_fields p) (there && zipped) refl
                  (find-scope packed p refl refl))),
  refl,
  pass_place sum refl
      ∙ find-if sum sum (text p.hash) behind_hash (not (is_empty p.hash)) refl
          (pass_time sum refl ∙ pass_zip sum refl ∙ find-scope sum p refl refl),
)
  where
    place : Text
    place = codes "temp_location"

    packed : Text
    packed = codes "file_compressed"

    sum : Text
    sum = codes "file_hash"

    there : Bool
    there = not (is_empty temp)

    behind_time : Dict Value
    behind_time = field_if (there && zipped) packed (number 1) ++ scope_fields p

    behind_hash : Dict Value
    behind_hash = time_field p.mod_time ++ behind_time

    behind_place : Dict Value
    behind_place = text_field sum p.hash ++ behind_hash

    pass_place :
        (k : Text)
        → text_eq place k ≡ false
        → find k (text_field place temp ++ behind_place) ≡ find k behind_place
    pass_place k h = find-pass k place (text temp) behind_place there h

    pass_hash : (k : Text) → text_eq sum k ≡ false → find k behind_place ≡ find k behind_hash
    pass_hash k h = find-pass k sum (text p.hash) behind_hash (not (is_empty p.hash)) h

    pass_time :
        (k : Text) → text_eq (codes "file_time") k ≡ false → find k behind_hash ≡ find k behind_time
    pass_time k h = find-time k p.mod_time behind_time h

    pass_zip : (k : Text) → text_eq packed k ≡ false → find k behind_time ≡ find k (scope_fields p)
    pass_zip k h = find-pass k packed (number 1) (scope_fields p) (there && zipped) h
