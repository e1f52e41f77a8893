-- ===== src/Keystore/Tests.antt =====
-- The credential file (internal/keystore) at concrete inputs.
use opendrive_bridge.Common.{
  ℕ, ◌+◌, ◌-◌, ◌≡◌, refl, ap, subst, false, some, [], ◌∷◌, arith, any, inl, inr, Bool-cases, Option,
  none,
}
use opendrive_bridge.Common.Text.{Text, codes, text_eq, text_eq_iff}
use opendrive_bridge.Common.Dict.{Dict, find}
use opendrive_bridge.Keystore.Env.{render_env, parse_env}
use opendrive_bridge.Keystore.RoundTrip.{IsName, IsValue, parse-render}
use opendrive_bridge.Keystore.Envelope.{Bytes, Crypt, Faithful, is_blank, seal, open_sealed}
use opendrive_bridge.Keystore.Sealing.{open-seal}
use opendrive_bridge.Keystore.Credentials.{
  StoredCredentials, Formats, apply_credentials, credentials_from_fields,
}
use opendrive_bridge.Keystore.Saving.{whole_seconds, Readable, settled, from-apply}

-- A backslash in front of a quote, and a backslash at the end.
abbrev awkward : Text
awkward = 97 ∷ 92 ∷ 34 ∷ 98 ∷ 92 ∷ []

abbrev two_fields : Dict Text
two_fields = (codes "ODB_USERNAME", codes "a b") ∷ (codes "ODB_PASSWORD", awkward) ∷ []

two_fields-hold : (k v : Text) → find k two_fields ≡ some v → IsName k × IsValue v
unfolding find
two_fields-hold k v f = elim (Bool-cases (text_eq (codes "ODB_USERNAME") k)) [
  | inl e ↦
      let k_is : codes "ODB_USERNAME" ≡ k = (text_eq_iff (codes "ODB_USERNAME") k).0 e in
      let v_is : codes "a b" ≡ v = ground (arith, e, f) in
      (subst IsName k_is (refl, refl), subst IsValue v_is (refl, refl))
  | inr e ↦ elim (Bool-cases (text_eq (codes "ODB_PASSWORD") k)) [
    | inl e' ↦
        let k_is : codes "ODB_PASSWORD" ≡ k = (text_eq_iff (codes "ODB_PASSWORD") k).0 e' in
        let v_is : awkward ≡ v = ground (arith, e, e', f) in
        (subst IsName k_is (refl, refl), subst IsValue v_is (refl, refl))
    | inr e' ↦ absurd (ground (arith, e, e', f))
  ]
]

parse-render_example :
    find (codes "ODB_PASSWORD") (parse_env (render_env two_fields))
    ≡ find (codes "ODB_PASSWORD") two_fields
parse-render_example = parse-render two_fields two_fields-hold (codes "ODB_PASSWORD")

abbrev raise : Bytes → Text
raise [] = []
raise (b ∷ s) = (100 + b) ∷ raise s

abbrev lower : Text → Bytes
lower [] = []
lower (b ∷ s) = (b - 100) ∷ lower s

-- A cipher that leaves the text as it is, and a code that moves every byte away from the blanks.
abbrev plain_crypt : Crypt
plain_crypt = record {
  derive = λ p s. (p, s);
  encrypt = λ k s. s;
  decrypt = λ k s. s;
  encode = raise;
  decode = λ t. some (lower t);
}

lower-raise : (s : Bytes) → lower (raise s) ≡ s
lower-raise [] = refl
lower-raise (b ∷ s) = ground (arith, lower-raise s)

raise-solid : (s : Bytes) → any is_blank (raise s) ≡ false
raise-solid [] = refl
raise-solid (b ∷ s) = ground (arith, raise-solid s)

plain_crypt-Faithful : Faithful plain_crypt
plain_crypt-Faithful = record {
  decode_encode = λ raw. ap some (lower-raise raw);
  no_blank = raise-solid;
  decrypt_encrypt = λ k s h. refl;
  same_length = λ k s. refl;
}

open-seal_example :
    open_sealed plain_crypt
      (seal plain_crypt (1 ∷ 2 ∷ 3 ∷ 4 ∷ 5 ∷ 6 ∷ 7 ∷ 8 ∷ []) (codes "A=b") (codes "key"))
      (codes "key")
    ≡ some (codes "A=b")
open-seal_example =
    open-seal plain_crypt plain_crypt-Faithful (1 ∷ 2 ∷ 3 ∷ 4 ∷ 5 ∷ 6 ∷ 7 ∷ 8 ∷ []) (codes "A=b")
      (codes "key") refl

abbrev read_mark : Text → Option ℕ
read_mark [] = none
read_mark (c ∷ []) = none
read_mark (c ∷ n ∷ s) = some n

-- Numbers and times, these in whole seconds, as a mark and one character.
abbrev marks : Formats
marks = record {
  show_number = λ n. 35 ∷ n ∷ [];
  read_number = read_mark;
  show_time = λ t. 35 ∷ whole_seconds t ∷ [];
  read_time = read_mark;
}

marks-Readable : Readable marks
marks-Readable = record {
  number = λ n. refl;
  time = λ t. refl;
  number_shown = λ n. refl;
  time_shown = λ t. refl;
}

-- An account with a token that does not expire, and no mode.
abbrev account : StoredCredentials
account = record {
  username = codes "a";
  password = awkward;
  auth_mode = [];
  session_id = [];
  user_id = codes "7";
  acc_type = 2;
  updated_at = 0;
  token = some (record { access_token = codes "t"; refresh_token = codes "r"; expiry = 0 });
}

from-apply_example :
    credentials_from_fields marks (apply_credentials marks 1500000000 account two_fields)
    ≡ settled 1500000000 account
from-apply_example = from-apply marks marks-Readable 1500000000 account two_fields
