-- ===== src/Keystore/Saving.antt =====
-- Setting the credentials and reading them back (internal/keystore/env.go).
use opendrive_bridge.Common.{
  ℕ, ◌*◌, ◌/◌, ◌≡◌, refl, sym, ap, ◌∙◌, false, Option, none, some, [], ◌∷◌, arith, ◌==◌,
  if◌then◌else◌, inl, inr, Bool-cases,
}
use opendrive_bridge.Common.Text.{Text, text_eq, is_empty}
use opendrive_bridge.Common.Dict.{Dict, delete, find-insert, find-delete}
use opendrive_bridge.Keystore.Env.{value_of}
use opendrive_bridge.Keystore.Credentials.{
  Token, StoredCredentials, Formats, env_username, env_password, env_auth_mode, env_access_token,
  env_refresh_token, env_token_expiry, env_session_id, env_user_id, env_acc_type, env_updated_at,
  set_field, set_shown, apply_token, apply_credentials, read_shown, oauth2_mode,
  credentials_from_fields,
}

-- A time in nanoseconds without its fraction of a second.
abbrev pub whole_seconds : ℕ → ℕ
whole_seconds t = t / 1000000000 * 1000000000

-- What the Go library promises of its formats: reading undoes printing, but for the fraction of a
-- second, and nothing prints as nothing.
pub record Readable (w : Formats) : Type 0 where
  pub number : (n : ℕ) → w.read_number (w.show_number n) ≡ some n
  pub time : (t : ℕ) → w.read_time (w.show_time t) ≡ some (whole_seconds t)
  pub number_shown : (n : ℕ) → is_empty (w.show_number n) ≡ false
  pub time_shown : (t : ℕ) → is_empty (w.show_time t) ≡ false

value_of-set :
    (k q v : Text) (f : Dict Text)
    → value_of q (set_field k v f) ≡ (if text_eq k q then v else value_of q f)
unfolding set_field
value_of-set k q [] f = ground (arith, find-delete k q f)
value_of-set k q (c ∷ v) f = ground (arith, find-insert k q (c ∷ v) f)

value_of-delete :
    (k q : Text) (f : Dict Text)
    → value_of q (delete k f) ≡ (if text_eq k q then [] else value_of q f)
value_of-delete k q f = ground (arith, find-delete k q f)

-- What is written for a number or a time.
abbrev shown : (ℕ → Text) → ℕ → Text
shown show n = if n == 0 then [] else show n

value_of-shown :
    (show : ℕ → Text) (k q : Text) (n : ℕ) (f : Dict Text)
    → value_of q (set_shown show k n f) ≡ (if text_eq k q then shown show n else value_of q f)
unfolding set_shown
value_of-shown show k q n f = elim (Bool-cases (n == 0)) [
  | inl b ↦ rw b (value_of-delete k q f)
  | inr b ↦ rw b (value_of-set k q (show n) f)
]

-- The three fields of a token.
abbrev access_of : Option Token → Text
access_of none = []
access_of (some t) = t.access_token

abbrev refresh_of : Option Token → Text
refresh_of none = []
refresh_of (some t) = t.refresh_token

abbrev expiry_of : (ℕ → Text) → Option Token → Text
expiry_of show none = []
expiry_of show (some t) = shown show t.expiry

value_of-token :
    (w : Formats) (t : Option Token) (q : Text) (f : Dict Text)
    → value_of q (apply_token w t f) ≡ (
        if text_eq env_token_expiry q
        then expiry_of w.show_time t
        else if text_eq env_refresh_token q
        then refresh_of t
        else if text_eq env_access_token q
        then access_of t
        else value_of q f)
unfolding apply_token
value_of-token w none q f =
    let f1 = delete env_access_token f in
    let f2 = delete env_refresh_token f1 in
    value_of-delete env_token_expiry q f2
    ∙ ap (λ x. if text_eq env_token_expiry q then [] else x)
        (value_of-delete env_refresh_token q f1
          ∙ ap (λ x. if text_eq env_refresh_token q then [] else x)
              (value_of-delete env_access_token q f))
value_of-token w (some t) q f =
    let f1 = set_field env_access_token t.access_token f in
    let f2 = set_field env_refresh_token t.refresh_token f1 in
    value_of-shown w.show_time env_token_expiry q t.expiry f2
    ∙ ap (λ x. if text_eq env_token_expiry q then shown w.show_time t.expiry else x)
        (value_of-set env_refresh_token q t.refresh_token f1
          ∙ ap (λ x. if text_eq env_refresh_token q then t.refresh_token else x)
              (value_of-set env_access_token q t.access_token f))

-- The time that is written.
abbrev saved_at : ℕ → ℕ → ℕ
saved_at now t = if t == 0 then now else t

-- The value of every field but those of the token, before these are set.
abbrev field_value : Formats → ℕ → StoredCredentials → Text → Text → Text
field_value w now c q old =
    if text_eq env_updated_at q
    then w.show_time (saved_at now c.updated_at)
    else if text_eq env_acc_type q
    then shown w.show_number c.acc_type
    else if text_eq env_auth_mode q
    then c.auth_mode
    else if text_eq env_user_id q
    then c.user_id
    else if text_eq env_session_id q
    then c.session_id
    else if text_eq env_password q
    then c.password
    else if text_eq env_username q
    then c.username
    else old

value_of-apply :
    (w : Formats) (now : ℕ) (c : StoredCredentials) (q : Text) (f0 : Dict Text)
    → value_of q (apply_credentials w now c f0) ≡ (
        if text_eq env_token_expiry q
        then expiry_of w.show_time c.token
        else if text_eq env_refresh_token q
        then refresh_of c.token
        else if text_eq env_access_token q
        then access_of c.token
        else field_value w now c q (value_of q f0))
unfolding apply_credentials
value_of-apply w now c q f0 =
    let f1 = set_field env_username c.username f0 in
    let f2 = set_field env_password c.password f1 in
    let f3 = set_field env_session_id c.session_id f2 in
    let f4 = set_field env_user_id c.user_id f3 in
    let f5 = set_field env_auth_mode c.auth_mode f4 in
    let f6 = set_shown w.show_number env_acc_type c.acc_type f5 in
    let f7 = set_field env_updated_at (w.show_time (saved_at now c.updated_at)) f6 in
    let or_else : Text → Text → Text → Text = λ k v x. if text_eq k q then v else x in
    let s1 = value_of-set env_username q c.username f0 in
    let s2 = value_of-set env_password q c.password f1 ∙ ap (or_else env_password c.password) s1 in
    let s3 =
      value_of-set env_session_id q c.session_id f2 ∙ ap (or_else env_session_id c.session_id) s2 in
    let s4 = value_of-set env_user_id q c.user_id f3 ∙ ap (or_else env_user_id c.user_id) s3 in
    let s5 =
      value_of-set env_auth_mode q c.auth_mode f4 ∙ ap (or_else env_auth_mode c.auth_mode) s4 in
    let s6 =
      value_of-shown w.show_number env_acc_type q c.acc_type f5
      ∙ ap (or_else env_acc_type (shown w.show_number c.acc_type)) s5 in
    let s7 =
      value_of-set env_updated_at q (w.show_time (saved_at now c.updated_at)) f6
      ∙ ap (or_else env_updated_at (w.show_time (saved_at now c.updated_at))) s6 in
    value_of-token w c.token q f7
    ∙ ap
        (λ x. or_else env_token_expiry (expiry_of w.show_time c.token) (
          or_else env_refresh_token (refresh_of c.token)
            (or_else env_access_token (access_of c.token) x)))
        s7

read-shown :
    (show : ℕ → Text) (read : Text → Option ℕ) (f : ℕ → ℕ) (n : ℕ)
    → f 0 ≡ 0
    → read (show n) ≡ some (f n)
    → is_empty (show n) ≡ false
    → read_shown read (shown show n) ≡ f n
unfolding read_shown
read-shown show read f n z r e = elim (Bool-cases (n == 0)) [
  | inl b ↦ let none_left : n ≡ 0 = ground (arith, b) in rw b (sym (ap f none_left ∙ z))
  | inr b ↦ rw b (rw e (rw r refl))
]

-- The credentials as they come back: with a mode and a time, times cut to whole seconds, and without a
-- token that gives no access.
abbrev pub settled_token : Option Token → Option Token
settled_token none = none
settled_token (some t) =
    if is_empty t.access_token then none else some (record t { expiry = whole_seconds t.expiry })

abbrev pub settled : ℕ → StoredCredentials → StoredCredentials
settled now c = record c {
  auth_mode = if is_empty c.auth_mode then oauth2_mode else c.auth_mode;
  updated_at = whole_seconds (saved_at now c.updated_at);
  token = settled_token c.token;
}

-- The token that is read from the three fields of a token.
abbrev read_token : Formats → Text → Text → Text → Option Token
read_token w access refresh expiry =
    if is_empty access
    then none
    else some (record {
      access_token = access;
      refresh_token = refresh;
      expiry = read_shown w.read_time expiry;
    })

read_token-written :
    (w : Formats)
    → Readable w
    → (t : Option Token)
    → read_token w (access_of t) (refresh_of t) (expiry_of w.show_time t) ≡ settled_token t
read_token-written w h none = refl
read_token-written w h (some t) =
    ap (λ (x : ℕ). if is_empty t.access_token then none else some (record t { expiry = x }))
      (read-shown w.show_time w.read_time whole_seconds t.expiry refl (h.time t.expiry)
        (h.time_shown t.expiry))

read-time :
    (w : Formats) → Readable w → (t : ℕ) → read_shown w.read_time (w.show_time t) ≡ whole_seconds t
unfolding read_shown
read-time w h t = rw (h.time_shown t) (rw (h.time t) refl)

same_credentials :
    {c d : StoredCredentials}
    → c.username ≡ d.username
    → c.password ≡ d.password
    → c.auth_mode ≡ d.auth_mode
    → c.session_id ≡ d.session_id
    → c.user_id ≡ d.user_id
    → c.acc_type ≡ d.acc_type
    → c.updated_at ≡ d.updated_at
    → c.token ≡ d.token
    → c ≡ d
same_credentials a b m s u n t k i = record {
  username = a i;
  password = b i;
  auth_mode = m i;
  session_id = s i;
  user_id = u i;
  acc_type = n i;
  updated_at = t i;
  token = k i;
}

-- Reading the credentials from the fields in which they were set gives them back, whatever the fields
-- held before: with the mode `oauth2` where there was none, with the time of the call where there was
-- none, with every time cut to whole seconds, and without a token whose access token is empty. Reading
-- a number is taken to undo printing it, and reading a time to give its whole seconds.
pub from-apply :
    (w : Formats)
    → Readable w
    → (now : ℕ) (c : StoredCredentials) (f : Dict Text)
    → credentials_from_fields w (apply_credentials w now c f) ≡ settled now c
unfolding credentials_from_fields text_eq
from-apply w h now c f =
    let m = apply_credentials w now c f in
    let v : (q : Text) → value_of q m ≡ _ = λ q. value_of-apply w now c q f in
    let t : read_token w (value_of env_access_token m) (value_of env_refresh_token m)
          (value_of env_token_expiry m)
        ≡ settled_token c.token =
      ap (λ x. read_token w x (value_of env_refresh_token m) (value_of env_token_expiry m))
        (v env_access_token)
      ∙ (ap (λ x. read_token w (access_of c.token) x (value_of env_token_expiry m))
            (v env_refresh_token)
          ∙ (ap (λ x. read_token w (access_of c.token) (refresh_of c.token) x) (v env_token_expiry)
              ∙ read_token-written w h c.token)) in
    let a : read_shown w.read_number (value_of env_acc_type m) ≡ c.acc_type =
      ap (read_shown w.read_number) (v env_acc_type)
      ∙ read-shown w.show_number w.read_number (λ n. n) c.acc_type refl (h.number c.acc_type)
          (h.number_shown c.acc_type) in
    let u : read_shown w.read_time (value_of env_updated_at m)
        ≡ whole_seconds (saved_at now c.updated_at) =
      ap (read_shown w.read_time) (v env_updated_at) ∙ read-time w h (saved_at now c.updated_at) in
    let mode : (if is_empty (value_of env_auth_mode m)
          then oauth2_mode
          else value_of env_auth_mode m)
        ≡ (if is_empty c.auth_mode then oauth2_mode else c.auth_mode) =
      ap (λ x. if is_empty x then oauth2_mode else x) (v env_auth_mode) in
    same_credentials (v env_username) (v env_password) mode (v env_session_id) (v env_user_id) a u t
