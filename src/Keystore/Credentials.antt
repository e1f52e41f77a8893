-- ===== src/Keystore/Credentials.antt =====
-- The credentials as fields of the file (internal/keystore/env.go): `applyCredentials` and
-- `credentialsFromFields`. Times are Unix nanoseconds with 0 for the zero time, an account type is a
-- natural number.
use opendrive_bridge.Common.{ℕ, Option, none, some, ◌==◌, if◌then◌else◌}
use opendrive_bridge.Common.Text.{Text, codes, is_empty}
use opendrive_bridge.Common.Dict.{Dict, find, insert, delete}
use opendrive_bridge.Keystore.Env.{value_of}

-- `opendrive.Token`.
pub record Token : Type 0 where
  pub access_token : Text
  pub refresh_token : Text
  pub expiry : ℕ

-- `opendrive.StoredCredentials`.
pub record StoredCredentials : Type 0 where
  pub username : Text
  pub password : Text
  pub auth_mode : Text
  pub session_id : Text
  pub user_id : Text
  pub acc_type : ℕ
  pub updated_at : ℕ
  pub token : Option Token

-- What the Go library prints and reads: a number with `%d`, a time in RFC 3339, which has no place for
-- fractions of a second.
pub record Formats : Type 0 where
  pub show_number : ℕ → Text
  pub read_number : Text → Option ℕ
  pub show_time : ℕ → Text
  pub read_time : Text → Option ℕ

abbrev pub env_username : Text
env_username = codes "ODB_USERNAME"

abbrev pub env_password : Text
env_password = codes "ODB_PASSWORD"

abbrev pub env_auth_mode : Text
env_auth_mode = codes "ODB_AUTH_MODE"

abbrev pub env_access_token : Text
env_access_token = codes "ODB_ACCESS_TOKEN"

abbrev pub env_refresh_token : Text
env_refresh_token = codes "ODB_REFRESH_TOKEN"

abbrev pub env_token_expiry : Text
env_token_expiry = codes "ODB_TOKEN_EXPIRY"

abbrev pub env_session_id : Text
env_session_id = codes "ODB_SESSION_ID"

abbrev pub env_user_id : Text
env_user_id = codes "ODB_USER_ID"

abbrev pub env_acc_type : Text
env_acc_type = codes "ODB_ACC_TYPE"

abbrev pub env_updated_at : Text
env_updated_at = codes "ODB_UPDATED_AT"

-- `set`.
unfoldable pub set_field : Text → Text → Dict Text → Dict Text
unfolding insert delete
set_field k v f = if is_empty v then delete k f else insert k v f

-- A number or a time that is set where it is not 0, and removed where it is.
unfoldable pub set_shown : (ℕ → Text) → Text → ℕ → Dict Text → Dict Text
unfolding set_field
set_shown show k n f = if n == 0 then delete k f else set_field k (show n) f

-- The fields of the token.
unfoldable pub apply_token : Formats → Option Token → Dict Text → Dict Text
unfolding set_field set_shown
apply_token w none f =
    delete env_token_expiry (delete env_refresh_token (delete env_access_token f))
apply_token w (some t) f =
    set_shown w.show_time env_token_expiry t.expiry
      (set_field env_refresh_token t.refresh_token (set_field env_access_token t.access_token f))

-- `applyCredentials`, at a time.
unfoldable pub apply_credentials : Formats → ℕ → StoredCredentials → Dict Text → Dict Text
unfolding set_field set_shown apply_token
apply_credentials w now c f0 =
    let f1 = set_field env_username c.username f0 in
    let f2 = set_field env_password c.password f1 in
    let f3 = set_field env_session_id c.session_id f2 in
    let f4 = set_field env_user_id c.user_id f3 in
    let f5 = set_field env_auth_mode c.auth_mode f4 in
    let f6 = set_shown w.show_number env_acc_type c.acc_type f5 in
    let f7 =
      set_field env_updated_at (w.show_time (if c.updated_at == 0 then now else c.updated_at)) f6 in
    apply_token w c.token f7

-- A number or a time as it is read from a field, 0 where that fails.
unfoldable pub read_shown : (Text → Option ℕ) → Text → ℕ
read_shown read v = if is_empty v then 0 else elim (read v) [ none ↦ 0 | some n ↦ n ]

-- `AuthModeOAuth2`.
abbrev pub oauth2_mode : Text
oauth2_mode = codes "oauth2"

-- `credentialsFromFields`.
unfoldable pub credentials_from_fields : Formats → Dict Text → StoredCredentials
unfolding find read_shown
credentials_from_fields w f = record {
  username = value_of env_username f;
  password = value_of env_password f;
  auth_mode = let m = value_of env_auth_mode f in if is_empty m then oauth2_mode else m;
  session_id = value_of env_session_id f;
  user_id = value_of env_user_id f;
  acc_type = read_shown w.read_number (value_of env_acc_type f);
  updated_at = read_shown w.read_time (value_of env_updated_at f);
  token =
      let access = value_of env_access_token f in
      if is_empty access
      then none
      else some (record {
        access_token = access;
        refresh_token = value_of env_refresh_token f;
        expiry = read_shown w.read_time (value_of env_token_expiry f);
      });
}
