-- ===== src/Channels/Credentials.antt =====
-- prod/shared/db/repositories/credential_repo.py, and `update_login_credentials` of
-- channel_repo.py: the rows of `platform_channel_login_credentials`, whose key `uniq_pclc_channel`
-- allows one row for a channel. `now` is `datetime.now()`.
pub mod Store
pub mod Refines
use content_fabric.Base.{
  ℕ, ◌+◌, Bool, true, false, not, ◌&&◌, Option, none, some, List, [], ◌∷◌, ◌++◌, ltb, ◌==◌,
  if◌then◌else◌, is_some, or_else, first_some, keep,
}
use content_fabric.Text.{Text}
use content_fabric.Json.{Json, serialize_json}
use content_fabric.Table.{fetch_one, update_where, delete_where, count_where, has_key}
use content_fabric.Table.Order.{order_by, ascending}
use content_fabric.Tasks.Queries.{limit_rows}

-- the columns but for the ids
pub record Login : Type 0 where
  pub login_email : Text
  pub login_password : Text
  pub totp_secret : Option Text
  pub backup_codes : Option Json
  pub proxy_host : Option Text
  pub proxy_port : Option ℕ
  pub proxy_username : Option Text
  pub proxy_password : Option Text
  pub profile_path : Option Text
  pub user_agent : Option Text
  pub last_success_at : Option ℕ
  pub last_attempt_at : Option ℕ
  pub last_error : Option Text
  pub enabled : Bool

pub record Credential : Type 0 where
  pub id : ℕ
  pub channel_id : ℕ
  pub login : Login

pub record CredentialDb : Type 0 where
  pub rows : List Credential
  pub next_id : ℕ

abbrev pub of_channel : Credential → ℕ
of_channel c = c.channel_id

-- the arguments of `add_credentials` and `upsert_credentials`
pub record NewLogin : Type 0 where
  pub login_email : Text
  pub login_password : Text
  pub totp_secret : Option Text
  pub backup_codes : Option Json
  pub proxy_host : Option Text
  pub proxy_port : Option ℕ
  pub proxy_username : Option Text
  pub proxy_password : Option Text
  pub profile_path : Option Text
  pub user_agent : Option Text
  pub enabled : Bool

-- The values that a row gets; the attempts are as in `old`.
abbrev pub set_login : NewLogin → Login → Login
set_login new old = record old {
  login_email = new.login_email;
  login_password = new.login_password;
  totp_secret = new.totp_secret;
  backup_codes = serialize_json new.backup_codes;
  proxy_host = new.proxy_host;
  proxy_port = new.proxy_port;
  proxy_username = new.proxy_username;
  proxy_password = new.proxy_password;
  profile_path = new.profile_path;
  user_agent = new.user_agent;
  enabled = new.enabled;
}

abbrev pub first_login : NewLogin → Login
first_login new = record {
  login_email = new.login_email;
  login_password = new.login_password;
  totp_secret = new.totp_secret;
  backup_codes = serialize_json new.backup_codes;
  proxy_host = new.proxy_host;
  proxy_port = new.proxy_port;
  proxy_username = new.proxy_username;
  proxy_password = new.proxy_password;
  profile_path = new.profile_path;
  user_agent = new.user_agent;
  last_success_at = none;
  last_attempt_at = none;
  last_error = none;
  enabled = new.enabled;
}

abbrev pub in_login : (Login → Login) → Credential → Credential
in_login f c = record c { login = f c.login }

-- `WHERE channel_id = :cid AND enabled = 1`, or without the second test
abbrev pub is_wanted : ℕ → Bool → Credential → Bool
is_wanted k include_disabled c =
    if include_disabled then has_key of_channel k c else has_key of_channel k c && c.login.enabled

unfoldable pub get_credentials : ℕ → Bool → CredentialDb → Option Credential
get_credentials k include_disabled db = fetch_one (is_wanted k include_disabled) db.rows

abbrev pub in_channel : Option ℕ → Credential → Bool
in_channel none c = true
in_channel (some k) c = has_key of_channel k c

unfoldable pub list_credentials : Option ℕ → Option ℕ → CredentialDb → List Credential
list_credentials k limit db =
    limit_rows limit (order_by (ascending of_channel) (keep (in_channel k) db.rows))

abbrev pub insert_login : ℕ → NewLogin → CredentialDb → CredentialDb
insert_login k new db = record {
  rows = db.rows ++ record { id = db.next_id; channel_id = k; login = first_login new } ∷ [];
  next_id = db.next_id + 1;
}

-- `none` is the IntegrityError for a channel that has a row.
unfoldable pub add_credentials : ℕ → NewLogin → CredentialDb → Option (ℕ × CredentialDb)
add_credentials k new db =
    if is_some (fetch_one (has_key of_channel k) db.rows)
    then none
    else some (db.next_id, insert_login k new db)

abbrev pub update_logins : ℕ → (Login → Login) → CredentialDb → CredentialDb
update_logins k f db = record db { rows = update_where (has_key of_channel k) (in_login f) db.rows }

-- `ON DUPLICATE KEY UPDATE`
unfoldable pub upsert_credentials : ℕ → NewLogin → CredentialDb → Bool × CredentialDb
upsert_credentials k new db = (
  true,
  if is_some (fetch_one (has_key of_channel k) db.rows)
      then update_logins k (set_login new) db
      else insert_login k new db,
)

abbrev pub update_reported : ℕ → (Login → Login) → CredentialDb → Bool × CredentialDb
update_reported k f db = (ltb 0 (count_where (has_key of_channel k) db.rows), update_logins k f db)

abbrev pub switched_off : Login → Login
switched_off login = record login { enabled = false }

unfoldable pub disable_credentials : ℕ → CredentialDb → Bool × CredentialDb
disable_credentials k = update_reported k switched_off

-- the columns after an attempt at the time `at`
abbrev pub attempted : Bool → Option Text → ℕ → Login → Login
attempted success error at login = record login {
  last_attempt_at = some at;
  last_success_at = if success then some at else login.last_success_at;
  last_error = if success then none else error;
}

unfoldable pub mark_attempt :
    ℕ → ℕ → Bool → Option Text → Option ℕ → CredentialDb → Bool × CredentialDb
mark_attempt now k success error attempt_time =
    update_reported k (attempted success error (or_else attempt_time now))

abbrev pub with_totp : Option Text → Option Json → Login → Login
with_totp secret codes login = record login {
  totp_secret = secret;
  backup_codes = serialize_json codes;
}

unfoldable pub update_totp_secret :
    ℕ → Option Text → Option Json → CredentialDb → Bool × CredentialDb
update_totp_secret k secret codes = update_reported k (with_totp secret codes)

abbrev pub with_profile : Text → Login → Login
with_profile path login = record login { profile_path = some path }

unfoldable pub update_profile_path : ℕ → Text → CredentialDb → Bool × CredentialDb
update_profile_path k path = update_reported k (with_profile path)

-- An argument that is None leaves its column.
abbrev pub with_changes : Option Text → Option Text → Option Text → Login → Login
with_changes email password totp login = record login {
  login_email = or_else email login.login_email;
  login_password = or_else password login.login_password;
  totp_secret = first_some totp login.totp_secret;
}

unfoldable pub update_login_credentials :
    ℕ → Option Text → Option Text → Option Text → CredentialDb → Bool × CredentialDb
update_login_credentials k email password totp db =
    if not (is_some email) && not (is_some password) && not (is_some totp)
    then (false, db)
    else update_reported k (with_changes email password totp) db

-- The part of `delete_channel` that removes the credentials.
abbrev pub delete_logins : ℕ → CredentialDb → CredentialDb
delete_logins k db = record db { rows = delete_where (has_key of_channel k) db.rows }
