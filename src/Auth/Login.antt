-- ===== src/Auth/Login.antt =====
-- prod/app/api/endpoints/auth.py: signing in, registering, and the two-factor handlers. The rate
-- limits, the audit log and the emails that are sent are left out.
pub mod Laws
use content_fabric.Base.{
  ℕ, Bool, true, false, not, Option, none, some, List, ◌==◌, if◌then◌else◌, is_some, [],
}
use content_fabric.Text.{Text, is_empty, is_blank, or_blank}
use content_fabric.Users.{
  User, UserDb, status_inactive, get_user_by_email, get_user_by_username, create_user,
  update_last_login, set_totp_secret, enable_totp, disable_totp, consume_backup_code,
  set_verification_token, set_status,
}
use content_fabric.Users.Access.{Reply, ok, http_error}
use content_fabric.Auth.{Crypto, TokenResponse}

pub record LoginRequest : Type 0 where
  pub email : Text
  pub password : Text
  pub totp_code : Option Text

abbrev pub code_or_backup : Crypto → ℕ → Text → UserDb → Option Text → Bool × UserDb
code_or_backup crypto k code db none = (false, db)
code_or_backup crypto k code db (some secret) =
    if is_empty secret
    then (false, db)
    else if crypto.verify_code secret code
    then (true, db)
    else consume_backup_code k code db

-- A code of the authenticator, or else a backup code, which is used up.
unfoldable pub verify_totp : Crypto → User → Text → UserDb → Bool × UserDb
verify_totp crypto user code db = code_or_backup crypto user.id code db user.totp_secret

abbrev pub signed_in : Crypto → ℕ → ℕ → UserDb → Reply TokenResponse × UserDb
signed_in crypto now k db = (
  ok (record { access_token = crypto.access_token k; requires_2fa = false }),
  update_last_login now k db,
)

abbrev pub after_totp : Crypto → ℕ → ℕ → Bool × UserDb → Reply TokenResponse × UserDb
after_totp crypto now k (false, db) = (http_error 401, db)
after_totp crypto now k (true, db) = signed_in crypto now k db

-- `verify_password(…, user["password_hash"])`
abbrev pub password_matches : Crypto → Text → Option Text → Bool
password_matches crypto password none = false
password_matches crypto password (some hash) = crypto.verify_password password hash

abbrev pub login_user :
    Crypto → ℕ → LoginRequest → UserDb → Option User → Reply TokenResponse × UserDb
login_user crypto now body db none = (http_error 401, db)
login_user crypto now body db (some user) =
    if not (password_matches crypto body.password user.password_hash)
    then (http_error 401, db)
    else if user.status == status_inactive
    then (http_error 403, db)
    else if not user.totp_enabled
    then signed_in crypto now user.id db
    else if is_blank body.totp_code
    then (ok (record { access_token = []; requires_2fa = true }), db)
    else after_totp crypto now user.id (verify_totp crypto user (or_blank body.totp_code) db)

unfoldable pub login : Crypto → ℕ → LoginRequest → UserDb → Reply TokenResponse × UserDb
login crypto now body db = login_user crypto now body db (get_user_by_email db body.email)

pub record RegisterRequest : Type 0 where
  pub new_username : Text
  pub new_email : Text
  pub new_password : Text
  pub new_display_name : Option Text

-- What `uuid4`, `token_hex` and `make_verification_token` return during one registration.
pub record Fresh : Type 0 where
  pub uuid : Text
  pub auth_key : Text
  pub verification : Text

abbrev pub registered : Crypto → Bool → Fresh → ℕ × UserDb → Reply TokenResponse × UserDb
registered crypto true fresh (k, db) = (
  ok (record { access_token = []; requires_2fa = false }),
  set_status k status_inactive (set_verification_token k (some fresh.verification) db),
)
registered crypto false fresh (k, db) =
    (ok (record { access_token = crypto.access_token k; requires_2fa = false }), db)

-- `require` is the setting EMAIL_VERIFICATION_REQUIRED.
unfoldable pub register :
    Crypto → Bool → Fresh → RegisterRequest → UserDb → Reply TokenResponse × UserDb
register crypto require fresh body db =
    if is_some (get_user_by_email db body.new_email)
    then (http_error 409, db)
    else if is_some (get_user_by_username db body.new_username)
    then (http_error 409, db)
    else registered crypto require fresh (
        create_user fresh.uuid body.new_username body.new_email
          (crypto.hash_password body.new_password) fresh.auth_key body.new_display_name db)

-- The secret that the client is shown; the backup codes of this reply are not stored.
unfoldable pub setup_2fa : Text → User → UserDb → Reply Text × UserDb
setup_2fa secret user db =
    if user.totp_enabled
    then (http_error 409, db)
    else (ok secret, set_totp_secret user.id secret db)

abbrev pub verify_secret :
    Crypto → List Text → Text → User → UserDb → Option Text → Reply (List Text) × UserDb
verify_secret crypto codes code user db none = (http_error 400, db)
verify_secret crypto codes code user db (some secret) =
    if is_empty secret
    then (http_error 400, db)
    else if user.totp_enabled
    then (http_error 409, db)
    else if not (crypto.verify_code secret code)
    then (http_error 401, db)
    else (ok codes, enable_totp user.id codes db)

unfoldable pub verify_2fa : Crypto → List Text → Text → User → UserDb → Reply (List Text) × UserDb
verify_2fa crypto codes code user db = verify_secret crypto codes code user db user.totp_secret

unfoldable pub disable_2fa : Crypto → Text → User → UserDb → Reply Bool × UserDb
disable_2fa crypto password user db =
    if not user.totp_enabled
    then (http_error 400, db)
    else if not (password_matches crypto password user.password_hash)
    then (http_error 401, db)
    else (ok true, disable_totp user.id db)
