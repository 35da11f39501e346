-- ===== src/Auth/Recovery.antt =====
-- prod/app/api/endpoints/auth.py: the password reset and the verification of an email address. The
-- rate limits, the audit log and the emails that are sent are left out.
pub mod Laws
use content_fabric.Base.{
  ℕ, Bool, true, false, not, ◌||◌, Option, none, some, ◌==◌, if◌then◌else◌, is_some,
}
use content_fabric.Text.{Text, is_empty}
use content_fabric.Users.{
  User, UserDb, status_inactive, status_active, get_user_by_email, get_user_by_reset_token,
  get_user_by_verification_token, change_password, set_password_reset_token, set_verification_token,
  mark_email_verified,
}
use content_fabric.Users.Access.{Reply, ok, http_error}
use content_fabric.Auth.{Crypto}
use content_fabric.Auth.Tokens.{
  password_reset_ttl_sec, verification_token_ttl_sec, parse_token_ts, is_token_ts_expired,
  make_reset_token, make_verification_token,
}

abbrev pub forgot_found : Text → ℕ → UserDb → Option User → Reply Bool × UserDb
forgot_found hex now db none = (ok true, db)
forgot_found hex now db (some user) =
    if not (user.status == status_active)
    then (ok true, db)
    else (ok true, set_password_reset_token user.id (some (make_reset_token hex now)) db)

-- The reply is always the generic one.
unfoldable pub forgot_password : Text → ℕ → Text → UserDb → Reply Bool × UserDb
forgot_password hex now email db = forgot_found hex now db (get_user_by_email db email)

-- The tests that a token must pass before it is looked up.
abbrev pub is_refused : Text → ℕ → ℕ → Bool
is_refused token ttl now =
    is_empty token || not (is_some (parse_token_ts token)) || is_token_ts_expired token ttl now

abbrev pub reset_found : Crypto → Text → UserDb → Option User → Reply Bool × UserDb
reset_found crypto password db none = (http_error 400, db)
reset_found crypto password db (some user) = (
  ok true,
  set_password_reset_token user.id none
      (change_password user.id (crypto.hash_password password) db),
)

unfoldable pub reset_password : Crypto → ℕ → Text → Text → UserDb → Reply Bool × UserDb
reset_password crypto now token password db =
    if is_refused token password_reset_ttl_sec now
    then (http_error 400, db)
    else reset_found crypto password db (get_user_by_reset_token db token)

abbrev pub verify_found : UserDb → Option User → Reply Bool × UserDb
verify_found db none = (http_error 400, db)
verify_found db (some user) =
    if not (user.status == status_inactive)
    then (http_error 400, db)
    else (ok true, (mark_email_verified user.id db).1)

-- `_do_verify_email`, of both endpoints
unfoldable pub do_verify_email : ℕ → Text → UserDb → Reply Bool × UserDb
do_verify_email now token db =
    if is_refused token verification_token_ttl_sec now
    then (http_error 400, db)
    else verify_found db (get_user_by_verification_token db token)

abbrev pub resend_found : Text → ℕ → UserDb → Option User → Reply Bool × UserDb
resend_found hex now db none = (ok true, db)
resend_found hex now db (some user) =
    if not (user.status == status_inactive)
    then (ok true, db)
    else (ok true, set_verification_token user.id (some (make_verification_token hex now)) db)

unfoldable pub resend_verification : Text → ℕ → Text → UserDb → Reply Bool × UserDb
resend_verification hex now email db = resend_found hex now db (get_user_by_email db email)
