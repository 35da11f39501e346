-- ===== src/Users.antt =====
-- prod/shared/db/repositories/user_repo.py: the rows of `platform_users` and the operations on
-- them. Texts are compared for equality, where the collation of the table, utf8mb4_unicode_ci,
-- takes more for equal.
pub mod Access
pub mod Codes
use content_fabric.Base.{
  ℕ, ◌+◌, Bool, true, false, ◌||◌, Option, none, some, List, [], ◌∷◌, ◌++◌, ltb, if◌then◌else◌,
  is_some, first_some,
}
use content_fabric.Text.{Text, is_empty, text_eq, text_mem}
use content_fabric.Table.{fetch_one, update_where, delete_where, count_where, has_key}

-- `UserStatus` of prod/shared/db/models.py, as stored
abbrev pub status_inactive : ℕ
status_inactive = 9

abbrev pub status_admin : ℕ
status_admin = 1

abbrev pub status_active : ℕ
status_active = 10

pub record User : Type 0 where
  pub id : ℕ
  pub uuid : Text
  pub username : Text
  pub email : Text
  pub password_hash : Option Text
  pub auth_key : Text
  pub display_name : Option Text
  pub status : ℕ
  pub timezone : Option Text
  pub totp_secret : Option Text
  pub totp_enabled : Bool
  pub totp_backup_codes : List Text
  pub last_login_at : Option ℕ
  pub password_reset_token : Option Text
  pub verification_token : Option Text

pub record UserDb : Type 0 where
  pub users : List User
  pub next_id : ℕ

abbrev pub user_key : User → ℕ
user_key u = u.id

abbrev pub get_user_by_id : UserDb → ℕ → Option User
get_user_by_id db k = fetch_one (has_key user_key k) db.users

unfoldable pub get_user_by_email : UserDb → Text → Option User
get_user_by_email db email = fetch_one (λ u. text_eq u.email email) db.users

unfoldable pub get_user_by_username : UserDb → Text → Option User
get_user_by_username db name = fetch_one (λ u. text_eq u.username name) db.users

-- `column = :token`; NULL is equal to nothing.
abbrev pub holds_token : Text → Option Text → Bool
holds_token token none = false
holds_token token (some t) = text_eq t token

-- An empty token finds nobody.
unfoldable pub get_user_by_reset_token : UserDb → Text → Option User
get_user_by_reset_token db token =
    if is_empty token
    then none
    else fetch_one (λ u. holds_token token u.password_reset_token) db.users

unfoldable pub get_user_by_verification_token : UserDb → Text → Option User
get_user_by_verification_token db token =
    if is_empty token
    then none
    else fetch_one (λ u. holds_token token u.verification_token) db.users

abbrev pub update_user : ℕ → (User → User) → UserDb → UserDb
update_user k f db = record db { users = update_where (has_key user_key k) f db.users }

abbrev pub user_count : ℕ → UserDb → ℕ
user_count k db = count_where (has_key user_key k) db.users

-- `display_name or username`
abbrev pub name_or : Option Text → Text → Text
name_or none name = name
name_or (some d) name = if is_empty d then name else d

abbrev pub new_user : ℕ → Text → Text → Text → Text → Text → Option Text → User
new_user id uuid username email hash auth_key display_name = record {
  id = id;
  uuid = uuid;
  username = username;
  email = email;
  password_hash = some hash;
  auth_key = auth_key;
  display_name = some (name_or display_name username);
  status = status_active;
  timezone = none;
  totp_secret = none;
  totp_enabled = false;
  totp_backup_codes = [];
  last_login_at = none;
  password_reset_token = none;
  verification_token = none;
}

unfoldable pub create_user : Text → Text → Text → Text → Text → Option Text → UserDb → ℕ × UserDb
create_user uuid username email hash auth_key display_name db = (
  db.next_id,
  record db {
    users = db.users ++ new_user db.next_id uuid username email hash auth_key display_name ∷ [];
    next_id = db.next_id + 1;
  },
)

unfoldable pub update_last_login : ℕ → ℕ → UserDb → UserDb
update_last_login now k = update_user k (λ u. record u { last_login_at = some now })

unfoldable pub update_profile : ℕ → Option Text → Option Text → UserDb → UserDb
update_profile k display_name timezone db =
    if is_some display_name || is_some timezone
    then update_user k
        (λ u. record u {
          display_name = first_some display_name u.display_name;
          timezone = first_some timezone u.timezone;
        })
        db
    else db

unfoldable pub change_password : ℕ → Text → UserDb → UserDb
change_password k hash = update_user k (λ u. record u { password_hash = some hash })

unfoldable pub set_totp_secret : ℕ → Text → UserDb → UserDb
set_totp_secret k secret = update_user k (λ u. record u { totp_secret = some secret })

unfoldable pub enable_totp : ℕ → List Text → UserDb → UserDb
enable_totp k codes =
    update_user k (λ u. record u { totp_enabled = true; totp_backup_codes = codes })

unfoldable pub disable_totp : ℕ → UserDb → UserDb
disable_totp k =
    update_user k
      (λ u. record u { totp_enabled = false; totp_secret = none; totp_backup_codes = [] })

-- `codes.remove(code)`: the first occurrence
unfoldable pub remove_code : Text → List Text → List Text
unfolding text_eq
remove_code code [] = []
remove_code code (c ∷ codes) = if text_eq c code then codes else c ∷ remove_code code codes

abbrev pub consume_found : Text → UserDb → Option User → Bool × UserDb
consume_found code db none = (false, db)
consume_found code db (some user) =
    if text_mem code user.totp_backup_codes
    then (
      true,
      update_user user.id
          (λ u. record u { totp_backup_codes = remove_code code user.totp_backup_codes }) db,
    )
    else (false, db)

unfoldable pub consume_backup_code : ℕ → Text → UserDb → Bool × UserDb
consume_backup_code k code db = consume_found code db (get_user_by_id db k)

unfoldable pub update_email : ℕ → Text → UserDb → UserDb
update_email k email = update_user k (λ u. record u { email = email })

unfoldable pub update_username : ℕ → Text → UserDb → UserDb
update_username k name = update_user k (λ u. record u { username = name })

unfoldable pub delete_user : ℕ → UserDb → UserDb
delete_user k db = record db { users = delete_where (has_key user_key k) db.users }

unfoldable pub set_password_reset_token : ℕ → Option Text → UserDb → UserDb
set_password_reset_token k token = update_user k (λ u. record u { password_reset_token = token })

unfoldable pub set_verification_token : ℕ → Option Text → UserDb → UserDb
set_verification_token k token = update_user k (λ u. record u { verification_token = token })

unfoldable pub set_status : ℕ → ℕ → UserDb → UserDb
set_status k status = update_user k (λ u. record u { status = status })

unfoldable pub mark_email_verified : ℕ → UserDb → Bool × UserDb
mark_email_verified k db = (
  ltb 0 (user_count k db),
  update_user k (λ u. record u { verification_token = none; status = status_active }) db,
)
