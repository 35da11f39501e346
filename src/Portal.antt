-- ===== src/Portal.antt =====
-- prod/app/views/app_portal.py: the handlers of the settings page. A page is its message or its
-- error; the cookie's token is decoded to the id of the user, whose row every request reads first.
pub mod Laws
pub mod Unique
use content_fabric.Base.{
  ℕ, ◌==◌, leb, ltb, ◌&&◌, ◌||◌, Bool, true, false, not, Option, none, some, List, [], ◌∷◌, length,
  all_of, if◌then◌else◌,
}
use content_fabric.Text.{Text, text, text_eq, is_empty, is_blank, or_blank}
use content_fabric.Text.Decimal.{strip}
use content_fabric.Users.{
  User, UserDb, get_user_by_id, get_user_by_email, get_user_by_username, update_profile,
  change_password, set_totp_secret, enable_totp, disable_totp, update_email, update_username,
  delete_user,
}
use content_fabric.Auth.{Crypto}
use content_fabric.Auth.Login.{password_matches}

-- what a request answers
pub data Page : Type 0 where
  message : Text → Page
  page_error : Text → Page
  totp_page : (secret : Text) → Page
  backup_page : List Text → Page
  to_login : Page

-- the forms of the page
pub data Form : Type 0 where
  profile_form : (display_name timezone : Text) → Form
  setup_form : (secret : Text) → Form
  verify_form : (totp_code : Text) (backup_codes : List Text) → Form
  disable_form : (password : Text) → Form
  password_form : (current_password new_password confirm_password : Text) → Form
  email_form : (new_email password : Text) → Form
  username_form : (new_username password : Text) → Form
  delete_form : (password confirm_text : Text) → Form

abbrev pub is_letter : ℕ → Bool
is_letter c = (leb b'A' c && leb c b'Z') || (leb b'a' c && leb c b'z')

abbrev pub is_digit_char : ℕ → Bool
is_digit_char c = leb b'0' c && leb c b'9'

-- `[A-Za-z0-9._%+\-]` and `[A-Za-z0-9.\-]`
abbrev pub is_local_char : ℕ → Bool
is_local_char c =
    is_letter c
    || is_digit_char c
    || (c == b'.')
    || (c == b'_')
    || (c == b'%')
    || (c == b'+')
    || (c == b'-')

abbrev pub is_domain_char : ℕ → Bool
is_domain_char c = is_letter c || is_digit_char c || (c == b'.') || (c == b'-')

abbrev pub cons_left : ℕ → Option (Text × Text) → Option (Text × Text)
cons_left c none = none
cons_left c (some (a, b)) = some (c ∷ a, b)

-- before and after the first occurrence of a character
unfoldable pub cut_first : ℕ → Text → Option (Text × Text)
cut_first sep [] = none
cut_first sep (c ∷ s) = if c == sep then some ([], s) else cons_left c (cut_first sep s)

-- and of the last
unfoldable pub cut_last : ℕ → Text → Option (Text × Text)
cut_last sep [] = none
cut_last sep (c ∷ s) = elim (cut_last sep s) [
  | some (a, b) ↦ some (c ∷ a, b)
  | none ↦ if c == sep then some ([], s) else none
]

abbrev pub is_domain : Option (Text × Text) → Bool
is_domain none = false
is_domain (some (before, top)) =
    not (is_empty before)
    && all_of is_domain_char before
    && all_of is_letter top
    && leb 2 (length top)

abbrev pub is_address : Option (Text × Text) → Bool
is_address none = false
is_address (some (local, domain)) =
    not (is_empty local) && all_of is_local_char local && is_domain (cut_last b'.' domain)

-- `_EMAIL_RE`, for a text without white space at its end
unfoldable pub is_email : Text → Bool
is_email s = is_address (cut_first b'@' s)

-- `^[a-zA-Z0-9_]{3,30}$`
unfoldable pub is_username : Text → Bool
is_username s =
    all_of (λ c. is_letter c || is_digit_char c || (c == b'_')) s
    && leb 3 (length s)
    && leb (length s) 30

-- `timezone or None`
abbrev pub or_none : Text → Option Text
or_none s = if is_empty s then none else some s

module _ (crypto : Crypto) (lower : Text → Text) where
  abbrev pub knows_password : User → Text → Bool
  knows_password user password = password_matches crypto password user.password_hash

  -- `existing and existing["id"] != user["id"]`
  abbrev pub is_taken : User → Option User → Bool
  is_taken user none = false
  is_taken user (some existing) = not (existing.id == user.id)

  -- `totp` is made of the secret of the row that is read again.
  abbrev pub verify_secret_of : User → Text → List Text → UserDb → Option Text → Page × UserDb
  verify_secret_of user code codes db none = (page_error (text "Run setup first"), db)
  verify_secret_of user code codes db (some secret) =
      if is_empty secret
      then (page_error (text "Run setup first"), db)
      else if not (crypto.verify_code secret code)
      then (page_error (text "Invalid code, try again"), db)
      else (backup_page codes, enable_totp user.id codes db)

  abbrev pub settings_update_profile : User → Text → Text → UserDb → Page × UserDb
  settings_update_profile user display_name timezone db =
      let name = strip display_name in
      if is_empty name
      then (page_error (text "Display name cannot be empty"), db)
      else if ltb 255 (length name)
      then (page_error (text "Display name must be 255 characters or fewer"), db)
      else (
        message (text "Profile updated successfully"),
        update_profile user.id (some name) (or_none (strip timezone)) db,
      )

  abbrev pub settings_2fa_setup : User → Text → UserDb → Page × UserDb
  settings_2fa_setup user secret db =
      if user.totp_enabled
      then (page_error (text "2FA is already enabled"), db)
      else (totp_page secret, set_totp_secret user.id secret db)

  abbrev pub settings_2fa_verify : User → Text → List Text → UserDb → Page × UserDb
  settings_2fa_verify user code codes db = verify_secret_of user code codes db user.totp_secret

  abbrev pub settings_2fa_disable : User → Text → UserDb → Page × UserDb
  settings_2fa_disable user password db =
      if not user.totp_enabled
      then (page_error (text "2FA is not enabled"), db)
      else if not (knows_password user password)
      then (page_error (text "Wrong password"), db)
      else (message (text "2FA disabled"), disable_totp user.id db)

  abbrev pub settings_change_password : User → Text → Text → Text → UserDb → Page × UserDb
  settings_change_password user current new confirm db =
      if not (knows_password user current)
      then (page_error (text "Current password is incorrect"), db)
      else if ltb (length new) 8
      then (page_error (text "New password must be at least 8 characters"), db)
      else if not (text_eq new confirm)
      then (page_error (text "Passwords do not match"), db)
      else (
        message (text "Password changed successfully"),
        change_password user.id (crypto.hash_password new) db,
      )

  abbrev pub settings_change_email : User → Text → Text → UserDb → Page × UserDb
  settings_change_email user new_email password db =
      let address = lower (strip new_email) in
      if not (knows_password user password)
      then (page_error (text "Wrong password"), db)
      else if is_empty address || not (is_email address) || ltb 254 (length address)
      then (page_error (text "Invalid email"), db)
      else if is_taken user (get_user_by_email db address)
      then (page_error (text "Email already taken"), db)
      else (message (text "Email updated"), update_email user.id address db)

  abbrev pub settings_change_username : User → Text → Text → UserDb → Page × UserDb
  settings_change_username user new_username password db =
      let name = strip new_username in
      if not (knows_password user password)
      then (page_error (text "Wrong password"), db)
      else if not (is_username name)
      then (page_error (text "Username: 3-30 chars, letters/digits/underscore only"), db)
      else if is_taken user (get_user_by_username db name)
      then (page_error (text "Username already taken"), db)
      else (message (text "Username updated"), update_username user.id name db)

  abbrev pub settings_delete_account : User → Text → Text → UserDb → Page × UserDb
  settings_delete_account user password confirm_text db =
      if not (text_eq (strip confirm_text) (text "DELETE"))
      then (page_error (text "Type DELETE to confirm"), db)
      else if not (knows_password user password)
      then (page_error (text "Wrong password"), db)
      else (to_login, delete_user user.id db)

  -- the handler of each form
  unfoldable pub submit : User → Form → UserDb → Page × UserDb
  submit user (profile_form display_name timezone) db =
      settings_update_profile user display_name timezone db
  submit user (setup_form secret) db = settings_2fa_setup user secret db
  submit user (verify_form code codes) db = settings_2fa_verify user code codes db
  submit user (disable_form password) db = settings_2fa_disable user password db
  submit user (password_form current new confirm) db =
      settings_change_password user current new confirm db
  submit user (email_form new_email password) db = settings_change_email user new_email password db
  submit user (username_form new_username password) db =
      settings_change_username user new_username password db
  submit user (delete_form password confirm_text) db =
      settings_delete_account user password confirm_text db

  -- `require_user`: a user who is gone is sent to the login page.
  abbrev pub submit_found : Form → UserDb → Option User → Page × UserDb
  submit_found form db none = (to_login, db)
  submit_found form db (some user) = submit user form db

  unfoldable pub submit_as : ℕ → Form → UserDb → Page × UserDb
  submit_as k form db = submit_found form db (get_user_by_id db k)
