-- ===== src/Tests/Accounts.antt =====
-- Runs on the users, their tokens and the templates.
use content_fabric.Base.{ℕ, arith, ◌≡◌, refl, true, false, none, some, [], ◌∷◌}
use content_fabric.Text.{Text, text, text_eq, text_eq_refl, text_mem}
use content_fabric.Text.Decimal.{decimal, emit, parse_int, parse_digits, scan, strip, lstrip}
use content_fabric.Users.{
  User, UserDb, get_user_by_email, get_user_by_username, get_user_by_reset_token,
  consume_backup_code, status_inactive,
}
use content_fabric.Users.Codes.{consume_backup_code-once}
use content_fabric.Users.Access.{ok, http_error}
use content_fabric.Auth.{Crypto}
use content_fabric.Auth.Tokens.{parse_token_ts, is_token_ts_expired, rsplit, stamped_token}
use content_fabric.Auth.Login.{LoginRequest, RegisterRequest, Fresh, login, register}
use content_fabric.Auth.Login.Laws.{EndsSignedIn, login-IsAuthenticated, register-login, chosen}
use content_fabric.Auth.Recovery.{reset_password}
use content_fabric.Auth.Recovery.Laws.{reset_password-once}
use content_fabric.Templates.{
  Template, Slot, TemplateDb, TemplateUpdate, SlotCreate, remove_slot_handler,
}
use content_fabric.Templates.Laws.{handlers-IsHidden}
use content_fabric.Tests.Tasks.{not_stranger}
use content_fabric.Tests.Data.{owner, stranger}

abbrev hex : Text
hex = text "0123456789abcdef"

-- A password is its own hash.
abbrev a_crypto : Crypto
a_crypto = record {
  verify_password = text_eq;
  hash_password = λ p. p;
  verify_code = λ s c. false;
  access_token = λ k. decimal k;
}

abbrev with_codes : User
with_codes = record owner { totp_backup_codes = text "c1" ∷ text "c2" ∷ [] }

abbrev forgetful : User
forgetful = record owner { password_reset_token = some (stamped_token hex 1700) }

abbrev unverified : User
unverified = record owner {
  verification_token = some (stamped_token hex 1700);
  status = status_inactive;
}

abbrev users_with : User → UserDb
users_with u = record { users = stranger ∷ u ∷ []; next_id = 7 }

abbrev a_login : LoginRequest
a_login = record { email = text "e"; password = text "h"; totp_code = none }

login-IsAuthenticated_example :
    EndsSignedIn a_crypto a_login
      (users_with owner)
      (record { access_token = decimal 6; requires_2fa = false })
unfolding login get_user_by_email text_eq
login-IsAuthenticated_example =
    login-IsAuthenticated a_crypto 9 a_login (users_with owner)
      (record { access_token = decimal 6; requires_2fa = false }) refl

abbrev a_registration : RegisterRequest
a_registration = record {
  new_username = text "m";
  new_email = text "f";
  new_password = text "p";
  new_display_name = none;
}

abbrev fresh : Fresh
fresh = record { uuid = text "w"; auth_key = text "k"; verification = text "t" }

-- The user who has just registered is turned away.
register-login_example :
    (let db' = (register a_crypto true fresh a_registration (users_with owner)).1 in
      login a_crypto 9 (chosen a_registration none) db' ≡ (http_error 403, db'))
unfolding get_user_by_email get_user_by_username text_eq
register-login_example =
    register-login a_crypto 9 fresh a_registration none (users_with owner) text_eq_refl
      (omega arith, (omega arith, tt)) refl refl

reset_password-once_example :
    (reset_password a_crypto 1800 (stamped_token hex 1700) (text "q") (users_with forgetful)).0
    ≡ ok true
unfolding get_user_by_reset_token text_eq parse_token_ts rsplit decimal emit parse_int parse_digits
    scan strip lstrip is_token_ts_expired
reset_password-once_example =
    (reset_password-once a_crypto 1800 (stamped_token hex 1700) (text "q") (users_with forgetful)
      forgetful refl ((λ e. cc), ((λ e. refl), tt)) refl).0

consume_backup_code-once_example :
    (consume_backup_code 5 (text "c2") (users_with with_codes)).0 ≡ true
unfolding text_mem text_eq
consume_backup_code-once_example =
    (consume_backup_code-once 5 (text "c2") (users_with with_codes) with_codes refl
      (refl, (refl, tt)) refl).0

abbrev template_of : ℕ → ℕ → Template
template_of id owner = record {
  id = id;
  project_id = 1;
  created_by = some owner;
  name = text "T";
  description = none;
  timezone = text "UTC";
  is_active = true;
}

abbrev a_slot : Slot
a_slot = record {
  slot_id = 4;
  template_id = 2;
  day_of_week = 0;
  time_utc = 60;
  channel_id = none;
  media_type = text "video";
}

abbrev a_template_db : TemplateDb
a_template_db = record {
  templates = template_of 1 6 ∷ template_of 2 5 ∷ [];
  slots = a_slot ∷ [];
  next_slot_id = 5;
}

abbrev no_change : TemplateUpdate
no_change = record {
  new_name = none;
  new_description = none;
  new_timezone = none;
  new_is_active = none;
}

abbrev new_slot : SlotCreate
new_slot = record { day = 1; time = 5; channel = none; media = text "video" }

handlers-IsHidden_example :
    remove_slot_handler stranger 2 4 a_template_db ≡ (http_error 404, a_template_db)
handlers-IsHidden_example =
    (handlers-IsHidden stranger 2 4 no_change new_slot a_template_db not_stranger).4
