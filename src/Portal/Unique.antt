-- ===== src/Portal/Unique.antt =====
-- No two users share an id, an email address or a user name, whatever forms are submitted.
use content_fabric.Base.{
  ℕ, ltb, ◌||◌, Bool, true, false, not, Option, none, some, List, [], ◌∷◌, ◌≡◌, ◌≢◌, refl, length,
  All, if◌then◌else◌, arith,
}
use content_fabric.Text.{Text, text, text_eq, is_empty}
use content_fabric.Text.Decimal.{strip}
use content_fabric.Table.{
  fetch_one, has_key, Distinct, Distinct-update_where, Distinct-delete_where,
}
use content_fabric.Users.{
  User, UserDb, user_key, get_user_by_id, get_user_by_email, get_user_by_username, update_user,
  update_profile, change_password, set_totp_secret, enable_totp, disable_totp, update_email,
  update_username, delete_user,
}
use content_fabric.Auth.{Crypto}
use content_fabric.Portal.{
  Page, Form, profile_form, setup_form, verify_form, disable_form, password_form, email_form,
  username_form, delete_form, knows_password, is_taken, verify_secret_of, submit, submit_found,
  submit_as, is_username, is_email,
}
use content_fabric.Table.Texts.{
  NoneShare, NoneShare-update_where, NoneShare-delete_where, NoneShare-set, free_of_none,
  free_of_own,
}

abbrev pub email_of : User → Text
email_of u = u.email

abbrev pub username_of : User → Text
username_of u = u.username

abbrev pub AreUnique : UserDb → Type 0
AreUnique db =
    Distinct user_key db.users × NoneShare email_of db.users × NoneShare username_of db.users

-- the forms of several users, one after the other
unfoldable pub submit_all : Crypto → (Text → Text) → List (ℕ × Form) → UserDb → UserDb
submit_all crypto lower [] db = db
submit_all crypto lower ((k, form) ∷ forms) db =
    submit_all crypto lower forms (submit_as crypto lower k form db).1

module _ (crypto : Crypto) (lower : Text → Text) where
  AreUnique-update_user :
      (k : ℕ) (g : User → User) (db : UserDb)
      → ((r : User) → user_key (g r) ≡ user_key r)
      → ((r : User) → email_of (g r) ≡ email_of r)
      → ((r : User) → username_of (g r) ≡ username_of r)
      → AreUnique db
      → AreUnique (update_user k g db)
  AreUnique-update_user k g db id email name (d, e, n) = (
    Distinct-update_where user_key (has_key user_key k) g id db.users d,
    NoneShare-update_where email_of (has_key user_key k) g email db.users e,
    NoneShare-update_where username_of (has_key user_key k) g name db.users n,
  )

  free_of_test :
      (f : User → Text) (user : User) (new : Text) (rows : List User) (found : Option User)
      → NoneShare f rows
      → fetch_one (λ r. text_eq (f r) new) rows ≡ found
      → is_taken crypto lower user found ≡ false
      → All (λ r. user_key r ≢ user.id → text_eq (f r) new ≡ false) rows
  free_of_test f user new rows none h e free = free_of_none f user_key user.id new rows e
  free_of_test f user new rows (some own) h e free =
      free_of_own f user_key user.id new rows own h e (ground arith)

  AreUnique-update_email :
      (user : User) (new : Text) (db : UserDb)
      → is_taken crypto lower user (get_user_by_email db new) ≡ false
      → AreUnique db
      → AreUnique (update_email user.id new db)
  unfolding update_email get_user_by_email
  AreUnique-update_email user new db free (d, e, n) = (
    Distinct-update_where user_key (has_key user_key user.id) _ (λ r. refl) db.users d,
    NoneShare-set email_of user_key user.id new _ (λ r. refl) db.users d e
        (free_of_test email_of user new db.users _ e refl free),
    NoneShare-update_where username_of (has_key user_key user.id) _ (λ r. refl) db.users n,
  )

  AreUnique-update_username :
      (user : User) (new : Text) (db : UserDb)
      → is_taken crypto lower user (get_user_by_username db new) ≡ false
      → AreUnique db
      → AreUnique (update_username user.id new db)
  unfolding update_username get_user_by_username
  AreUnique-update_username user new db free (d, e, n) = (
    Distinct-update_where user_key (has_key user_key user.id) _ (λ r. refl) db.users d,
    NoneShare-update_where email_of (has_key user_key user.id) _ (λ r. refl) db.users e,
    NoneShare-set username_of user_key user.id new _ (λ r. refl) db.users d n
        (free_of_test username_of user new db.users _ n refl free),
  )

  AreUnique-guard :
      (db : UserDb) (test : Bool) (page : Page) (result : Page × UserDb)
      → AreUnique db
      → (test ≡ false → AreUnique result.1)
      → AreUnique (if test then (page, db) else result).1
  AreUnique-guard db true page result u h = u
  AreUnique-guard db false page result u h = h refl

  AreUnique-verify :
      (user : User) (code : Text) (codes : List Text) (db : UserDb) (secret : Option Text)
      → AreUnique db
      → AreUnique (verify_secret_of crypto lower user code codes db secret).1
  unfolding enable_totp
  AreUnique-verify user code codes db none u = u
  AreUnique-verify user code codes db (some secret) u =
      AreUnique-guard db (is_empty secret) _ _ u (λ _.
        AreUnique-guard db (not (crypto.verify_code secret code)) _ _ u
          (λ _. AreUnique-update_user user.id _ db (λ r. refl) (λ r. refl) (λ r. refl) u))

  submit-AreUnique :
      (user : User) (form : Form) (db : UserDb)
      → AreUnique db
      → AreUnique (submit crypto lower user form db).1
  unfolding submit update_profile set_totp_secret disable_totp change_password delete_user
  submit-AreUnique user (profile_form name timezone) db u =
      AreUnique-guard db (is_empty (strip name)) _ _ u (λ _.
        AreUnique-guard db (ltb 255 (length (strip name))) _ _ u
          (λ _. AreUnique-update_user user.id _ db (λ r. refl) (λ r. refl) (λ r. refl) u))
  submit-AreUnique user (setup_form secret) db u =
      AreUnique-guard db user.totp_enabled _ _ u
        (λ _. AreUnique-update_user user.id _ db (λ r. refl) (λ r. refl) (λ r. refl) u)
  submit-AreUnique user (verify_form code codes) db u =
      AreUnique-verify user code codes db user.totp_secret u
  submit-AreUnique user (disable_form password) db u =
      AreUnique-guard db (not user.totp_enabled) _ _ u (λ _.
        AreUnique-guard db (not (knows_password crypto lower user password)) _ _ u
          (λ _. AreUnique-update_user user.id _ db (λ r. refl) (λ r. refl) (λ r. refl) u))
  submit-AreUnique user (password_form current new confirm) db u =
      AreUnique-guard db (not (knows_password crypto lower user current)) _ _ u (λ _.
        AreUnique-guard db (ltb (length new) 8) _ _ u (λ _.
          AreUnique-guard db (not (text_eq new confirm)) _ _ u
            (λ _. AreUnique-update_user user.id _ db (λ r. refl) (λ r. refl) (λ r. refl) u)))
  submit-AreUnique user (email_form new password) db u =
      let address = lower (strip new) in
      AreUnique-guard db (not (knows_password crypto lower user password)) _ _ u (λ _.
        AreUnique-guard db (is_empty address || not (is_email address) || ltb 254 (length address))
          _ _ u
          (λ _.
            AreUnique-guard db (is_taken crypto lower user (get_user_by_email db address)) _ _ u
              (λ free. AreUnique-update_email user address db free u)))
  submit-AreUnique user (username_form new password) db u =
      AreUnique-guard db (not (knows_password crypto lower user password)) _ _ u (λ _.
        AreUnique-guard db (not (is_username (strip new))) _ _ u (λ _.
          AreUnique-guard db (is_taken crypto lower user (get_user_by_username db (strip new))) _ _
            u (λ free. AreUnique-update_username user (strip new) db free u)))
  submit-AreUnique user (delete_form password confirm) db (d, e, n) =
      let p = has_key user_key user.id in
      AreUnique-guard db (not (text_eq (strip confirm) (text "DELETE"))) _ _ (d, e, n)
        (λ _.
          AreUnique-guard db (not (knows_password crypto lower user password)) _ _ (d, e, n)
            (λ _. (
              Distinct-delete_where user_key p db.users d,
              NoneShare-delete_where email_of p db.users e,
              NoneShare-delete_where username_of p db.users n,
            )))

  found-AreUnique :
      (form : Form) (db : UserDb) (user : Option User)
      → AreUnique db
      → AreUnique (submit_found crypto lower form db user).1
  found-AreUnique form db none u = u
  found-AreUnique form db (some user) u = submit-AreUnique user form db u

  -- When no two users share an id, an address or a name, no sequence of forms, of whichever users and
  -- refused ones included, makes two of them share one.
  pub submit_all-AreUnique :
      (forms : List (ℕ × Form)) (db : UserDb)
      → AreUnique db
      → AreUnique (submit_all crypto lower forms db)
  unfolding submit_all submit_as
  submit_all-AreUnique [] db u = u
  submit_all-AreUnique ((k, form) ∷ forms) db u =
      submit_all-AreUnique forms (submit_as crypto lower k form db).1
        (found-AreUnique form db (get_user_by_id db k) u)
