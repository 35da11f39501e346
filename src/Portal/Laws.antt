-- ===== src/Portal/Laws.antt =====
-- What a settings form can do: to the user's own row alone, and with the password where it asks for
-- one.
use content_fabric.Base.{
  ℕ, ltb, ◌||◌, Bool, true, false, not, Option, none, some, List, ◌≡◌, ◌≢◌, refl, ◌∙◌, inl, inr,
  ◌⊎◌, length, Option-cases, if◌then◌else◌, some-eq,
}
use content_fabric.Text.{Text, text, text_eq, is_empty}
use content_fabric.Text.Decimal.{strip}
use content_fabric.Table.{fetch_one-key, fetch_one-update_other, fetch_one-delete_other}
use content_fabric.Users.{
  User, UserDb, user_key, get_user_by_id, get_user_by_email, get_user_by_username, update_user,
  update_profile, change_password, set_totp_secret, enable_totp, disable_totp, update_email,
  update_username, delete_user,
}
use content_fabric.Auth.{Crypto}
use content_fabric.Portal.{
  Page, Form, profile_form, setup_form, verify_form, disable_form, password_form, email_form,
  username_form, delete_form, knows_password, is_taken, verify_secret_of, submit, submit_as,
  is_username, is_email,
}

-- the password that a form asks for
abbrev pub asked_password : Form → Option Text
asked_password (disable_form password) = some password
asked_password (password_form current new confirm) = some current
asked_password (email_form new password) = some password
asked_password (username_form new password) = some password
asked_password (delete_form password confirm) = some password
asked_password _ = none

module _ (crypto : Crypto) (lower : Text → Text) where
  -- The ways in which a form can end: nothing is written, the row of the user is changed and its id
  -- kept, or the row is deleted.
  abbrev pub Submitted : User → UserDb → UserDb → Type 0
  Submitted user db db' =
      (db' ≡ db)
      ⊎ (((f : User → User) × ((r : User) → user_key (f r) ≡ user_key r)
            × (db' ≡ update_user user.id f db))
          ⊎ (db' ≡ delete_user user.id db))

  Submitted-guard :
      (user : User) (db : UserDb) (test : Bool) (page : Page) (result : Page × UserDb)
      → Submitted user db result.1
      → Submitted user db (if test then (page, db) else result).1
  Submitted-guard user db true page result h = inl refl
  Submitted-guard user db false page result h = h

  Submitted-verify :
      (user : User) (code : Text) (codes : List Text) (db : UserDb) (secret : Option Text)
      → Submitted user db (verify_secret_of crypto lower user code codes db secret).1
  unfolding enable_totp
  Submitted-verify user code codes db none = inl refl
  Submitted-verify user code codes db (some secret) =
      Submitted-guard user db (is_empty secret) _ _ (
        Submitted-guard user db (not (crypto.verify_code secret code)) _ _
          (inr (inl (_, λ r. refl, refl))))

  submit-Submitted :
      (user : User) (form : Form) (db : UserDb)
      → Submitted user db (submit crypto lower user form db).1
  unfolding submit update_profile set_totp_secret disable_totp change_password update_email
      update_username
  submit-Submitted user (profile_form name timezone) db =
      Submitted-guard user db (is_empty (strip name)) _ _ (
        Submitted-guard user db (ltb 255 (length (strip name))) _ _
          (inr (inl (_, λ r. refl, refl))))
  submit-Submitted user (setup_form secret) db =
      Submitted-guard user db user.totp_enabled _ _ (inr (inl (_, λ r. refl, refl)))
  submit-Submitted user (verify_form code codes) db =
      Submitted-verify user code codes db user.totp_secret
  submit-Submitted user (disable_form password) db =
      Submitted-guard user db (not user.totp_enabled) _ _ (
        Submitted-guard user db (not (knows_password crypto lower user password)) _ _
          (inr (inl (_, λ r. refl, refl))))
  submit-Submitted user (password_form current new confirm) db =
      Submitted-guard user db (not (knows_password crypto lower user current)) _ _ (
        Submitted-guard user db (ltb (length new) 8) _ _ (
          Submitted-guard user db (not (text_eq new confirm)) _ _ (inr (inl (_, λ r. refl, refl)))))
  submit-Submitted user (email_form new password) db =
      let address = lower (strip new) in
      Submitted-guard user db (not (knows_password crypto lower user password)) _ _ (
        Submitted-guard user db
          (is_empty address || not (is_email address) || ltb 254 (length address)) _ _
          (Submitted-guard user db (is_taken crypto lower user (get_user_by_email db address)) _ _
            (inr (inl (_, λ r. refl, refl)))))
  submit-Submitted user (username_form new password) db =
      Submitted-guard user db (not (knows_password crypto lower user password)) _ _ (
        Submitted-guard user db (not (is_username (strip new))) _ _ (
          Submitted-guard user db (is_taken crypto lower user (get_user_by_username db (strip new)))
            _ _ (inr (inl (_, λ r. refl, refl)))))
  submit-Submitted user (delete_form password confirm) db =
      Submitted-guard user db (not (text_eq (strip confirm) (text "DELETE"))) _ _ (
        Submitted-guard user db (not (knows_password crypto lower user password)) _ _
          (inr (inr refl)))

  refused :
      (db : UserDb) (test : Bool) (page : Page) (result : Page × UserDb)
      → (test ≡ true) ⊎ (result.1 ≡ db)
      → (if test then (page, db) else result).1 ≡ db
  refused db true page result h = refl
  refused db false page result (inl e) = cc
  refused db false page result (inr e) = e

  unknown :
      (user : User) (password : Text) {secret : Text}
      → some password ≡ some secret
      → knows_password crypto lower user secret ≡ false
      → not (knows_password crypto lower user password) ≡ true
  unknown user password asked wrong = rw (some-eq asked, wrong) refl

  -- Without the password that the form asks for, nothing is written.
  submit-refused :
      (user : User) (form : Form) (db : UserDb) (secret : Text)
      → asked_password form ≡ some secret
      → knows_password crypto lower user secret ≡ false
      → (submit crypto lower user form db).1 ≡ db
  unfolding submit
  submit-refused user (profile_form name timezone) db secret asked wrong = cc
  submit-refused user (setup_form totp) db secret asked wrong = cc
  submit-refused user (verify_form code codes) db secret asked wrong = cc
  submit-refused user (disable_form password) db secret asked wrong =
      refused db (not user.totp_enabled) _ _ (
        inr (
          refused db (not (knows_password crypto lower user password)) _ _
            (inl (unknown user password asked wrong))))
  submit-refused user (password_form current new confirm) db secret asked wrong =
      refused db (not (knows_password crypto lower user current)) _ _
        (inl (unknown user current asked wrong))
  submit-refused user (email_form new password) db secret asked wrong =
      refused db (not (knows_password crypto lower user password)) _ _
        (inl (unknown user password asked wrong))
  submit-refused user (username_form new password) db secret asked wrong =
      refused db (not (knows_password crypto lower user password)) _ _
        (inl (unknown user password asked wrong))
  submit-refused user (delete_form password confirm) db secret asked wrong =
      refused db (not (text_eq (strip confirm) (text "DELETE"))) _ _ (
        inr (
          refused db (not (knows_password crypto lower user password)) _ _
            (inl (unknown user password asked wrong))))

  others-Submitted :
      (user : User) (db db' : UserDb) (j : ℕ)
      → j ≢ user.id
      → Submitted user db db'
      → get_user_by_id db' j ≡ get_user_by_id db j
  unfolding delete_user
  others-Submitted user db db' j ne (inl e) = rw e refl
  others-Submitted user db db' j ne (inr (inl (f, keep, e))) =
      rw e (fetch_one-update_other user_key j user.id f ne keep db.users)
  others-Submitted user db db' j ne (inr (inr e)) =
      rw e (fetch_one-delete_other user_key j user.id db.users ne)

  -- A settings form of a user leaves the row of every other user; and when it asks for the
  -- password, and what it has is not that of the user, it writes nothing at all.
  pub submit_as-own :
      (k : ℕ) (form : Form) (db : UserDb)
      → ((j : ℕ)
          → j ≢ k
          → get_user_by_id (submit_as crypto lower k form db).1 j ≡ get_user_by_id db j)
        × ((user : User) (secret : Text)
            → get_user_by_id db k ≡ some user
            → asked_password form ≡ some secret
            → knows_password crypto lower user secret ≡ false
            → (submit_as crypto lower k form db).1 ≡ db)
  unfolding submit_as
  submit_as-own k form db = (
    λ j ne. elim (Option-cases (get_user_by_id db k)) [
      | inl gone ↦ rw gone refl
      | inr (user, found) ↦
          let same : user.id ≡ k = fetch_one-key user_key k db.users user found in
          rw found (
            others-Submitted user db (submit crypto lower user form db).1 j (λ e. ne (e ∙ same))
              (submit-Submitted user form db))
    ],
    λ user secret found asked wrong. rw found (submit-refused user form db secret asked wrong),
  )
