-- ===== src/Auth/Login/Laws.antt =====
-- Who is let in, and with what.
use content_fabric.Base.{
  ℕ, ◌≡◌, refl, Bool, true, false, Option, none, some, [], ◌∷◌, ◌==◌, ◌++◌, All, ◌<◌, sym, ◌⊎◌, ◌∙◌,
  ap, Bool-cases, inl, inr,
}
use content_fabric.Text.{Text, text_eq, text_eq_refl, is_blank, or_blank}
use content_fabric.Table.{fetch_one, fetch_one-last, has_key, update_where, update_where-snoc}
use content_fabric.Users.{
  User, user_key, new_user, UserDb, status_inactive, get_user_by_email, get_user_by_username,
  create_user, set_status, set_verification_token,
}
use content_fabric.Users.Access.{ok, http_error, http_error-ok, ok-eq}
use content_fabric.Auth.{Crypto, TokenResponse}
use content_fabric.Auth.Login.{
  Fresh, RegisterRequest, register, LoginRequest, login, login_user, verify_totp, password_matches,
  after_totp,
}

-- What a user has shown who is let in.
pub record IsAuthenticated (crypto : Crypto) (body : LoginRequest) (db : UserDb) (u : User)
    : Type 0 where
  pub known : get_user_by_email db body.email ≡ some u
  pub password : password_matches crypto body.password u.password_hash ≡ true
  pub active : (u.status == status_inactive) ≡ false
  pub second_factor :
      u.totp_enabled ≡ true → (verify_totp crypto u (or_blank body.totp_code) db).0 ≡ true

after_totp-passed :
    (crypto : Crypto) (now k : ℕ) (v : Bool × UserDb) (r : TokenResponse)
    → (after_totp crypto now k v).0 ≡ ok r
    → v.0 ≡ true
after_totp-passed crypto now k (false, db) r e = cc
after_totp-passed crypto now k (true, db) r e = refl

after_totp-token :
    (crypto : Crypto) (now k : ℕ) (v : Bool × UserDb) (r : TokenResponse)
    → (after_totp crypto now k v).0 ≡ ok r
    → r ≡ record { access_token = crypto.access_token k; requires_2fa = false }
after_totp-token crypto now k (false, db) r e = absurd (http_error-ok 401 r e)
after_totp-token crypto now k (true, db) r e = sym (ok-eq e)

-- Who gets what: the access token of a user who is let in, or, with two-factor codes on and none
-- given, no token but the word that one is required.
abbrev pub EndsSignedIn : Crypto → LoginRequest → UserDb → TokenResponse → Type 0
EndsSignedIn crypto body db r =
    ((u : User) × IsAuthenticated crypto body db u
      × (r ≡ record { access_token = crypto.access_token u.id; requires_2fa = false }))
    ⊎ ((u : User) × (get_user_by_email db body.email ≡ some u)
        × (u.totp_enabled ≡ true)
        × (password_matches crypto body.password u.password_hash ≡ true)
        × ((u.status == status_inactive) ≡ false)
        × (is_blank body.totp_code ≡ true)
        × (r ≡ record { access_token = []; requires_2fa = true }))

login_user-lem :
    (crypto : Crypto) (now : ℕ) (body : LoginRequest) (db : UserDb) (found : Option User)
    (r : TokenResponse)
    → get_user_by_email db body.email ≡ found
    → (login_user crypto now body db found).0 ≡ ok r
    → EndsSignedIn crypto body db r
unfolding verify_totp
login_user-lem crypto now body db none r known e = absurd (http_error-ok 401 r e)
login_user-lem crypto now body db (some u) r known e =
    elim (Bool-cases (password_matches crypto body.password u.password_hash)) [
      | inr wrong ↦ absurd (http_error-ok 401 r (rw wrong at e))
      | inl right ↦ elim (Bool-cases (u.status == status_inactive)) [
        | inl inactive ↦ absurd (http_error-ok 403 r (rw (right, inactive) at e))
        | inr active ↦ elim (Bool-cases u.totp_enabled) [
          | inr off ↦ inl (
            u,
            record { known = known; password = right; active = active; second_factor = λ on. cc },
            sym (ok-eq (rw (right, active, off) at e)),
          )
          | inl on ↦ elim (Bool-cases (is_blank body.totp_code)) [
            | inl blank ↦ inr (
              u,
              known,
              on,
              right,
              active,
              blank,
              sym (ok-eq (rw (right, active, on, blank) at e)),
            )
            | inr given ↦
                let passed : (verify_totp crypto u (or_blank body.totp_code) db).0 ≡ true =
                  after_totp-passed crypto now u.id
                    (verify_totp crypto u (or_blank body.totp_code) db) r
                    (rw (right, active, on, given) at e) in
                inl (
                  u,
                  record {
                    known = known;
                    password = right;
                    active = active;
                    second_factor = λ on'. passed;
                  },
                  after_totp-token crypto now u.id
                      (verify_totp crypto u (or_blank body.totp_code) db) r
                      (rw (right, active, on, given) at e),
                )
          ]
        ]
      ]
    ]

-- Whoever is answered without an error gets either the access token of the user of the row under
-- the email address, having given its password, with the address verified and, with two-factor
-- codes on, a code that was accepted; or, after the same password and with the codes on and none
-- given, no token and the word that a code is required.
pub login-IsAuthenticated :
    (crypto : Crypto) (now : ℕ) (body : LoginRequest) (db : UserDb) (r : TokenResponse)
    → (login crypto now body db).0 ≡ ok r
    → EndsSignedIn crypto body db r
unfolding login
login-IsAuthenticated crypto now body db r =
    login_user-lem crypto now body db (get_user_by_email db body.email) r refl

abbrev pub chosen : RegisterRequest → Option Text → LoginRequest
chosen body code = record { email = body.new_email; password = body.new_password; totp_code = code }

-- Where a password matches its own hash, the next id is above all ids and no user has the address
-- or the name, a registration that asks for the verification of the address creates a user who
-- cannot sign in yet: the login with the password just chosen, whatever the code, is answered with
-- 403 and changes nothing.
pub register-login :
    (crypto : Crypto) (now : ℕ) (fresh : Fresh) (body : RegisterRequest) (code : Option Text)
    (db : UserDb)
    → ((password : Text) → crypto.verify_password password (crypto.hash_password password) ≡ true)
    → All (λ u. u.id < db.next_id) db.users
    → get_user_by_email db body.new_email ≡ none
    → get_user_by_username db body.new_username ≡ none
    → let db' = (register crypto true fresh body db).1 in
      login crypto now (chosen body code) db' ≡ (http_error 403, db')
unfolding login register create_user set_status set_verification_token get_user_by_email
register-login crypto now fresh body code db verifies below free_email free_name =
    let hash : Text = crypto.hash_password body.new_password in
    let u : User =
      new_user db.next_id fresh.uuid body.new_username body.new_email hash fresh.auth_key
        body.new_display_name in
    let marked : User → User = λ r. record r { verification_token = some fresh.verification } in
    let waiting : User → User = λ r. record r { status = status_inactive } in
    let found : fetch_one (λ r. text_eq r.email body.new_email)
          (update_where (has_key user_key db.next_id) waiting
            (update_where (has_key user_key db.next_id) marked (db.users ++ u ∷ [])))
        ≡ some (waiting (marked u)) =
      rw
        (
          update_where-snoc user_key db.next_id marked db.users u refl below,
          update_where-snoc user_key db.next_id waiting db.users (marked u) refl below,
        )
        (fetch_one-last (λ r. text_eq r.email body.new_email) db.users _ free_email
          (text_eq_refl body.new_email)) in
    rw (free_email, free_name)
      (ap (login_user crypto now (chosen body code) _) found ∙ rw (verifies body.new_password) refl)
