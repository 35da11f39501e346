-- ===== src/Auth/Recovery/Laws.antt =====
-- Each token works once, and only in time.
use content_fabric.Base.{
  ℕ, ◌≡◌, ◌≢◌, refl, sym, ap, ◌∙◌, Bool, true, false, Option, none, some, List, [], ◌∷◌, ◌==◌,
  some-eq, true-false, Bool-cases, inl, inr, All, ==_iff,
}
use mathlib.Core.Path.{subst}
use mathlib.Core.Option
use content_fabric.Text.{Text, is_empty}
use content_fabric.Table.{
  fetch_one, update_where, has_key, All-update_where, fetch_one-update_self, fetch_one-update_other,
}
use content_fabric.Users.{
  User, UserDb, user_key, holds_token, get_user_by_id, get_user_by_reset_token,
  get_user_by_verification_token, change_password, set_password_reset_token, mark_email_verified,
  status_inactive, status_active,
}
use content_fabric.Users.Access.{ok, http_error}
use content_fabric.Auth.{Crypto}
use content_fabric.Auth.Tokens.{password_reset_ttl_sec, verification_token_ttl_sec}
use content_fabric.Auth.Recovery.{is_refused, reset_password, do_verify_email}

-- A test that only rows of one key meet, and that an update of this key undoes, finds nothing after.
fetch_one-undone :
    (k : ℕ) (p : User → Bool) (f : User → User) (rows : List User)
    → All (λ r. p r ≡ true → r.id ≡ k) rows
    → ((r : User) → p (f r) ≡ false)
    → fetch_one p (update_where (has_key user_key k) f rows) ≡ none
fetch_one-undone k p f [] h undoes = refl
fetch_one-undone k p f (r ∷ rows) h undoes = elim (Bool-cases (has_key user_key k r)) [
  | inl hit ↦ rw (hit, undoes r) (fetch_one-undone k p f rows h.1 undoes)
  | inr miss ↦ elim (Bool-cases (p r)) [
    | inl holds ↦ absurd (true-false (sym ((==_iff r.id k).1 (h.0 holds)) ∙ miss))
    | inr free ↦ rw (miss, free) (fetch_one-undone k p f rows h.1 undoes)
  ]
]

-- The row that a test finds meets it.
fetch_one_meets :
    (p : User → Bool) (rows : List User) (u : User) → fetch_one p rows ≡ some u → p u ≡ true
fetch_one_meets p [] u e = cc
fetch_one_meets p (r ∷ rows) u e = elim (Bool-cases (p r)) [
  | inl hit ↦ subst (λ x. p x ≡ true) (some-eq (rw hit at e)) hit
  | inr miss ↦ fetch_one_meets p rows u (rw miss at e)
]

reset_token-none :
    (db : UserDb) (token : Text)
    → fetch_one (λ u. holds_token token u.password_reset_token) db.users ≡ none
    → get_user_by_reset_token db token ≡ none
unfolding get_user_by_reset_token
reset_token-none db token e = elim (Bool-cases (is_empty token)) [
  | inl blank ↦ rw blank refl
  | inr given ↦ rw given e
]

verification_token-none :
    (db : UserDb) (token : Text)
    → fetch_one (λ u. holds_token token u.verification_token) db.users ≡ none
    → get_user_by_verification_token db token ≡ none
unfolding get_user_by_verification_token
verification_token-none db token e = elim (Bool-cases (is_empty token)) [
  | inl blank ↦ rw blank refl
  | inr given ↦ rw given e
]

reset_password-unknown :
    (crypto : Crypto) (now : ℕ) (token password : Text) (db : UserDb)
    → get_user_by_reset_token db token ≡ none
    → reset_password crypto now token password db ≡ (http_error 400, db)
unfolding reset_password
reset_password-unknown crypto now token password db e =
    elim (Bool-cases (is_refused token password_reset_ttl_sec now)) [
      | inl refused ↦ rw refused refl
      | inr accepted ↦ rw (accepted, e) refl
    ]

do_verify_email-unknown :
    (now : ℕ) (token : Text) (db : UserDb)
    → get_user_by_verification_token db token ≡ none
    → do_verify_email now token db ≡ (http_error 400, db)
unfolding do_verify_email
do_verify_email-unknown now token db e =
    elim (Bool-cases (is_refused token verification_token_ttl_sec now)) [
      | inl refused ↦ rw refused refl
      | inr accepted ↦ rw (accepted, e) refl
    ]

abbrev rehash : Text → User → User
rehash hash r = record r { password_hash = some hash }

abbrev drop_token : User → User
drop_token r = record r { password_reset_token = none }

abbrev pub with_password : Text → User → User
with_password hash r = drop_token (rehash hash r)

map_twice :
    (f g : User → User) (o : Option User)
    → Option.map g (Option.map f o) ≡ Option.map (λ r. g (f r)) o
map_twice f g none = refl
map_twice f g (some r) = refl

-- If one user alone holds a reset token, then resetting the password with it before it is too old
-- answers ok and gives this user, and no other, the hash of the new password; and from then on the
-- token is answered with 400.
pub reset_password-once :
    (crypto : Crypto) (now : ℕ) (token password : Text) (db : UserDb) (u : User)
    → get_user_by_reset_token db token ≡ some u
    → All (λ r. holds_token token r.password_reset_token ≡ true → r.id ≡ u.id) db.users
    → is_refused token password_reset_ttl_sec now ≡ false
    → let (reply, db') = reset_password crypto now token password db in
      (reply ≡ ok true)
      × (get_user_by_id db' u.id
          ≡ Option.map (with_password (crypto.hash_password password)) (get_user_by_id db u.id))
      × ((j : ℕ) → j ≢ u.id → get_user_by_id db' j ≡ get_user_by_id db j)
      × ((later : ℕ) (again : Text)
          → reset_password crypto later token again db' ≡ (http_error 400, db'))
unfolding reset_password change_password set_password_reset_token
reset_password-once crypto now token password db u found alone accepted =
    let hash : Text = crypto.hash_password password in
    let mid : List User = update_where (has_key user_key u.id) (rehash hash) db.users in
    rw (accepted, found)
      (
        refl,
        fetch_one-update_self user_key u.id drop_token (λ r. refl) mid
            ∙ ap (Option.map drop_token)
                (fetch_one-update_self user_key u.id (rehash hash) (λ r. refl) db.users)
            ∙ map_twice (rehash hash) drop_token (get_user_by_id db u.id),
        λ j ne.
            fetch_one-update_other user_key j u.id drop_token ne (λ r. refl) mid
            ∙ fetch_one-update_other user_key j u.id (rehash hash) ne (λ r. refl) db.users,
        λ later again. reset_password-unknown crypto later token again _ (
            reset_token-none _ token (
              fetch_one-undone u.id (λ r. holds_token token r.password_reset_token) drop_token mid
                (All-update_where
                  (λ r. holds_token token r.password_reset_token ≡ true → r.id ≡ u.id)
                  (has_key user_key u.id) (rehash hash) (λ r h. h) db.users alone)
                (λ r. refl))),
      )

abbrev verified : User → User
verified r = record r { verification_token = none; status = status_active }

-- If one user alone holds a verification token that is not too old, then verifying with it answers
-- ok for a user whose address is unverified, who becomes active while no other user changes, and
-- the token is answered with 400 from then on; for any other user it is 400 and nothing changes.
pub do_verify_email_lem :
    (now : ℕ) (token : Text) (db : UserDb) (u : User)
    → get_user_by_verification_token db token ≡ some u
    → All (λ r. holds_token token r.verification_token ≡ true → r.id ≡ u.id) db.users
    → is_refused token verification_token_ttl_sec now ≡ false
    → let (reply, db') = do_verify_email now token db in
      ((u.status == status_inactive) ≡ true
        → (reply ≡ ok true)
          × (get_user_by_id db' u.id ≡ Option.map verified (get_user_by_id db u.id))
          × ((j : ℕ) → j ≢ u.id → get_user_by_id db' j ≡ get_user_by_id db j)
          × ((later : ℕ) → do_verify_email later token db' ≡ (http_error 400, db')))
      × ((u.status == status_inactive) ≡ false → (reply ≡ http_error 400) × (db' ≡ db))
unfolding do_verify_email mark_email_verified
do_verify_email_lem now token db u found alone accepted = (
  λ waiting.
      rw (accepted, found, waiting)
        (
          refl,
          fetch_one-update_self user_key u.id verified (λ r. refl) db.users,
          λ j ne. fetch_one-update_other user_key j u.id verified ne (λ r. refl) db.users,
          λ later. do_verify_email-unknown later token _ (
              verification_token-none _ token (
                fetch_one-undone u.id (λ r. holds_token token r.verification_token) verified
                  db.users alone (λ r. refl))),
        ),
  λ settled. rw (accepted, found, settled) (refl, refl),
)
