-- ===== src/Tests/Portal.antt =====
-- Two users and their settings.
use content_fabric.Base.{ℕ, ◌≡◌, ◌≢◌, refl, true, false, some, List, [], ◌∷◌, arith}
use content_fabric.Text.{Text, text, text_eq}
use content_fabric.Text.Decimal.{strip, lstrip}
use content_fabric.Users.{User, UserDb, get_user_by_id, get_user_by_email}
use content_fabric.Auth.{Crypto}
use content_fabric.Portal.{
  Form, email_form, username_form, delete_form, submit, submit_as, knows_password, page_error,
  is_email, cut_first, cut_last,
}
use content_fabric.Portal.Laws.{asked_password, submit_as-own}
use content_fabric.Portal.Unique.{AreUnique, submit_all, submit_all-AreUnique}
use content_fabric.Tests.Data.{owner, stranger}

-- A password is its own hash.
abbrev plain_crypto : Crypto
plain_crypto = record {
  verify_password = text_eq;
  hash_password = λ s. s;
  verify_code = text_eq;
  access_token = λ k. [];
}

abbrev anna : User
anna = record owner { username = text "anna"; email = text "anna@x.org" }

abbrev boris : User
boris = record stranger { username = text "boris"; email = text "boris@x.org" }

abbrev two_users : UserDb
two_users = record { users = anna ∷ boris ∷ []; next_id = 7 }

address_of_boris : is_email boris.email ≡ true
unfolding is_email cut_first cut_last
address_of_boris = refl

no_top_level : is_email (text "anna@x.o") ≡ false
unfolding is_email cut_first cut_last
no_top_level = refl

-- The address of another user is refused.
taken_address :
    (submit_as plain_crypto
      (λ s. s)
      anna.id
      (email_form (text " boris@x.org") (text "h"))
      two_users).0
    ≡ page_error (text "Email already taken")
unfolding submit_as submit is_email cut_first cut_last get_user_by_email text_eq strip lstrip
taken_address = refl

abbrev wrong_form : Form
wrong_form = delete_form (text "guess") (text "DELETE")

submit_as-own_example :
    ((j : ℕ)
      → j ≢ anna.id
      → get_user_by_id (submit_as plain_crypto (λ s. s) anna.id wrong_form two_users).1 j
        ≡ get_user_by_id two_users j)
    × ((user : User) (secret : Text)
        → get_user_by_id two_users anna.id ≡ some user
        → asked_password wrong_form ≡ some secret
        → knows_password plain_crypto (λ s. s) user secret ≡ false
        → (submit_as plain_crypto (λ s. s) anna.id wrong_form two_users).1 ≡ two_users)
submit_as-own_example = submit_as-own plain_crypto (λ s. s) anna.id wrong_form two_users

abbrev some_forms : List (ℕ × Form)
some_forms =
    (anna.id, email_form (text "boris@x.org") (text "h"))
    ∷ (boris.id, username_form (text "bob_1") (text "h"))
    ∷ (anna.id, wrong_form)
    ∷ []

two_users-AreUnique : AreUnique two_users
unfolding text_eq
two_users-AreUnique =
    ((((λ e. omega (arith, e)), tt), (tt, tt)), ((refl, tt), (tt, tt)), ((refl, tt), (tt, tt)))

submit_all-AreUnique_example : AreUnique (submit_all plain_crypto (λ s. s) some_forms two_users)
submit_all-AreUnique_example =
    submit_all-AreUnique plain_crypto (λ s. s) some_forms two_users two_users-AreUnique
