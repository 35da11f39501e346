-- ===== src/Channels/Credentials/Refines.antt =====
-- The table does what the store says.
use content_fabric.Base.{
  ℕ, ◌≡◌, refl, sym, ap, ◌∙◌, Option, none, some, List, [], ◌∷◌, ◌++◌, ◌==◌, ==_iff, ==_refl, arith,
  if◌then◌else◌, true-false, Bool-cases, Option-cases, inl, inr,
}
use content_fabric.Text.{Text}
use content_fabric.Table.{
  fetch_one, update_where, delete_where, has_key, fetch_one-delete_self, fetch_one-delete_other,
}
use content_fabric.Channels.Credentials.{
  Login, NewLogin, Credential, CredentialDb, of_channel, in_login, update_logins, insert_login,
  set_login, first_login, add_credentials, upsert_credentials, disable_credentials, mark_attempt,
  update_totp_secret, update_profile_path, update_login_credentials, delete_logins, with_changes,
}
use content_fabric.Channels.Credentials.Store.{
  Store, Request, add, upsert, disable, attempt, totp, profile, login, delete, change, assign, ask,
  ask_all, kept, perform, perform_all,
}
use mathlib.Core.Option
use mathlib.Core.Path.{fun_ext}

abbrev pub login_of : Credential → Login
login_of c = c.login

-- The store that a table stands for: `get_credentials` with the disabled ones, less the ids.
abbrev pub view : CredentialDb → Store
view db k = Option.map login_of (fetch_one (has_key of_channel k) db.rows)

fetch_one-in_login :
    (j k : ℕ) (f : Login → Login) (rows : List Credential)
    → Option.map login_of
        (fetch_one (has_key of_channel j) (update_where (has_key of_channel k) (in_login f) rows))
      ≡ (if j == k
          then Option.map f (Option.map login_of (fetch_one (has_key of_channel j) rows))
          else Option.map login_of (fetch_one (has_key of_channel j) rows))
fetch_one-in_login j k f [] = ground arith
fetch_one-in_login j k f (r ∷ rows) = ground (arith, fetch_one-in_login j k f rows)

view-update_logins :
    (k : ℕ) (f : Login → Login) (db : CredentialDb) (j : ℕ)
    → view (update_logins k f db) j ≡ change k f (view db) j
view-update_logins k f db j = fetch_one-in_login j k f db.rows

fetch_one-insert :
    (j : ℕ) (c : Credential) (rows : List Credential)
    → fetch_one (has_key of_channel c.channel_id) rows ≡ none
    → Option.map login_of (fetch_one (has_key of_channel j) (rows ++ c ∷ [])) ≡ (
        if j == c.channel_id
        then some c.login
        else Option.map login_of (fetch_one (has_key of_channel j) rows))
fetch_one-insert j c [] h = ground arith
fetch_one-insert j c (r ∷ rows) h = ground (arith, fetch_one-insert j c rows)

view-insert_login :
    (k : ℕ) (new : NewLogin) (db : CredentialDb)
    → fetch_one (has_key of_channel k) db.rows ≡ none
    → (j : ℕ) → view (insert_login k new db) j ≡ assign k (some (first_login new)) (view db) j
view-insert_login k new db h j =
    fetch_one-insert j (record { id = db.next_id; channel_id = k; login = first_login new }) db.rows
      h

view-delete_logins :
    (k : ℕ) (db : CredentialDb) (j : ℕ) → view (delete_logins k db) j ≡ assign k none (view db) j
view-delete_logins k db j = elim (Bool-cases (j == k)) [
  | inl same ↦
      let e : j ≡ k = (==_iff j k).0 same in
      rw same (
        ap (Option.map login_of) (
          ap (λ i. fetch_one (has_key of_channel i) (delete_where (has_key of_channel k) db.rows)) e
          ∙ fetch_one-delete_self of_channel k db.rows))
  | inr other ↦ rw other (
      ap (Option.map login_of) (
        fetch_one-delete_other of_channel j k db.rows
          (λ e. absurd (true-false (sym (==_refl k) ∙ ap (λ i. i == k) (sym e) ∙ other)))))
]

view-add_credentials :
    (k : ℕ) (new : NewLogin) (db : CredentialDb) (j : ℕ)
    → view (kept db (add_credentials k new db)) j ≡ ask (add k new) (view db) j
unfolding add_credentials
view-add_credentials k new db j = elim (Option-cases (fetch_one (has_key of_channel k) db.rows)) [
  | inl missing ↦ rw missing (view-insert_login k new db missing j)
  | inr (old, found) ↦ rw found (unchanged old found)
]
  where
    unchanged :
        (old : Credential)
        → fetch_one (has_key of_channel k) db.rows ≡ some old
        → view db j ≡ (if j == k then some old.login else view db j)
    unchanged old found = elim (Bool-cases (j == k)) [
      | inl same ↦ rw same (rw ((==_iff j k).0 same) (ap (Option.map login_of) found))
      | inr other ↦ rw other refl
    ]

view-upsert_credentials :
    (k : ℕ) (new : NewLogin) (db : CredentialDb) (j : ℕ)
    → view (upsert_credentials k new db).1 j ≡ ask (upsert k new) (view db) j
unfolding upsert_credentials
view-upsert_credentials k new db j =
    elim (Option-cases (fetch_one (has_key of_channel k) db.rows)) [
      | inl missing ↦ rw missing (view-insert_login k new db missing j)
      | inr (old, found) ↦ rw found (view-update_logins k (set_login new) db j ∙ changed old found)
    ]
  where
    changed :
        (old : Credential)
        → fetch_one (has_key of_channel k) db.rows ≡ some old
        → change k (set_login new) (view db) j
          ≡ (if j == k then some (set_login new old.login) else view db j)
    changed old found = elim (Bool-cases (j == k)) [
      | inl same ↦ rw same (
          rw ((==_iff j k).0 same)
            (ap (λ o. Option.map (set_login new) (Option.map login_of o)) found))
      | inr other ↦ rw other refl
    ]

view-update_login_credentials :
    (k : ℕ) (email password secret : Option Text) (db : CredentialDb) (j : ℕ)
    → view (update_login_credentials k email password secret db).1 j
      ≡ change k (with_changes email password secret) (view db) j
unfolding update_login_credentials
view-update_login_credentials k none none none db j = unchanged (view db j)
  where
    unchanged :
        (o : Option Login) → o ≡ (if j == k then Option.map (with_changes none none none) o else o)
    unchanged none = ground arith
    unchanged (some l) = ground arith
view-update_login_credentials k none none (some t) db j = view-update_logins k _ db j
view-update_login_credentials k none (some p) secret db j = view-update_logins k _ db j
view-update_login_credentials k (some e) password secret db j = view-update_logins k _ db j

view-perform : (r : Request) (db : CredentialDb) (j : ℕ) → view (perform r db) j ≡ ask r (view db) j
unfolding perform disable_credentials mark_attempt update_totp_secret update_profile_path
view-perform (add k new) db j = view-add_credentials k new db j
view-perform (upsert k new) db j = view-upsert_credentials k new db j
view-perform (disable k) db j = view-update_logins k _ db j
view-perform (attempt now k success error at) db j = view-update_logins k _ db j
view-perform (totp k secret codes) db j = view-update_logins k _ db j
view-perform (profile k path) db j = view-update_logins k _ db j
view-perform (login k email password secret) db j =
    view-update_login_credentials k email password secret db j
view-perform (delete k) db j = view-delete_logins k db j

-- Any sequence of requests leaves the table standing for the store that the same requests give, where
-- no table, row id or row order occurs.
pub perform_all-ask_all :
    (rs : List Request) (db : CredentialDb) → view (perform_all rs db) ≡ ask_all rs (view db)
unfolding perform_all
perform_all-ask_all [] db = refl
perform_all-ask_all (r ∷ rs) db =
    perform_all-ask_all rs (perform r db) ∙ ap (ask_all rs) (fun_ext (view-perform r db))
