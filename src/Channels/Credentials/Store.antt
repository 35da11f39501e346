-- ===== src/Channels/Credentials/Store.antt =====
-- What the table of credentials stands for: at most one login for each channel.
use content_fabric.Base.{ℕ, Bool, Option, none, some, ◌==◌, or_else, if◌then◌else◌, List, [], ◌∷◌}
use content_fabric.Text.{Text}
use content_fabric.Json.{Json}
use content_fabric.Channels.Credentials.{
  Login, NewLogin, CredentialDb, set_login, first_login, switched_off, attempted, with_totp,
  with_profile, with_changes, add_credentials, upsert_credentials, disable_credentials,
  mark_attempt, update_totp_secret, update_profile_path, update_login_credentials, delete_logins,
}
use mathlib.Core.Option

abbrev pub Store : Type 0
Store = ℕ → Option Login

abbrev pub change : ℕ → (Login → Login) → Store → Store
change k f store j = if j == k then Option.map f (store j) else store j

-- a value under one channel
abbrev pub assign : ℕ → Option Login → Store → Store
assign k login store j = if j == k then login else store j

-- the calls of the repository
pub data Request : Type 0 where
  add : ℕ → NewLogin → Request
  upsert : ℕ → NewLogin → Request
  disable : ℕ → Request
  attempt : ℕ → ℕ → Bool → Option Text → Option ℕ → Request
  totp : ℕ → Option Text → Option Json → Request
  profile : ℕ → Text → Request
  login : ℕ → Option Text → Option Text → Option Text → Request
  delete : ℕ → Request

abbrev pub put_login : NewLogin → Option Login → Login
put_login new none = first_login new
put_login new (some old) = set_login new old

abbrev pub keep_old : NewLogin → Option Login → Option Login
keep_old new none = some (first_login new)
keep_old new (some old) = some old

-- What a request means, with no table in it.
abbrev pub ask : Request → Store → Store
ask (add k new) store = assign k (keep_old new (store k)) store
ask (upsert k new) store = assign k (some (put_login new (store k))) store
ask (disable k) store = change k switched_off store
ask (attempt now k success error at) store =
    change k (attempted success error (or_else at now)) store
ask (totp k secret codes) store = change k (with_totp secret codes) store
ask (profile k path) store = change k (with_profile path) store
ask (login k email password secret) store = change k (with_changes email password secret) store
ask (delete k) store = assign k none store

abbrev pub ask_all : List Request → Store → Store
ask_all [] store = store
ask_all (r ∷ rs) store = ask_all rs (ask r store)

-- A refused insertion rolls back.
abbrev pub kept : CredentialDb → Option (ℕ × CredentialDb) → CredentialDb
kept db none = db
kept db (some (id, db')) = db'

-- The same request on the table.
unfoldable pub perform : Request → CredentialDb → CredentialDb
perform (add k new) db = kept db (add_credentials k new db)
perform (upsert k new) db = (upsert_credentials k new db).1
perform (disable k) db = (disable_credentials k db).1
perform (attempt now k success error at) db = (mark_attempt now k success error at db).1
perform (totp k secret codes) db = (update_totp_secret k secret codes db).1
perform (profile k path) db = (update_profile_path k path db).1
perform (login k email password secret) db = (update_login_credentials k email password secret db).1
perform (delete k) db = delete_logins k db

unfoldable pub perform_all : List Request → CredentialDb → CredentialDb
perform_all [] db = db
perform_all (r ∷ rs) db = perform_all rs (perform r db)
