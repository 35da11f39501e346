-- ===== src/Channels.antt =====
-- prod/shared/db/repositories/channel_repo.py and console_repo.py: rows of `platform_channels` and
-- `platform_oauth_credentials`, and the operations on channels that the workers and the API call.
pub mod Credentials
pub mod Repo
use content_fabric.Base.{ℕ, Bool, ◌&&◌, Option, none, some, List, ltb, is_some, keep}
use content_fabric.Text.{Text}
use content_fabric.Table.{fetch_one, update_where, delete_where, count_where, has_key}

pub record Channel : Type 0 where
  pub id : ℕ
  pub uuid : Text
  pub project_id : ℕ
  pub name : Text
  pub platform_channel_id : Text
  pub console_id : Option ℕ
  pub enabled : Bool
  pub access_token : Option Text
  pub refresh_token : Option Text
  pub token_expires_at : Option ℕ
  pub created_by : Option ℕ
  pub token_checked_at : Option ℕ
  pub token_check_ok : Option Bool
  pub created_at : ℕ

pub record Console : Type 0 where
  pub id : ℕ
  pub client_id : Text
  pub client_secret : Text

abbrev pub channel_id : Channel → ℕ
channel_id c = c.id

abbrev pub get_channel_by_id : ℕ → List Channel → Option Channel
get_channel_by_id k channels = fetch_one (has_key channel_id k) channels

abbrev pub get_console_by_id : ℕ → List Console → Option Console
get_console_by_id k consoles = fetch_one (has_key (λ c. c.id) k) consoles

-- enabled, with both tokens and a console
abbrev pub has_tokens : Channel → Bool
has_tokens c =
    c.enabled && is_some c.access_token && is_some c.refresh_token && is_some c.console_id

unfoldable pub get_channels_with_tokens : List Channel → List Channel
get_channels_with_tokens = keep has_tokens

abbrev pub set_option {ℓ} : {A : Type ℓ} → Option A → Option A → Option A
set_option none old = old
set_option (some new) old = some new

abbrev pub update_channel_by_id : ℕ → (Channel → Channel) → List Channel → Bool × List Channel
update_channel_by_id k f channels = (
  ltb 0 (count_where (has_key channel_id k) channels),
  update_where (has_key channel_id k) f channels,
)

-- A refresh token or an expiry that is None is left as it was.
unfoldable pub update_channel_tokens :
    ℕ → Text → Option Text → Option ℕ → List Channel → Bool × List Channel
update_channel_tokens k access refresh expires = update_channel_by_id k (λ c. record c {
  access_token = some access;
  refresh_token = set_option refresh c.refresh_token;
  token_expires_at = set_option expires c.token_expires_at;
})

unfoldable pub update_token_check : ℕ → ℕ → Bool → List Channel → Bool × List Channel
update_token_check now k passed =
    update_channel_by_id k
      (λ c. record c { token_checked_at = some now; token_check_ok = some passed })

unfoldable pub delete_channel : ℕ → List Channel → Bool × List Channel
delete_channel k channels = (
  ltb 0 (count_where (has_key channel_id k) channels),
  delete_where (has_key channel_id k) channels,
)
