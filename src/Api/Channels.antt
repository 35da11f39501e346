-- ===== src/Api/Channels.antt =====
-- prod/app/api/endpoints/channels.py, with prod/app/schemas/channel.py, prod/app/repositories/
-- channel_repository.py and prod/app/services/youtube_validator.py. The rate limit is left out.
pub mod Create
use content_fabric.Base.{
  ℕ, ◌+◌, Bool, true, false, not, ◌&&◌, ◌||◌, Option, none, some, List, [], ◌∷◌, ltb, leb, ◌==◌,
  if◌then◌else◌, length, is_some, keep,
}
use content_fabric.Text.{Text, text, is_empty, starts_with}
use content_fabric.Text.Decimal.{strip}
use content_fabric.Json.{Json}
use content_fabric.Table.{fetch_one, delete_where, count_where, has_key}
use content_fabric.Users.{User}
use content_fabric.Users.Access.{Reply, ok, http_error, is_admin, created_by_user}
use content_fabric.Channels.{Channel, Console, channel_id, get_console_by_id}
use content_fabric.Channels.Repo.{
  ChannelDb, list_channels, channel_exists_by_name, channel_exists_by_channel_id, add_channel,
}
use content_fabric.Channels.Credentials.{CredentialDb, NewLogin, add_credentials, delete_logins}

pub record ChannelCredentials : Type 0 where
  pub login_email : Text
  pub login_password : Text
  pub totp_secret : Option Text
  pub backup_codes : Option Json
  pub proxy_host : Option Text
  pub proxy_port : Option ℕ
  pub proxy_username : Option Text
  pub proxy_password : Option Text

pub record ChannelCreate : Type 0 where
  pub name : Text
  pub platform_channel_id : Text
  pub console_id : Option ℕ
  pub enabled : Bool
  pub project_id : Option ℕ
  pub credentials : Option ChannelCredentials

abbrev pub at_most : ℕ → Option Text → Bool
at_most n none = true
at_most n (some s) = leb (length s) n

abbrev pub is_port : Option ℕ → Bool
is_port none = true
is_port (some p) = leb 1 p && leb p 65535

abbrev pub accepts_credentials : Option ChannelCredentials → Bool
accepts_credentials none = true
accepts_credentials (some c) =
    leb (length c.login_email) 320
    && leb 1 (length c.login_password)
    && at_most 64 c.totp_secret
    && at_most 255 c.proxy_host
    && is_port c.proxy_port
    && at_most 255 c.proxy_username
    && at_most 255 c.proxy_password

-- 1 to 255 characters, and not only white space
abbrev pub is_label : Text → Bool
is_label s = leb 1 (length s) && leb (length s) 255 && not (is_empty (strip s))

-- The fields that pydantic checks; a body that it refuses is answered with 422.
unfoldable pub accepts_channel : ChannelCreate → Bool
accepts_channel body =
    is_label body.name && is_label body.platform_channel_id && accepts_credentials body.credentials

-- What the validators leave of a body.
abbrev pub stripped : ChannelCreate → ChannelCreate
stripped body = record body {
  name = strip body.name;
  platform_channel_id = strip body.platform_channel_id;
}

-- How a call of the YouTube API ends: the id of the first item if there is one, an HttpError with its
-- status, or another exception.
pub data ApiAnswer : Type 0 where
  first_id : Option Text → ApiAnswer
  http : ℕ → Text → ApiAnswer
  failed : Text → ApiAnswer

pub data Validation : Type 0 where
  valid : Text → Validation
  invalid : Text → Validation

-- `validate_channel_id` without a key, and the two calls
pub record YoutubeApi : Type 0 where
  pub api_key : Text
  pub search_channel : Text → ApiAnswer
  pub list_channel : Text → ApiAnswer

abbrev pub http_reason : ℕ → Text → Text
http_reason status error =
    if status == 403
    then text "YouTube API quota exceeded or access denied"
    else if status == 404
    then text "Channel not found"
    else error

abbrev pub listed : ApiAnswer → Validation
listed (first_id none) = invalid (text "Channel not found")
listed (first_id (some id)) = valid id
listed (http status error) = invalid (http_reason status error)
listed (failed error) = invalid error

abbrev pub searched : YoutubeApi → ApiAnswer → Validation
searched youtube (first_id none) = invalid (text "Channel not found")
searched youtube (first_id (some id)) = listed (youtube.list_channel id)
searched youtube (http status error) = invalid (http_reason status error)
searched youtube (failed error) = invalid error

-- `handle.lstrip("@")`
unfoldable pub lstrip_at : Text → Text
lstrip_at [] = []
lstrip_at (c ∷ s) = if c == b'@' then lstrip_at s else c ∷ s

unfoldable pub validate_channel_id : YoutubeApi → Text → Validation
unfolding starts_with lstrip_at
validate_channel_id youtube id =
    if is_empty youtube.api_key
    then invalid (text "YOUTUBE_API_KEY not configured")
    else if starts_with (text "@") id
    then searched youtube (youtube.search_channel (b'@' ∷ lstrip_at id))
    else listed (youtube.list_channel id)

-- The tables that the handlers read and write.
pub record ChannelSite : Type 0 where
  pub channel_db : ChannelDb
  pub credential_db : CredentialDb
  pub consoles : List Console
  pub default_project : Option ℕ

-- `data.project_id or get_default_project_id()`
abbrev pub or_number : Option ℕ → Option ℕ → Option ℕ
or_number none d = d
or_number (some n) d = if n == 0 then d else some n

abbrev pub login_of_body : ChannelCredentials → NewLogin
login_of_body c = record {
  login_email = c.login_email;
  login_password = c.login_password;
  totp_secret = c.totp_secret;
  backup_codes = c.backup_codes;
  proxy_host = c.proxy_host;
  proxy_port = c.proxy_port;
  proxy_username = c.proxy_username;
  proxy_password = c.proxy_password;
  profile_path = none;
  user_agent = none;
  enabled = true;
}

abbrev pub channel_response : Option Channel → Reply Channel
channel_response none = http_error 500
channel_response (some c) = ok c

abbrev pub read_back : ℕ → ChannelSite → Reply Channel × ChannelSite
read_back id site =
    (channel_response (fetch_one (has_key channel_id id) site.channel_db.channels), site)

abbrev pub after_credentials :
    ℕ → ChannelSite → Option (ℕ × CredentialDb) → Reply Channel × ChannelSite
after_credentials id site none = (http_error 500, site)
after_credentials id site (some (row, db)) = read_back id (record site { credential_db = db })

abbrev pub with_credentials :
    Option ChannelCredentials → ℕ → ChannelSite → Reply Channel × ChannelSite
with_credentials none id site = read_back id site
with_credentials (some c) id site =
    after_credentials id site (add_credentials id (login_of_body c) site.credential_db)

abbrev pub after_add :
    Option ChannelCredentials → ChannelSite → Option ℕ × ChannelDb → Reply Channel × ChannelSite
after_add credentials site (none, db) = (http_error 409, record site { channel_db = db })
after_add credentials site (some id, db) =
    with_credentials credentials id (record site { channel_db = db })

module _ (same : Text → Text → Bool) (youtube : YoutubeApi) (uuid : Text) (now : ℕ)
    (user : User) where
  -- With the project; `none` is the ValueError, which no handler catches.
  abbrev pub add_in : ChannelCreate → Text → ChannelSite → Option ℕ → Reply Channel × ChannelSite
  add_in body canonical site none = (http_error 500, site)
  add_in body canonical site (some project) = after_add body.credentials site (
      add_channel same uuid now project body.name canonical body.console_id body.enabled
        (some user.id) site.channel_db)

  abbrev pub project_of : ChannelCreate → ChannelSite → Option ℕ
  project_of body site = or_number body.project_id site.default_project

  -- With the body validated again under the canonical id; no handler catches the ValidationError, and
  -- add_channel strips the id as the validator does.
  abbrev pub validated : ChannelCreate → ChannelSite → Validation → Reply Channel × ChannelSite
  validated body site (invalid reason) = (http_error 400, site)
  validated body site (valid canonical) =
      if channel_exists_by_channel_id same (strip canonical) site.channel_db
      then (http_error 409, site)
      else if not (is_label canonical)
      then (http_error 500, site)
      else add_in body canonical site (project_of body site)

  abbrev pub with_console :
      ChannelCreate → ChannelSite → Option Console → Reply Channel × ChannelSite
  with_console body site none = (http_error 400, site)
  with_console body site (some console) =
      if channel_exists_by_name same (strip body.name) site.channel_db
      then (http_error 409, site)
      else validated body site (validate_channel_id youtube body.platform_channel_id)

  abbrev pub console_named : ChannelCreate → ChannelSite → Option ℕ → Reply Channel × ChannelSite
  console_named body site none = (http_error 400, site)
  console_named body site (some k) =
      if k == 0
      then (http_error 400, site)
      else with_console body site (get_console_by_id k site.consoles)

  -- `POST /channels/`
  unfoldable pub create_channel_handler : ChannelCreate → ChannelSite → Reply Channel × ChannelSite
  create_channel_handler body site =
      if accepts_channel body
      then console_named (stripped body) site body.console_id
      else (http_error 422, site)

-- `GET /channels/`
unfoldable pub get_channels_handler : User → Option ℕ → ChannelSite → List Channel
get_channels_handler user project site =
    if is_admin user
    then list_channels project site.channel_db
    else keep (λ c. created_by_user c.created_by user) (list_channels project site.channel_db)

abbrev pub sees : User → Channel → Bool
sees user c = is_admin user || created_by_user c.created_by user

abbrev pub visible : User → Option Channel → Reply Channel
visible user none = http_error 404
visible user (some c) = if sees user c then ok c else http_error 404

unfoldable pub get_channel_handler : User → ℕ → ChannelSite → Reply Channel
get_channel_handler user k site =
    visible user (fetch_one (has_key channel_id k) site.channel_db.channels)

-- `channel_repo.delete_channel` on both tables
abbrev pub delete_both : ℕ → ChannelSite → Bool × ChannelSite
delete_both k site = (
  ltb 0 (count_where (has_key channel_id k) site.channel_db.channels),
  record site {
    channel_db = record site.channel_db {
      channels = delete_where (has_key channel_id k) site.channel_db.channels;
    };
    credential_db = delete_logins k site.credential_db;
  },
)

abbrev pub deleted : Bool × ChannelSite → Reply (Unit {0}) × ChannelSite
deleted (true, site) = (ok tt, site)
deleted (false, site) = (http_error 500, site)

abbrev pub delete_visible : ℕ → ChannelSite → Reply Channel → Reply (Unit {0}) × ChannelSite
delete_visible k site (http_error code) = (http_error code, site)
delete_visible k site (ok c) = deleted (delete_both k site)

-- `DELETE /channels/{channel_id}`
unfoldable pub delete_channel_handler : User → ℕ → ChannelSite → Reply (Unit {0}) × ChannelSite
unfolding get_channel_handler
delete_channel_handler user k site = delete_visible k site (get_channel_handler user k site)
