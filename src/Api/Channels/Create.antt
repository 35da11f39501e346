-- ===== src/Api/Channels/Create.antt =====
-- Adding and deleting a channel.
use content_fabric.Base.{
  true, List, ◌&&◌, if◌then◌else◌, ℕ, ◌+◌, ◌<◌, ◌≡◌, Bool, false, ◌⊎◌, Option, none, some, [], ◌∷◌,
  ◌++◌, ◌==◌, any_of, All,
}
use mathlib.Core.Option
use content_fabric.Text.{Text}
use content_fabric.Text.Decimal.{strip}
use content_fabric.Users.{User}
use content_fabric.Users.Access.{Reply, ok, http_error}
use content_fabric.Channels.{Channel, Console, get_console_by_id}
use content_fabric.Channels.Credentials.{CredentialDb, add_credentials}
use content_fabric.Channels.Repo.{new_channel, channel_exists_by_name, channel_exists_by_channel_id}
use content_fabric.Api.Channels.{
  ChannelCreate, ChannelCredentials, valid, invalid, YoutubeApi, ChannelSite, validate_channel_id,
  login_of_body, stripped, accepts_channel, is_label, or_number,
}

-- the console that a body names
abbrev pub console_of : Option ℕ → List Console → Option Console
console_of none consoles = none
console_of (some k) consoles = if k == 0 then none else get_console_by_id k consoles

-- What speaks against a channel under its canonical id: the id is taken, or is no id; or there is
-- no project for the channel, or one with a channel of its name.
abbrev pub IsUnfit : (Text → Text → Bool) → ChannelCreate → ChannelSite → Text → ℕ → Type 0
IsUnfit same body site canonical code =
    ((code ≡ 409) × (channel_exists_by_channel_id same (strip canonical) site.channel_db ≡ true))
    ⊎ ((code ≡ 500) × (is_label canonical ≡ false))
    ⊎ ((code ≡ 500) × (or_number body.project_id site.default_project ≡ none))
    ⊎ ((project : ℕ) × (code ≡ 409)
        × (or_number body.project_id site.default_project ≡ some project)
        × (any_of (λ d. (project == d.project_id) && same (strip body.name) d.name)
              site.channel_db.channels
            ≡ true))

-- Why a request is refused, and with what: no such console, a channel of the name, an id that
-- YouTube does not know, or a channel that is unfit.
abbrev pub IsReason : (Text → Text → Bool) → YoutubeApi → ChannelCreate → ChannelSite → ℕ → Type 0
IsReason same youtube body site code =
    ((code ≡ 400) × (console_of body.console_id site.consoles ≡ none))
    ⊎ ((code ≡ 409) × (channel_exists_by_name same (strip body.name) site.channel_db ≡ true))
    ⊎ ((reason : Text) × (code ≡ 400)
        × (validate_channel_id youtube body.platform_channel_id ≡ invalid reason))
    ⊎ ((canonical : Text) × (validate_channel_id youtube body.platform_channel_id ≡ valid canonical)
        × IsUnfit same body site canonical code)

-- An error, for a reason, with nothing written.
abbrev pub IsRefused :
    (Text → Text → Bool)
    → YoutubeApi
    → ChannelCreate
    → ChannelSite
    → Reply Channel × ChannelSite
    → Type 0
IsRefused same youtube body site r =
    (code : ℕ) × IsReason same youtube body site code × (r ≡ (http_error code, site))

-- A new last row, of the user, with a platform id that no row had.
abbrev pub IsAdded : (Text → Text → Bool) → User → ChannelSite → Channel → ChannelSite → Type 0
IsAdded same user site c site' =
    (site'.channel_db.channels ≡ site.channel_db.channels ++ c ∷ [])
    × (c.created_by ≡ some user.id)
    × (channel_exists_by_channel_id same c.platform_channel_id site.channel_db ≡ false)

-- The credentials after the INSERT of those of a body, if it has some; `none` if the INSERT fails.
abbrev pub credentials_after : Option ChannelCredentials → ℕ → CredentialDb → Option CredentialDb
credentials_after none k db = some db
credentials_after (some login) k db =
    Option.map (λ r. r.1) (add_credentials k (login_of_body login) db)

-- Answered with the new row, with the credentials of the body stored; or with 500, with the
-- credentials as they were, as those of the body cannot be stored.
abbrev pub IsAnswered :
    Option ChannelCredentials → ChannelSite → ℕ → Channel → Reply Channel × ChannelSite → Type 0
IsAnswered credentials site k c r =
    ((r.0 ≡ ok c) × (credentials_after credentials k site.credential_db ≡ some r.1.credential_db))
    ⊎ ((r.0 ≡ http_error 500)
        × (credentials_after credentials k site.credential_db ≡ none)
        × (r.1.credential_db ≡ site.credential_db))

-- How the request ends when its body, with the texts stripped, is accepted: refused, or with a new
-- row.
abbrev pub EndsAccepted :
    (Text → Text → Bool)
    → YoutubeApi
    → User
    → ChannelCreate
    → ChannelSite
    → Reply Channel × ChannelSite
    → Type 0
EndsAccepted same youtube user body site r =
    IsRefused same youtube body site r
    ⊎ ((c : Channel) × IsAnswered body.credentials site c.id c r × IsAdded same user site c r.1)

-- How a request to add a channel ends.
abbrev pub EndsAs :
    (Text → Text → Bool)
    → YoutubeApi
    → User
    → ChannelCreate
    → ChannelSite
    → Reply Channel × ChannelSite
    → Type 0
EndsAs same youtube user body site r =
    ((accepts_channel body ≡ false) × (r ≡ (http_error 422, site)))
    ⊎ ((accepts_channel body ≡ true) × EndsAccepted same youtube user (stripped body) site r)

module _ (same : Text → Text → Bool) (youtube : YoutubeApi) (uuid : Text) (now : ℕ) (user : User)
    (body : ChannelCreate) (site : ChannelSite)
    (below : All (λ c. c.id < site.channel_db.next_id) site.channel_db.channels) where
  abbrev row_of : Text → ℕ → Channel
  row_of canonical project =
      new_channel same site.channel_db.next_id uuid now project body.name canonical body.console_id
        body.enabled (some user.id)

  abbrev with_row : Channel → ChannelSite
  with_row c = record site {
    channel_db = record {
      channels = site.channel_db.channels ++ c ∷ [];
      next_id = site.channel_db.next_id + 1;
    };
  }
