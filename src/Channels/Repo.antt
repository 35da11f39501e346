-- ===== src/Channels/Repo.antt =====
-- prod/shared/db/repositories/channel_repo.py: the queries on channels, and adding and changing
-- one. The table has the unique key (project_id, platform, name), and all its channels are on one
-- platform. The collation says which texts the database takes for equal. The id that an INSERT uses
-- up when it fails is left out.
use content_fabric.Base.{
  ℕ, ◌+◌, Bool, true, false, not, ◌&&◌, Option, none, some, List, [], ◌∷◌, ◌++◌, ltb, ◌==◌,
  if◌then◌else◌, is_some, or_else, keep, any_of,
}
use content_fabric.Text.{Text, is_blank}
use content_fabric.Text.Decimal.{strip}
use content_fabric.Table.{fetch_one, update_where, count_where, has_key}
use content_fabric.Table.Order.{order_by, descending}
use content_fabric.Channels.{Channel, channel_id, set_option}

pub record ChannelDb : Type 0 where
  pub channels : List Channel
  pub next_id : ℕ

abbrev pub in_project : Option ℕ → Channel → Bool
in_project none c = true
in_project (some p) c = p == c.project_id

unfoldable pub list_channels : Option ℕ → ChannelDb → List Channel
list_channels project db =
    order_by (descending (λ (c : Channel). c.created_at)) (keep (in_project project) db.channels)

-- `has_tokens` of a row: both tokens are there and not empty
abbrev pub shows_tokens : Channel → Bool
shows_tokens c = not (is_blank c.access_token) && not (is_blank c.refresh_token)

module _ (same : Text → Text → Bool) where
  unfoldable pub get_channel_by_uuid : Text → ChannelDb → Option Channel
  get_channel_by_uuid uuid db = fetch_one (λ c. same c.uuid uuid) db.channels

  unfoldable pub get_channel_by_name : Text → ChannelDb → Option Channel
  get_channel_by_name name db = fetch_one (λ c. same c.name name) db.channels

  unfoldable pub channel_exists_by_name : Text → ChannelDb → Bool
  channel_exists_by_name name db = is_some (fetch_one (λ c. same c.name name) db.channels)

  unfoldable pub channel_exists_by_channel_id : Text → ChannelDb → Bool
  channel_exists_by_channel_id id db =
      is_some (fetch_one (λ c. same c.platform_channel_id id) db.channels)

  -- the unique key of two rows is equal
  abbrev pub clashes : Channel → Channel → Bool
  clashes c d = (c.project_id == d.project_id) && same c.name d.name

  abbrev pub new_channel : ℕ → Text → ℕ → ℕ → Text → Text → Option ℕ → Bool → Option ℕ → Channel
  new_channel id uuid now project name platform_channel_id console enabled created_by = record {
    id = id;
    uuid = uuid;
    project_id = project;
    name = strip name;
    platform_channel_id = strip platform_channel_id;
    console_id = console;
    enabled = enabled;
    access_token = none;
    refresh_token = none;
    token_expires_at = none;
    created_by = created_by;
    token_checked_at = none;
    token_check_ok = none;
    created_at = now;
  }

  abbrev pub insert_channel : Channel → ChannelDb → Option ℕ × ChannelDb
  insert_channel c db =
      if any_of (clashes c) db.channels
      then (none, db)
      else (some c.id, record { channels = db.channels ++ c ∷ []; next_id = db.next_id + 1 })

  -- `none` for a duplicate
  unfoldable pub add_channel :
      Text → ℕ → ℕ → Text → Text → Option ℕ → Bool → Option ℕ → ChannelDb → Option ℕ × ChannelDb
  add_channel uuid now project name platform_channel_id console enabled created_by db =
      insert_channel
        (new_channel db.next_id uuid now project name platform_channel_id console enabled
          created_by)
        db

  abbrev pub changed : Option Text → Option Bool → Option ℕ → Channel → Channel
  changed name enabled console c = record c {
    name = or_else name c.name;
    enabled = or_else enabled c.enabled;
    console_id = set_option console c.console_id;
  }

  -- Whether the new values of the row `k` clash with another row.
  abbrev pub clashes_other : ℕ → Channel → Channel → Bool
  clashes_other k new d = not (has_key channel_id k d) && clashes new d

  abbrev pub change_clashes : ℕ → (Channel → Channel) → List Channel → Option Channel → Bool
  change_clashes k f channels none = false
  change_clashes k f channels (some c) = any_of (clashes_other k (f c)) channels

  -- `none` is the IntegrityError of a name that another channel of the project has.
  unfoldable pub update_channel :
      ℕ → Option Text → Option Bool → Option ℕ → ChannelDb → Option (Bool × ChannelDb)
  update_channel k name enabled console db =
      let f = changed name enabled console in
      if not (is_some name) && not (is_some enabled) && not (is_some console)
      then some (false, db)
      else if change_clashes k f db.channels (fetch_one (has_key channel_id k) db.channels)
      then none
      else some (
        ltb 0 (count_where (has_key channel_id k) db.channels),
        record db { channels = update_where (has_key channel_id k) f db.channels },
      )
