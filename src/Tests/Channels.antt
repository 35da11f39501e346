-- ===== src/Tests/Channels.antt =====
-- A channel is added, renamed and given a login.
use content_fabric.Base.{◌≡◌, true, none, some, List, [], ◌∷◌}
use content_fabric.Text.{text}
use content_fabric.Channels.Credentials.{CredentialDb, NewLogin}
use content_fabric.Channels.Credentials.Store.{Request, perform_all, ask_all}
use content_fabric.Channels.Credentials.Refines.{view, perform_all-ask_all}
use content_fabric.Channels.Repo.{ChannelDb}
use content_fabric.Api.Channels.{ChannelCreate, YoutubeApi, first_id, ChannelSite}
use content_fabric.Tests.Data.{a_channel, a_console}

abbrev new_login : NewLogin
new_login = record {
  login_email = text "a@b.c";
  login_password = text "p";
  totp_secret = none;
  backup_codes = none;
  proxy_host = none;
  proxy_port = none;
  proxy_username = none;
  proxy_password = none;
  profile_path = none;
  user_agent = none;
  enabled = true;
}

abbrev no_logins : CredentialDb
no_logins = record { rows = []; next_id = 1 }

abbrev three_requests : List Request
three_requests =
    Request.add 7 new_login ∷ Request.attempt 50 7 true none none ∷ Request.disable 7 ∷ []

perform_all-ask_all_example :
    view (perform_all three_requests no_logins) ≡ ask_all three_requests (view no_logins)
perform_all-ask_all_example = perform_all-ask_all three_requests no_logins

abbrev one_channel : ChannelDb
one_channel = record { channels = a_channel ∷ []; next_id = 8 }

abbrev a_body : ChannelCreate
a_body = record {
  name = text "D";
  platform_channel_id = text "@d";
  console_id = some 3;
  enabled = true;
  project_id = none;
  credentials = none;
}

abbrev a_youtube : YoutubeApi
a_youtube = record {
  api_key = text "k";
  search_channel = λ q. first_id (some (text "UC2"));
  list_channel = λ id. first_id (some id);
}

abbrev a_channel_site : ChannelSite
a_channel_site = record {
  channel_db = one_channel;
  credential_db = no_logins;
  consoles = a_console ∷ [];
  default_project = some 1;
}
