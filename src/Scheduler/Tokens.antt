-- ===== src/Scheduler/Tokens.antt =====
-- prod/scheduler/jobs.py: `validate_channel_tokens`. The metrics are left out.
pub mod Laws
use content_fabric.Base.{ℕ, ◌+◌, Bool, true, false, Option, none, some, List, [], ◌∷◌}
use content_fabric.Channels.{
  Channel, Console, get_console_by_id, get_channels_with_tokens, update_token_check,
}
use content_fabric.Youtube.{Outcome, returned, raised, Credentials, Google}
use content_fabric.Youtube.Client.{build_credentials, ensure_fresh_credentials}

pub record Checks : Type 0 where
  pub success : ℕ
  pub failure : ℕ
  pub channels : List Channel

abbrev pub passed_check : ℕ → Channel → Checks → Checks
passed_check now ch c = record {
  success = c.success + 1;
  failure = c.failure;
  channels = (update_token_check now ch.id true c.channels).1;
}

abbrev pub failed_check : ℕ → Channel → Checks → Checks
failed_check now ch c = record {
  success = c.success;
  failure = c.failure + 1;
  channels = (update_token_check now ch.id false c.channels).1;
}

abbrev pub after_refresh : ℕ → Channel → Checks → Outcome Credentials × List Channel → Checks
after_refresh now ch c (returned creds, channels) =
    passed_check now ch (record c { channels = channels })
after_refresh now ch c (raised error, channels) =
    failed_check now ch (record c { channels = channels })

abbrev pub check_with : Google → ℕ → Channel → Checks → Option Console → Checks
check_with google now ch c none = failed_check now ch c
check_with google now ch c (some console) =
    after_refresh now ch c
      (ensure_fresh_credentials google now ch.id (build_credentials ch console) c.channels)

-- `console_repo.get_console_by_id(ch["console_id"])`
abbrev pub console_for : Option ℕ → List Console → Option Console
console_for none consoles = none
console_for (some k) consoles = get_console_by_id k consoles

abbrev pub check_each : Google → ℕ → List Console → List Channel → Checks → Checks
check_each google now consoles [] c = c
check_each google now consoles (ch ∷ chs) c =
    check_each google now consoles chs
      (check_with google now ch c (console_for ch.console_id consoles))

unfoldable pub validate_channel_tokens : Google → ℕ → List Console → List Channel → Checks
validate_channel_tokens google now consoles channels =
    check_each google now consoles (get_channels_with_tokens channels)
      (record { success = 0; failure = 0; channels = channels })
