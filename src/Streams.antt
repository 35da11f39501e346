-- ===== src/Streams.antt =====
-- prod/shared/streams: the live streams, the systemd units that feed them, and what runs on them.
pub mod Lifecycle
pub mod Handlers
pub mod Provision
pub mod Create
pub mod Worker
use content_fabric.Base.{
  ℕ, Bool, true, false, Option, none, some, List, [], ◌∷◌, ◌==◌, ◌&&◌, if◌then◌else◌, first_some,
}
use content_fabric.Text.{Text, text, text_eq}
use content_fabric.Table.{fetch_one, update_where, has_key}
use content_fabric.Json.{Fields, end, field, str, bool}
use content_fabric.Youtube.{Outcome}

-- the columns of `live_stream_configurations` that the lifecycle reads
pub record Stream : Type 0 where
  pub id : ℕ
  pub service_name : Text
  pub streaming_account_id : Option ℕ
  pub platform_broadcast_id : Option Text
  pub platform_stream_id : Option Text
  pub enabled : Bool

abbrev pub stream_id : Stream → ℕ
stream_id s = s.id

-- the calls of systemctl
pub data Command : Type 0 where
  start stop restart reset_failed : Text → Command

-- the calls of YouTube
pub data Call : Type 0 where
  prepare : (stream : ℕ) → Call
  go_live complete : (broadcast : Text) → Call

-- The rows, and what has been run, the latest first.
pub record Site : Type 0 where
  pub streams : List Stream
  pub commands : List Command
  pub calls : List Call

-- What `systemctl show` says of a unit.
pub record Shown : Type 0 where
  pub code : ℕ
  pub active_state : Text
  pub sub_state : Text
  pub error : Text

pub record Prepared : Type 0 where
  pub broadcast : Option Text
  pub ingest : Option Text

-- systemd and YouTube: the answers to the calls, which may depend on all that was run before.
pub record Host : Type 0 where
  pub show : Site → Text → Shown
  pub exit_code : Site → Command → ℕ
  pub prepared : Site → Stream → Outcome Prepared
  pub transition : Site → Call → Outcome Bool

-- `systemd_manager.status`: the entries of its result that tell the state
unfoldable pub status : Shown → Text → Fields
status shown unit =
    if shown.code == 127
    then field (text "unit") (str unit) (
        field (text "active") (bool false) (
          field (text "activeState") (str (text "sudo_required"))
            (field (text "subState") (str []) end)))
    else if shown.code == 0
    then field (text "unit") (str unit) (
        field (text "active")
          (bool (
            text_eq shown.active_state (text "active") && text_eq shown.sub_state (text "running")))
          (field (text "activeState") (str shown.active_state)
            (field (text "subState") (str shown.sub_state) end)))
    else field (text "unit") (str unit) (
        field (text "active") (bool false) (
          field (text "activeState") (str (text "error"))
            (field (text "subState") (str shown.error) end)))

-- `_do_action`: the exit code
abbrev pub do_action : Host → Command → Site → ℕ × Site
do_action host command site =
    (host.exit_code site command, record site { commands = command ∷ site.commands })

abbrev pub get_stream : Site → ℕ → Option Stream
get_stream site k = fetch_one (has_key stream_id k) site.streams

-- `COALESCE(:bid, platform_broadcast_id)`, and the same for the ingest
abbrev pub with_ids : Option Text → Option Text → Stream → Stream
with_ids broadcast ingest s = record s {
  platform_broadcast_id = first_some broadcast s.platform_broadcast_id;
  platform_stream_id = first_some ingest s.platform_stream_id;
}
