-- ===== src/Tests/Streaming.antt =====
-- Runs on a stream that is healthy.
use content_fabric.Text.{starts_with}
use content_fabric.Streams.Worker.{
  StreamControlPayload, ControlSite, unit_for, run_stream_control_job,
}
use content_fabric.Streams.Worker.Laws.{EndsControl, run_stream_control_job-EndsControl}
use content_fabric.Streams.Create.{StreamCreateRequest, StreamSite, create_stream}
use content_fabric.Streams.Create.Laws.{EndsCreated, create_stream-EndsCreated}
use content_fabric.Text.Decimal.{strip, lstrip, decimal, emit}
use content_fabric.Streams.Provision.{
  StreamConfig, Disk, normalize_rtmp_host, remove_all, before_slash, ends_with, path_join,
  unit_path, provision_stream, provision_all,
}
use content_fabric.Streams.Provision.Laws.{
  EndsProvisioned, provision_stream-EndsProvisioned, IsSynced, provision_all-IsSynced,
}
use content_fabric.Base.{◌≡◌, refl, true, false, none, some, [], ◌∷◌, arith, All}
use content_fabric.Text.{text, text_eq}
use content_fabric.Youtube.{returned, raised}
use content_fabric.Streams.{Stream, Site, Host, start, reset_failed}
use content_fabric.Streams.Lifecycle.{reconcile}
use content_fabric.Streams.Lifecycle.Laws.{reconcile-restarts}
use content_fabric.Streams.Handlers.{enabled_streams}
use content_fabric.Scheduler.Reconcile.{Healing, is_cooling, reconcile_streams, last_at}
use content_fabric.Scheduler.Reconcile.Laws.{reconcile_streams-pause}

abbrev a_stream : Stream
a_stream = record {
  id = 1;
  service_name = text "s";
  streaming_account_id = some 2;
  platform_broadcast_id = some (text "b");
  platform_stream_id = some (text "i");
  enabled = true;
}

abbrev a_host : Host
a_host = record {
  show = λ site unit. record {
    code = 0;
    active_state = text "active";
    sub_state = text "running";
    error = [];
  };
  exit_code = λ site command. 0;
  prepared = λ site s. returned (record { broadcast = some (text "b2"); ingest = none });
  transition = λ site call. returned true;
}

abbrev a_site : Site
a_site = record { streams = a_stream ∷ []; commands = []; calls = [] }

-- The unit is active and running, and the stream has a broadcast.
reconcile-restarts_example :
    (reconcile a_host a_stream a_site).1.commands ≡ start (text "s") ∷ reset_failed (text "s") ∷ []
reconcile-restarts_example = (reconcile-restarts a_host a_stream a_site).1

abbrev healing : Healing
healing = record { site = a_site; last_reconcile_at = [] }

reconcile_streams-pause_example :
    All
      (λ s.
        is_cooling 1299 s (reconcile_streams a_host 1000 healing).state.last_reconcile_at ≡ true)
      (enabled_streams (a_stream ∷ []))
unfolding last_at
reconcile_streams-pause_example =
    reconcile_streams-pause a_host 1000 1299 healing (omega arith) (refl, tt)

abbrev a_config : StreamConfig
a_config = record {
  id = 7;
  name = some (text "radio");
  service_name = some (text "stream-radio");
  workdir = some (text "/srv/radio ");
  stream_key = some (text "key");
  duration_sec = some 0;
  rtmp_base = some (text "rtmp://b.rtmp.youtube.com/live2/");
  rtmp_host = none;
  enabled = true;
}

-- without a stream key
abbrev a_keyless_config : StreamConfig
a_keyless_config = record a_config { id = 8; stream_key = some (text "  ") }

abbrev an_empty_disk : Disk
an_empty_disk = record { files = λ path. none; dirs = λ path. none; controls = [] }

host_of_base : normalize_rtmp_host a_config.rtmp_base a_config.rtmp_host ≡ text "b.rtmp.youtube.com"
unfolding normalize_rtmp_host remove_all before_slash starts_with
host_of_base = refl

unit_of_config : unit_path a_config ≡ text "/etc/systemd/system/stream-radio.service"
unfolding ends_with starts_with path_join strip lstrip
unit_of_config = refl

provision_stream-EndsProvisioned_example :
    EndsProvisioned a_config false an_empty_disk (provision_stream a_config true an_empty_disk)
provision_stream-EndsProvisioned_example =
    provision_stream-EndsProvisioned a_config true false an_empty_disk

provision_all-IsSynced_example :
    IsSynced
      (a_config ∷ a_keyless_config ∷ [])
      an_empty_disk
      (provision_all (a_config ∷ a_keyless_config ∷ []) an_empty_disk)
provision_all-IsSynced_example =
    provision_all-IsSynced (a_config ∷ a_keyless_config ∷ []) an_empty_disk

abbrev a_request : StreamCreateRequest
a_request = record {
  name = text " night-radio\n";
  service_name = none;
  workdir = some (text " ");
  stream_key = text "key";
  duration_sec = 42900;
  rtmp_base = none;
  rtmp_host = none;
}

abbrev a_stream_site : StreamSite
a_stream_site = record { configs = a_config ∷ []; next_id = 9; disk = an_empty_disk }

create_stream-EndsCreated_example :
    EndsCreated text_eq
      (text "/srv/")
      a_request
      a_stream_site
      (create_stream text_eq (text "/srv/") a_request a_stream_site)
create_stream-EndsCreated_example =
    create_stream-EndsCreated text_eq a_stream_site (omega arith, tt) (text "/srv/") a_request

abbrev a_restart : StreamControlPayload
a_restart = record { action = text "restart"; stream_id = some 1; unit_name = none }

abbrev a_control_site : ControlSite
a_control_site = record { streams = a_site; runs = []; alerts = [] }

-- The unit is named by the id.
unit_of_restart : unit_for a_restart ≡ text "stream-1"
unfolding decimal emit
unit_of_restart = refl

run_stream_control_job-EndsControl_example :
    EndsControl a_host
      (λ action unit. raised (text "not loaded"))
      a_restart
      a_control_site
      (run_stream_control_job a_host
        (λ action unit. raised (text "not loaded"))
        a_restart
        a_control_site)
run_stream_control_job-EndsControl_example =
    run_stream_control_job-EndsControl a_host (λ action unit. raised (text "not loaded")) a_restart
      a_control_site
