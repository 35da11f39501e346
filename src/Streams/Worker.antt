-- ===== src/Streams/Worker.antt =====
-- prod/workers/stream_worker.py: a job that runs systemctl on the unit of a stream, or heals the
-- stream. An exception of `lifecycle.reconcile`, which catches what its own calls raise, is left
-- out.
pub mod Laws
use content_fabric.Base.{ℕ, ◌==◌, Bool, not, Option, none, some, List, [], ◌∷◌, ◌++◌, if◌then◌else◌}
use content_fabric.Text.{Text, text, text_eq, text_mem, is_blank, or_blank}
use content_fabric.Text.Decimal.{decimal}
use content_fabric.Youtube.{Outcome, returned, raised}
use content_fabric.Streams.{Stream, Site, Host, get_stream}
use content_fabric.Streams.Lifecycle.{Reconciled, reconcile}

pub record StreamControlPayload : Type 0 where
  pub action : Text
  pub stream_id : Option ℕ
  pub unit_name : Option Text

-- The streams, the calls of systemctl and the alerts, the latest first.
pub record ControlSite : Type 0 where
  pub streams : Site
  pub runs : List (Text × Text)
  pub alerts : List Text

pub data ControlReport : Type 0 where
  healed : Reconciled → ControlReport
  output : Text → ControlReport
  control_error : Text → ControlReport

-- `stream_id` in an f-string
abbrev pub shown_id : Option ℕ → Text
shown_id none = text "None"
shown_id (some k) = decimal k

abbrev pub actions : List Text
actions = text "start" ∷ text "stop" ∷ text "restart" ∷ text "status" ∷ []

abbrev pub unit_for : StreamControlPayload → Text
unit_for payload =
    if is_blank payload.unit_name
    then text "stream-" ++ shown_id payload.stream_id
    else or_blank payload.unit_name

-- `_fetch_stream(int(stream_id)) if stream_id else None`
abbrev pub stream_for : Option ℕ → Site → Option Stream
stream_for none site = none
stream_for (some k) site = if k == 0 then none else get_stream site k

abbrev pub heal_found :
    Host → StreamControlPayload → ControlSite → Option Stream → ControlReport × ControlSite
heal_found host payload site none =
    (control_error (text "stream " ++ shown_id payload.stream_id ++ text " not found"), site)
heal_found host payload site (some s) =
    let (result, streams) = reconcile host s site.streams in
    (healed result, record site { streams = streams })

abbrev pub after_run : Text → ControlSite → Outcome Text → ControlReport × ControlSite
after_run unit site (returned out) = (output out, site)
after_run unit site (raised error) = (
  control_error error,
  record site {
    alerts = (text "Stream control failed for " ++ unit ++ text ": " ++ error) ∷ site.alerts;
  },
)

-- `systemctl` gives its output, or the text of the exception.
unfoldable pub run_stream_control_job :
    Host
    → (Text → Text → Outcome Text)
    → StreamControlPayload
    → ControlSite
    → ControlReport × ControlSite
run_stream_control_job host systemctl payload site =
    if text_eq payload.action (text "reconcile")
    then heal_found host payload site (stream_for payload.stream_id site.streams)
    else if not (text_mem payload.action actions)
    then (control_error (text "Invalid action: " ++ payload.action), site)
    else (let unit = unit_for payload in
        after_run unit (record site { runs = (payload.action, unit) ∷ site.runs })
          (systemctl payload.action unit))
