-- ===== src/Streams/Lifecycle.antt =====
-- prod/shared/streams/lifecycle.py: starting, stopping and reconciling a stream.
pub mod Laws
use content_fabric.Base.{
  ℕ, Bool, true, false, not, ◌&&◌, ◌||◌, Option, none, some, List, [], ◌∷◌, map, ◌==◌,
  if◌then◌else◌,
}
use content_fabric.Text.{Text, text, text_eq, is_empty, is_blank, or_blank, lower_char}
use content_fabric.Text.Decimal.{strip}
use content_fabric.Table.{update_where, has_key}
use content_fabric.Json.{Json, str, get_field, Fields}
use content_fabric.Youtube.{Outcome, returned, raised}
use content_fabric.Streams.{
  Stream, stream_id, Command, start, stop, reset_failed, Call, prepare, go_live, complete, Site,
  Host, Prepared, status, do_action, with_ids,
}

-- `if not broadcast_id and not platform_stream_id: return`
unfoldable pub persist_broadcast_ids : ℕ → Option Text → Option Text → Site → Site
persist_broadcast_ids k broadcast ingest site =
    if is_blank broadcast && is_blank ingest then site else record site {
      streams = update_where (has_key stream_id k) (with_ids broadcast ingest) site.streams;
    }

pub record Prep : Type 0 where
  pub broadcast_id : Option Text
  pub ingest_id : Option Text
  pub prep_error : Option Text

abbrev pub nothing_prepared : Option Text → Prep
nothing_prepared error = record { broadcast_id = none; ingest_id = none; prep_error = error }

abbrev pub prepared_ids : Outcome Prepared → Prep
prepared_ids (raised error) = nothing_prepared (some error)
prepared_ids (returned p) = record {
  broadcast_id = p.broadcast;
  ingest_id = p.ingest;
  prep_error = none;
}

abbrev pub prepare_for : Host → Stream → Site → Option ℕ → Prep × Site
prepare_for host s site none = (nothing_prepared none, site)
prepare_for host s site (some account) =
    if account == 0
    then (nothing_prepared none, site)
    else (prepared_ids (host.prepared site s), record site { calls = prepare s.id ∷ site.calls })

-- Failures are reported, never raised.
unfoldable pub prepare_broadcast : Host → Stream → Site → Prep × Site
prepare_broadcast host s site = prepare_for host s site s.streaming_account_id

abbrev pub error_text : Outcome Bool → Option Text
error_text (returned ok) = none
error_text (raised error) = some error

abbrev pub transition : Host → Call → Site → Option Text × Site
transition host call site =
    (error_text (host.transition site call), record site { calls = call ∷ site.calls })

abbrev pub complete_for : Host → Text → Site → Option ℕ → (Option Text × Option Text) × Site
complete_for host broadcast site none = ((none, none), site)
complete_for host broadcast site (some account) =
    if is_empty broadcast || (account == 0)
    then ((none, none), site)
    else let (error, site') = transition host (complete broadcast) site in
      ((some broadcast, error), site')

-- the broadcast that was completed, if any, and the error
unfoldable pub complete_broadcast : Host → Stream → Site → (Option Text × Option Text) × Site
complete_broadcast host s site =
    complete_for host (strip (or_blank s.platform_broadcast_id)) site s.streaming_account_id

pub record StartReport : Type 0 where
  pub exit_code : ℕ
  pub prep : Prep
  pub live_error : Option Text

abbrev pub go_live_if : Host → ℕ → Option Text → Site → Option Text × Site
go_live_if host code broadcast site =
    if (code == 0) && not (is_blank broadcast)
    then transition host (go_live (or_blank broadcast)) site
    else (none, site)

-- Prepare the broadcast, start the unit, and go live if both went well. (The delay before going live
-- is left out.)
unfoldable pub start_stream : Host → Stream → Site → StartReport × Site
start_stream host s site =
    let (prep, site1) = prepare_broadcast host s site in
    let site2 = persist_broadcast_ids s.id prep.broadcast_id prep.ingest_id site1 in
    let (code, site3) = do_action host (start s.service_name) site2 in
    let (live_error, site4) = go_live_if host code prep.broadcast_id site3 in
    (record { exit_code = code; prep = prep; live_error = live_error }, site4)

pub record StopReport : Type 0 where
  pub stop_code : ℕ
  pub completed_id : Option Text
  pub complete_error : Option Text

unfoldable pub stop_stream : Host → Stream → Site → StopReport × Site
stop_stream host s site =
    let (code, site1) = do_action host (stop s.service_name) site in
    let ((broadcast, error), site2) = complete_broadcast host s site1 in
    (record { stop_code = code; completed_id = broadcast; complete_error = error }, site2)

-- `(st.get(key) or "").lower()`
abbrev pub text_of : Option Json → Text
text_of (some (str s)) = map lower_char s
text_of _ = []

pub data Reconciled : Type 0 where
  noop : Reconciled
  started : (reason : Text × Text) → StartReport → Reconciled

abbrev pub stop_if : Host → Bool → Text → Site → Site
stop_if host running unit site = if running then (do_action host (stop unit) site).1 else site

abbrev pub heal : Host → Stream → Bool → Text × Text → Site → Reconciled × Site
heal host s running reason site =
    let (code, site1) = do_action host (reset_failed s.service_name) site in
    let site2 = stop_if host running s.service_name site1 in
    let (report, site3) = start_stream host s site2 in (started reason report, site3)

abbrev pub reconcile_state : Host → Stream → Text → Text → Site → Reconciled × Site
reconcile_state host s active_state sub_state site =
    let running = text_eq active_state (text "active") && text_eq sub_state (text "running") in
    if running && not (is_empty (strip (or_blank s.platform_broadcast_id)))
    then (noop, site)
    else heal host s running (active_state, sub_state) site

-- The keys are those that `reconcile` reads, not those that `status` writes.
unfoldable pub reconcile : Host → Stream → Site → Reconciled × Site
unfolding status get_field start_stream
reconcile host s site =
    let st = status (host.show site s.service_name) s.service_name in
    reconcile_state host s (text_of (get_field (text "active_state") st))
      (text_of (get_field (text "sub_state") st)) site
