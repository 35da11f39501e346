-- ===== src/Streams/Handlers.antt =====
-- prod/app/api/endpoints/streams.py: the requests that start, stop,
-- restart and reconcile a stream. The status that a reply shows is left out.
use content_fabric.Base.{ℕ, not, Option, none, some, List, [], ◌∷◌, if◌then◌else◌, keep}
use content_fabric.Table.Order.{order_by, ascending}
use content_fabric.Streams.{Stream, stream_id, Site, Host, get_stream}
use content_fabric.Streams.Lifecycle.{
  StartReport, StopReport, Reconciled, start_stream, stop_stream, reconcile,
}

pub data StreamReply {ℓ} (A : Type ℓ) : Type ℓ where
  answered : A → StreamReply A
  stream_not_found stream_disabled : StreamReply A

abbrev pub start_found : Host → Site → Option Stream → StreamReply StartReport × Site
start_found host site none = (stream_not_found, site)
start_found host site (some s) =
    if not s.enabled
    then (stream_disabled, site)
    else let (report, site') = start_stream host s site in (answered report, site')

unfoldable pub start_handler : Host → ℕ → Site → StreamReply StartReport × Site
start_handler host k site = start_found host site (get_stream site k)

abbrev pub stop_found : Host → Site → Option Stream → StreamReply StopReport × Site
stop_found host site none = (stream_not_found, site)
stop_found host site (some s) =
    let (report, site') = stop_stream host s site in (answered report, site')

unfoldable pub stop_handler : Host → ℕ → Site → StreamReply StopReport × Site
stop_handler host k site = stop_found host site (get_stream site k)

-- `_fetch_stream(id) or s`
abbrev pub fetched_again : Stream → Option Stream → Stream
fetched_again s none = s
fetched_again s (some fresh) = fresh

abbrev pub restart_found :
    Host → ℕ → Site → Option Stream → StreamReply (StopReport × StartReport) × Site
restart_found host k site none = (stream_not_found, site)
restart_found host k site (some s) =
    let (stopped, site1) = stop_stream host s site in
    let (started, site2) = start_stream host (fetched_again s (get_stream site1 k)) site1 in
    (answered (stopped, started), site2)

unfoldable pub restart_handler : Host → ℕ → Site → StreamReply (StopReport × StartReport) × Site
restart_handler host k site = restart_found host k site (get_stream site k)

abbrev pub reconcile_found : Host → Site → Option Stream → StreamReply Reconciled × Site
reconcile_found host site none = (stream_not_found, site)
reconcile_found host site (some s) =
    if not s.enabled
    then (stream_disabled, site)
    else let (result, site') = reconcile host s site in (answered result, site')

unfoldable pub reconcile_handler : Host → ℕ → Site → StreamReply Reconciled × Site
reconcile_handler host k site = reconcile_found host site (get_stream site k)

abbrev pub enabled_streams : List Stream → List Stream
enabled_streams streams = order_by (ascending stream_id) (keep (λ s. s.enabled) streams)

abbrev pub reconcile_each : Host → List Stream → Site → List Reconciled × Site
reconcile_each host [] site = ([], site)
reconcile_each host (s ∷ ss) site =
    let (result, site1) = reconcile host s site in
    let (results, site2) = reconcile_each host ss site1 in (result ∷ results, site2)

unfoldable pub reconcile_all : Host → Site → List Reconciled × Site
reconcile_all host site = reconcile_each host (enabled_streams site.streams) site
