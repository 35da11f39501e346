-- ===== src/Streams/Lifecycle/Laws.antt =====
-- What the lifecycle does to a stream.
use content_fabric.Base.{
  ℕ, ◌≡◌, refl, sym, ap, ◌∙◌, Bool, false, not, ◌&&◌, Option, none, some, [], ◌∷◌, if◌then◌else◌,
  Bool-cases, inl, inr, ◌==◌,
}
use mathlib.Core.Option
use content_fabric.Text.{Text, text, is_blank, or_blank, text_eq}
use content_fabric.Json.{get_field}
use content_fabric.Streams.{
  Stream, Site, Host, Shown, status, start, reset_failed, go_live, get_stream, stream_id, with_ids,
  do_action,
}
use content_fabric.Table.{fetch_one, has_key, fetch_one-update_self}
use content_fabric.Streams.Lifecycle.{
  started, text_of, reconcile, reconcile_state, start_stream, persist_broadcast_ids, prepare_for,
  prepare_broadcast, go_live_if, heal, StartReport,
}

unread :
    (shown : Shown) (unit : Text)
    → (text_of (get_field (text "active_state") (status shown unit)) ≡ [])
      × (text_of (get_field (text "sub_state") (status shown unit)) ≡ [])
unfolding status get_field text_eq
unread shown unit = elim (Bool-cases (shown.code == 127)) [
  | inl sudo ↦ rw sudo (refl, refl)
  | inr found ↦ elim (Bool-cases (shown.code == 0)) [
    | inl shown_ok ↦ rw (found, shown_ok) (refl, refl)
    | inr failing ↦ rw (found, failing) (refl, refl)
  ]
]

prepare_for-commands :
    (host : Host) (s : Stream) (site : Site) (account : Option ℕ)
    → (prepare_for host s site account).1.commands ≡ site.commands
prepare_for-commands host s site none = refl
prepare_for-commands host s site (some account) = elim (Bool-cases (account == 0)) [
  | inl zero_id ↦ rw zero_id refl
  | inr real ↦ rw real refl
]

persist-commands :
    (k : ℕ) (broadcast ingest : Option Text) (site : Site)
    → (persist_broadcast_ids k broadcast ingest site).commands ≡ site.commands
unfolding persist_broadcast_ids
persist-commands k broadcast ingest site =
    elim (Bool-cases (is_blank broadcast && is_blank ingest)) [
      | inl blank ↦ rw blank refl
      | inr given ↦ rw given refl
    ]

go_live_if-commands :
    (host : Host) (code : ℕ) (broadcast : Option Text) (site : Site)
    → (go_live_if host code broadcast site).1.commands ≡ site.commands
go_live_if-commands host code broadcast site =
    elim (Bool-cases ((code == 0) && not (is_blank broadcast))) [
      | inl live ↦ rw live refl
      | inr not_live ↦ rw not_live refl
    ]

pub start_stream-commands :
    (host : Host) (s : Stream) (site : Site)
    → (start_stream host s site).1.commands ≡ start s.service_name ∷ site.commands
unfolding start_stream prepare_broadcast
start_stream-commands host s site =
    let prepared = prepare_for host s site s.streaming_account_id in
    go_live_if-commands host _ prepared.0.broadcast_id _
    ∙ ap (λ cs. start s.service_name ∷ cs)
        (persist-commands s.id prepared.0.broadcast_id prepared.0.ingest_id prepared.1
          ∙ prepare_for-commands host s site s.streaming_account_id)

heals :
    (host : Host) (s : Stream) (site : Site)
    → reconcile host s site ≡ heal host s false ([], []) site
unfolding reconcile text_eq
heals host s site =
    let shown = host.show site s.service_name in
    let u = unread shown s.service_name in
    ap
      (λ a.
        reconcile_state host s a
          (text_of (get_field (text "sub_state") (status shown s.service_name))) site)
      u.0
    ∙ ap (λ b. reconcile_state host s [] b site) u.1

-- Reconciling a stream never finds it healthy: whatever systemd says of its unit, running or not, the
-- unit's failures are reset and it is started once more, it is never stopped first, and the report
-- says that it was in no state.
pub reconcile-restarts :
    (host : Host) (s : Stream) (site : Site)
    → let (result, site') = reconcile host s site in
      ((report : StartReport) × (result ≡ started ([], []) report))
      × (site'.commands ≡ start s.service_name ∷ reset_failed s.service_name ∷ site.commands)
reconcile-restarts host s site = (
  (
    (start_stream host s
        (record site { commands = reset_failed s.service_name ∷ site.commands })).0,
    ap (λ r. r.0) (heals host s site),
  ),
  ap (λ r. r.1.commands) (heals host s site)
      ∙ start_stream-commands host s
          (record site { commands = reset_failed s.service_name ∷ site.commands }),
)

go_live_if-calls :
    (host : Host) (code : ℕ) (broadcast : Option Text) (site : Site)
    → (go_live_if host code broadcast site).1.calls ≡ (
        if (code == 0) && not (is_blank broadcast)
        then go_live (or_blank broadcast) ∷ site.calls
        else site.calls)
go_live_if-calls host code broadcast site =
    elim (Bool-cases ((code == 0) && not (is_blank broadcast))) [
      | inl live ↦ rw live refl
      | inr not_live ↦ rw not_live refl
    ]

go_live_if-streams :
    (host : Host) (code : ℕ) (broadcast : Option Text) (site : Site)
    → (go_live_if host code broadcast site).1.streams ≡ site.streams
go_live_if-streams host code broadcast site =
    elim (Bool-cases ((code == 0) && not (is_blank broadcast))) [
      | inl live ↦ rw live refl
      | inr not_live ↦ rw not_live refl
    ]

-- The ids that YouTube gave, if any.
abbrev pub stored : Option Text → Option Text → Stream → Stream
stored broadcast ingest s =
    if is_blank broadcast && is_blank ingest then s else with_ids broadcast ingest s

abbrev stored_if : Bool → Option Text → Option Text → Stream → Stream
stored_if blank broadcast ingest s = if blank then s else with_ids broadcast ingest s

map_same : (o : Option Stream) → Option.map (λ s. s) o ≡ o
map_same none = refl
map_same (some s) = refl

persist-row :
    (k : ℕ) (broadcast ingest : Option Text) (site : Site)
    → get_stream (persist_broadcast_ids k broadcast ingest site) k
      ≡ Option.map (stored broadcast ingest) (get_stream site k)
unfolding persist_broadcast_ids
persist-row k broadcast ingest site =
    let row = get_stream site k in
    elim (Bool-cases (is_blank broadcast && is_blank ingest)) [
      | inl blank ↦
          rw blank
            (sym (ap (λ t. Option.map (stored_if t broadcast ingest) row) blank ∙ map_same row))
      | inr given ↦ rw given (
          fetch_one-update_self stream_id k (with_ids broadcast ingest) (λ r. refl) site.streams
          ∙ sym (ap (λ t. Option.map (stored_if t broadcast ingest) row) given))
    ]

persist-calls :
    (k : ℕ) (broadcast ingest : Option Text) (site : Site)
    → (persist_broadcast_ids k broadcast ingest site).calls ≡ site.calls
unfolding persist_broadcast_ids
persist-calls k broadcast ingest site = elim (Bool-cases (is_blank broadcast && is_blank ingest)) [
  | inl blank ↦ rw blank refl
  | inr given ↦ rw given refl
]

prepare_for-streams :
    (host : Host) (s : Stream) (site : Site) (account : Option ℕ)
    → (prepare_for host s site account).1.streams ≡ site.streams
prepare_for-streams host s site none = refl
prepare_for-streams host s site (some account) = elim (Bool-cases (account == 0)) [
  | inl zero_id ↦ rw zero_id refl
  | inr real ↦ rw real refl
]

-- Starting a stream keeps the broadcast and ingest ids that YouTube gave, leaving the stored ones
-- where it gave none, and asks YouTube to go live exactly if the unit started and there is a
-- broadcast.
pub start_stream_lem :
    (host : Host) (s : Stream) (site : Site)
    → let (report, site') = start_stream host s site in
      let broadcast = report.prep.broadcast_id in
      let asked = (prepare_broadcast host s site).1.calls in
      (get_stream site' s.id
        ≡ Option.map (stored broadcast report.prep.ingest_id) (get_stream site s.id))
      × (site'.calls ≡ (
          if (report.exit_code == 0) && not (is_blank broadcast)
          then go_live (or_blank broadcast) ∷ asked
          else asked))
unfolding start_stream prepare_broadcast
start_stream_lem host s site =
    let prepared = prepare_for host s site s.streaming_account_id in
    let b = prepared.0.broadcast_id in
    let site2 = persist_broadcast_ids s.id b prepared.0.ingest_id prepared.1 in
    let (code, site3) = do_action host (start s.service_name) site2 in
    (
      ap (λ rows. fetch_one (has_key stream_id s.id) rows) (go_live_if-streams host code b site3)
          ∙ persist-row s.id b prepared.0.ingest_id prepared.1
          ∙ ap
              (λ rows.
                Option.map (stored b prepared.0.ingest_id)
                  (fetch_one (has_key stream_id s.id) rows))
              (prepare_for-streams host s site s.streaming_account_id),
      go_live_if-calls host code b site3
          ∙ ap (λ cs. if (code == 0) && not (is_blank b) then go_live (or_blank b) ∷ cs else cs)
              (persist-calls s.id b prepared.0.ingest_id prepared.1),
    )
