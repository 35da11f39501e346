-- ===== src/Streams/Worker/Laws.antt =====
-- What a job for a stream runs.
use content_fabric.Base.{
  ◌≡◌, ◌≢◌, refl, sym, ap, ◌∙◌, true, false, true-false, none, some, inl, inr, ◌⊎◌, ◌∷◌, ◌++◌,
  Bool-cases, Option-cases,
}
use content_fabric.Text.{Text, text, text_eq, text_mem, text_eq→eq, text_eq_refl}
use content_fabric.Youtube.{Outcome, returned, raised}
use content_fabric.Streams.{Stream, Host}
use content_fabric.Streams.Lifecycle.{reconcile}
use content_fabric.Streams.Worker.{
  StreamControlPayload, ControlSite, ControlReport, healed, output, control_error, actions,
  unit_for, stream_for, shown_id, heal_found, after_run, run_stream_control_job,
}

-- The end of a job with the action "reconcile": the stream of its id is healed as the
-- reconciliation does, or there is none, and nothing happens.
abbrev pub EndsHealed :
    Host → StreamControlPayload → ControlSite → ControlReport × ControlSite → Type 0
EndsHealed host payload site (report, site') =
    ((s : Stream) × (stream_for payload.stream_id site.streams ≡ some s)
      × (report ≡ healed (reconcile host s site.streams).0)
      × (site' ≡ record site { streams = (reconcile host s site.streams).1 }))
    ⊎ ((stream_for payload.stream_id site.streams ≡ none)
        × (report
            ≡ control_error (text "stream " ++ shown_id payload.stream_id ++ text " not found"))
        × (site' ≡ site))

-- The end of a job with an action of systemctl: that action is run once on the unit of the job, and
-- nothing else; its output is reported, or its error, with one alert.
abbrev pub EndsRun :
    (Text → Text → Outcome Text)
    → StreamControlPayload
    → ControlSite
    → ControlReport × ControlSite
    → Type 0
EndsRun systemctl payload site (report, site') =
    let unit = unit_for payload in
    (site'.streams ≡ site.streams)
    × (site'.runs ≡ (payload.action, unit) ∷ site.runs)
    × (((out : Text) × (systemctl payload.action unit ≡ returned out)
          × (report ≡ output out)
          × (site'.alerts ≡ site.alerts))
        ⊎ ((error : Text) × (systemctl payload.action unit ≡ raised error)
            × (report ≡ control_error error)
            × (site'.alerts
                ≡ (text "Stream control failed for " ++ unit ++ text ": " ++ error) ∷ site.alerts)))

-- What the action of a job decides.
abbrev pub EndsControl :
    Host
    → (Text → Text → Outcome Text)
    → StreamControlPayload
    → ControlSite
    → ControlReport × ControlSite
    → Type 0
EndsControl host systemctl payload site r =
    let a = payload.action in
    ((a ≡ text "reconcile") × EndsHealed host payload site r)
    ⊎ (((a ≡ text "start") ⊎ ((a ≡ text "stop") ⊎ ((a ≡ text "restart") ⊎ (a ≡ text "status"))))
        × EndsRun systemctl payload site r)
    ⊎ (((a ≢ text "reconcile")
          × (a ≢ text "start")
          × (a ≢ text "stop")
          × (a ≢ text "restart")
          × (a ≢ text "status"))
        × (r ≡ (control_error (text "Invalid action: " ++ a), site)))

text_eq-ne : (s t : Text) → text_eq s t ≡ false → s ≢ t
text_eq-ne s t h e = true-false (sym (text_eq_refl s) ∙ ap (text_eq s) e ∙ h)

action-cases :
    (a : Text)
    → ((text_mem a actions ≡ true)
        × ((a ≡ text "start") ⊎ ((a ≡ text "stop") ⊎ ((a ≡ text "restart") ⊎ (a ≡ text "status")))))
      ⊎ ((text_mem a actions ≡ false)
          × ((a ≢ text "start") × (a ≢ text "stop") × (a ≢ text "restart") × (a ≢ text "status")))
unfolding text_mem
action-cases a = elim (Bool-cases (text_eq a (text "start"))) [
  | inl e1 ↦ inl (rw e1 refl, inl (text_eq→eq a _ e1))
  | inr n1 ↦ elim (Bool-cases (text_eq a (text "stop"))) [
    | inl e2 ↦ inl (rw (n1, e2) refl, inr (inl (text_eq→eq a _ e2)))
    | inr n2 ↦ elim (Bool-cases (text_eq a (text "restart"))) [
      | inl e3 ↦ inl (rw (n1, n2, e3) refl, inr (inr (inl (text_eq→eq a _ e3))))
      | inr n3 ↦ elim (Bool-cases (text_eq a (text "status"))) [
        | inl e4 ↦ inl (rw (n1, n2, n3, e4) refl, inr (inr (inr (text_eq→eq a _ e4))))
        | inr n4 ↦ inr (
          rw (n1, n2, n3, n4) refl,
          (text_eq-ne a _ n1, text_eq-ne a _ n2, text_eq-ne a _ n3, text_eq-ne a _ n4),
        )
      ]
    ]
  ]
]

module _ (host : Host) (systemctl : Text → Text → Outcome Text) (payload : StreamControlPayload)
    (site : ControlSite) where
  heal_found-EndsHealed :
      EndsHealed host payload site
        (heal_found host payload site (stream_for payload.stream_id site.streams))
  heal_found-EndsHealed = elim (Option-cases (stream_for payload.stream_id site.streams)) [
    | inl missing ↦ rw missing (inr (refl, refl, refl))
    | inr (s, found) ↦ rw found (inl (s, refl, refl, refl))
  ]

  after_run-EndsRun :
      (o : Outcome Text)
      → systemctl payload.action (unit_for payload) ≡ o
      → EndsRun systemctl payload site (
          after_run
            (unit_for payload)
            (record site { runs = (payload.action, unit_for payload) ∷ site.runs })
            o)
  after_run-EndsRun (returned out) e = (refl, refl, inl (out, e, refl, refl))
  after_run-EndsRun (raised error) e = (refl, refl, inr (error, e, refl, refl))

  -- A job with the action "reconcile" heals the stream of its id as the reconciliation does, or
  -- says that there is none; one with "start", "stop", "restart" or "status" runs just that once on
  -- its unit, and reports the output or raises one alert with the error; any other job is an error
  -- and changes nothing.
  pub run_stream_control_job-EndsControl :
      EndsControl host systemctl payload site (run_stream_control_job host systemctl payload site)
  unfolding run_stream_control_job
  run_stream_control_job-EndsControl =
      elim (Bool-cases (text_eq payload.action (text "reconcile"))) [
        | inl heal ↦ rw heal (inl (text_eq→eq payload.action _ heal, heal_found-EndsHealed))
        | inr plain ↦ elim (action-cases payload.action) [
          | inl (known, which) ↦ rw (plain, known) (inr (inl (which, after_run-EndsRun _ refl)))
          | inr (unknown, none_of) ↦
              rw (plain, unknown)
                (inr (
                  inr (
                    (text_eq-ne payload.action _ plain, none_of.0, none_of.1, none_of.2, none_of.3),
                    refl,
                  )))
        ]
      ]
