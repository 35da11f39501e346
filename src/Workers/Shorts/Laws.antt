-- ===== src/Workers/Shorts/Laws.antt =====
-- What a shorts job leaves behind, whether it ends or breaks off.
use content_fabric.Base.{
  ℕ, ◌+◌, ◌<◌, ◌≡◌, refl, sym, ap, Bool, true, false, inl, inr, ◌⊎◌, List, [], ◌∷◌, ◌++◌, length,
  Bool-cases, arith,
}
use content_fabric.Text.{Text, text, or_blank, is_empty}
use content_fabric.Text.Decimal.{strip}
use content_fabric.Tasks.{Task, Db}
use content_fabric.Queue.{ShortsPayload}
use content_fabric.Youtube.{Outcome, returned, raised}
use content_fabric.Workers.{Site}
use content_fabric.Workers.Shorts.{
  Highlight, ShortsTools, ShortsReport, created_tasks, failed, skipped, report_of, when_true,
  run_shorts_job,
}
use mathlib.Core.List.{append-nil}
use content_fabric.Workers.Shorts.Rounds.{Slots, Cuts, Cuts-cut_shorts}

returned-eq : {a b : ℕ} → returned a ≡ returned (0 + b) → a ≡ b
returned-eq {a} {b} e = let same : a ≡ 0 + b = cc in omega (arith, same)

-- How a job ends: with the number of the tasks that it made and no alert, or with one alert more.
abbrev pub Reports : ℕ → Site → ShortsReport → Site → Type 0
Reports made site report site' =
    ((report ≡ created_tasks made) × (site'.alerts ≡ site.alerts))
    ⊎ ((message alert : Text) × ((report ≡ failed message) ⊎ (report ≡ skipped message))
        × (site'.alerts ≡ alert ∷ site.alerts))

abbrev pub EndsShorts :
    ShortsTools → ShortsPayload → List Highlight → Site → ShortsReport × Site → Type 0
EndsShorts tools payload highlights site (report, site') =
    (added : List Task) × (site'.db.tasks ≡ site.db.tasks ++ added)
    × Slots tools payload.shorts_channel_id (or_blank payload.donor_video_url) 0 (length highlights)
        added
    × Reports (length added) site report site'

module _ (tools : ShortsTools) (payload : ShortsPayload) (highlights : List Highlight)
    (site : Site) where
  report_of-EndsShorts :
      (result : Outcome ℕ × Db)
      → Cuts tools payload.shorts_channel_id
          (or_blank payload.donor_video_url)
          0
          (length highlights)
          0
          site.db
          result
      → EndsShorts tools payload highlights site (report_of payload.shorts_channel_id result site)
  report_of-EndsShorts (raised error, db) c =
      (c.added, c.tasks, c.slots, inr (error, _, inl refl, refl))
  report_of-EndsShorts (returned count, db) c = (
    c.added,
    c.tasks,
    c.slots,
    elim c.counted [
      | inl (error, broken) ↦ cc
      | inr all ↦ inl (ap created_tasks (returned-eq all), refl)
    ],
  )

  Cuts-when_true :
      (answer : Outcome Bool) (message : Text) (result : Outcome ℕ × Db)
      → Cuts tools payload.shorts_channel_id
          (or_blank payload.donor_video_url)
          0
          (length highlights)
          0
          site.db
          result
      → Cuts tools payload.shorts_channel_id
          (or_blank payload.donor_video_url)
          0
          (length highlights)
          0
          site.db
          (when_true answer message result site.db)
  Cuts-when_true (returned true) message result c = c
  Cuts-when_true (returned false) message result c = record {
    added = [];
    tasks = sym (append-nil site.db.tasks);
    slots = tt;
    counted = inl (message, refl);
  }
  Cuts-when_true (raised error) message result c = record {
    added = [];
    tasks = sym (append-nil site.db.tasks);
    slots = tt;
    counted = inl (error, refl);
  }

  -- A shorts job, whatever its tools answer, leaves new pending tasks at the end of the table, of
  -- different highlights in order, each due two hours times its index after its round; it ends with
  -- their number and no alert, or is broken off or skipped with one alert, and then the tasks made
  -- before stay.
  pub run_shorts_job-EndsShorts :
      0 < site.db.next_id
      → EndsShorts tools payload highlights site (run_shorts_job tools payload highlights site)
  unfolding run_shorts_job
  run_shorts_job-EndsShorts pos =
      elim (Bool-cases (is_empty (strip (or_blank payload.donor_video_url)))) [
        | inl missing ↦
            rw missing ([], sym (append-nil site.db.tasks), tt, inr (_, _, inr refl, refl))
        | inr there ↦ rw there (
            report_of-EndsShorts _ (
              Cuts-when_true tools.download_video (text "Failed to download donor video") _ (
                Cuts-when_true tools.transcribe (text "Failed to transcribe video") _ (
                  Cuts-cut_shorts tools payload.shorts_channel_id (or_blank payload.donor_video_url)
                    0 (length highlights) 0 site.db highlights (omega arith) pos))))
      ]
