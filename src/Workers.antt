-- ===== src/Workers.antt =====
-- prod/workers: the voice worker and the DLE processor. The bootstrap of a job, its metrics and the
-- logs are left out.
pub mod Laws
pub mod Sora
pub mod Shorts
use content_fabric.Base.{
  ℕ, zero, suc, ◌+◌, Bool, true, false, Option, none, some, List, [], ◌∷◌, ◌++◌, if◌then◌else◌,
  take,
}
use content_fabric.Text.{Text, text, is_empty, is_blank, or_blank}
use content_fabric.Text.Decimal.{decimal}
use content_fabric.Tasks.{Task, Db, pending, failed}
use content_fabric.Tasks.Repo.{get_task, update_task_status, update_task}
use content_fabric.Queue.{VoiceChangePayload}
use content_fabric.Youtube.{Outcome, returned, raised}

-- The database, and the alerts to Telegram, the latest first.
pub record Site : Type 0 where
  pub db : Db
  pub alerts : List Text

-- How one call of `process_voice_change` ends: the file is written, a FileNotFoundError, or another
-- exception.
pub data VoiceResult : Type 0 where
  done : VoiceResult
  not_found : Text → VoiceResult
  broken : Text → VoiceResult

abbrev pub voice_attempt : (ℕ → VoiceResult) → VoiceChangePayload → ℕ → VoiceResult
voice_attempt change payload attempt =
    if is_empty payload.source_file_path
    then not_found (text "Source file path is empty for task " ++ decimal payload.task_id)
    else change attempt

abbrev pub voice_fails : ℕ → ℕ → Text → Text → Site → Bool × Site
voice_fails now task_id error alert site = (
  false,
  record {
    db = (update_task_status now task_id failed (some error) none site.db).1;
    alerts = alert ∷ site.alerts;
  },
)

abbrev pub after_voice : ℕ → VoiceChangePayload → Bool × Site → Site → VoiceResult → Bool × Site
after_voice now payload missing site done = (true, site)
after_voice now payload missing site (not_found error) = missing
after_voice now payload missing site (broken error) =
    voice_fails now payload.task_id error
      (text "Voice change task " ++ decimal payload.task_id ++ text " CRITICAL failure: " ++ error)
      site

abbrev pub error_of : VoiceResult → Text
error_of (not_found error) = error
error_of (broken error) = error
error_of done = []

abbrev pub missing_source : ℕ → VoiceChangePayload → Text → Site → Bool × Site
missing_source now payload error site =
    voice_fails now payload.task_id (text "Missing source file after 3 attempts")
      (text "Voice change task " ++ decimal payload.task_id ++ text " failed: " ++ error) site

-- The loop from an attempt on, with the attempts left after it; only a FileNotFoundError goes on.
unfoldable pub voice_attempts :
    (ℕ → VoiceResult) → ℕ → VoiceChangePayload → ℕ → ℕ → Site → Bool × Site
voice_attempts change now payload zero attempt site =
    let result = voice_attempt change payload attempt in
    after_voice now payload (missing_source now payload (error_of result) site) site result
voice_attempts change now payload (suc left) attempt site =
    let rest = voice_attempts change now payload left (suc attempt) site in
    after_voice now payload rest site (voice_attempt change payload attempt)

-- with three attempts
unfoldable pub process_voice_change_job :
    (ℕ → VoiceResult) → ℕ → VoiceChangePayload → Site → Bool × Site
unfolding voice_attempts
process_voice_change_job change now payload site = voice_attempts change now payload 2 1 site

pub data DleReport : Type 0 where
  video_ready : Text → DleReport
  not_processed : DleReport

abbrev pub dle_fails : ℕ → Text → Text → Site → DleReport × Site
dle_fails task_id error alert site = (
  not_processed,
  record {
    db =
        (update_task task_id
          (record {
            new_status = some failed;
            new_source_file_path = none;
            new_error_message = some error;
          })
          site.db).1;
    alerts = alert ∷ site.alerts;
  },
)

abbrev pub dle_processed : Task → ℕ → Site → Outcome (Option Text) → DleReport × Site
dle_processed t task_id site (raised error) =
    dle_fails task_id (text "DLE processor exception: " ++ take 500 error)
      (text "❌ DLE Processor Exception\nTask " ++ decimal task_id ++ text ": " ++ take 200 error)
      site
dle_processed t task_id site (returned path) =
    if is_blank path
    then dle_fails task_id (text "DLE processor failed to generate video")
        (text "❌ DLE Processor Error\nTask "
          ++ decimal task_id
          ++ text ": "
          ++ t.title
          ++ text "\nFailed to generate video")
        site
    else (
      video_ready (or_blank path),
      record {
        db =
            (update_task task_id
              (record {
                new_status = some pending;
                new_source_file_path = path;
                new_error_message = none;
              })
              site.db).1;
        alerts =
            (text "✅ DLE Video Ready\nTask " ++ decimal task_id ++ text ": " ++ t.title)
            ∷ site.alerts;
      },
    )

abbrev pub dle_found : (Task → Outcome (Option Text)) → ℕ → Site → Option Task → DleReport × Site
dle_found process task_id site none = (not_processed, site)
dle_found process task_id site (some t) = dle_processed t task_id site (process t)

-- `process` is `DleProcessor.process_task`.
unfoldable pub process_dle_task : (Task → Outcome (Option Text)) → ℕ → Site → DleReport × Site
process_dle_task process task_id site = dle_found process task_id site (get_task site.db task_id)
