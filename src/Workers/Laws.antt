-- ===== src/Workers/Laws.antt =====
-- How the jobs of the workers end.
use content_fabric.Base.{ℕ, ◌≡◌, refl, ap, ◌∙◌, true, false, Option, none, some, [], ◌∷◌}
use mathlib.Core.Option
use content_fabric.Text.{Text, text}
use content_fabric.Tasks.{Task, pending, failed}
use content_fabric.Tasks.Repo.{get_task, set_status_row, update_task_status, update_task}
use content_fabric.Tasks.Repo.Laws.{update_by_id-writes}
use content_fabric.Queue.{voice_change}
use content_fabric.Youtube.{Outcome, returned, raised}
use content_fabric.Scheduler.Poll.{needs_voice, voice_payload, job_of}
use content_fabric.Workers.{
  Site, VoiceResult, process_voice_change_job, DleReport, video_ready, not_processed, dle_processed,
  process_dle_task, voice_attempts,
}

-- A due DLE task that has no file yet is sent by the scheduler to the voice worker with an empty
-- path, and there it fails after three attempts, whatever the voice changer would do.
pub job_of-fails :
    (change : ℕ → VoiceResult) (now : ℕ) (t u : Task) (site : Site)
    → needs_voice t ≡ true
    → get_task site.db t.id ≡ some u
    → (job_of t ≡ voice_change (voice_payload t))
      × (let (done, site') = process_voice_change_job change now (voice_payload t) site in
          (done ≡ false)
          × (get_task site'.db t.id
              ≡ some (
                  set_status_row now failed
                    (some (text "Missing source file after 3 attempts"))
                    none
                    u)))
unfolding job_of process_voice_change_job voice_attempts update_task_status
job_of-fails change now t u site voice found = (
  rw voice refl,
  (refl, update_by_id-writes t.id _ site.db (λ r. refl) ∙ ap (Option.map _) found),
)

abbrev pub ready_row : Text → Task → Task
ready_row path t = record t { status = pending; source_file_path = some path }

abbrev pub failed_row : Text → Task → Task
failed_row error t = record t { status = failed; error_message = some error }

-- The row after the processing: pending with the path of the video, or failed with an error.
abbrev pub IsProcessed : ℕ → Task → DleReport × Site → Type 0
IsProcessed k t (video_ready path, site) = get_task site.db k ≡ some (ready_row path t)
IsProcessed k t (not_processed, site) =
    (error : Text) × (get_task site.db k ≡ some (failed_row error t))

processed :
    (k : ℕ) (t : Task) (site : Site) (result : Outcome (Option Text))
    → get_task site.db k ≡ some t
    → IsProcessed k t (dle_processed t k site result)
unfolding update_task
processed k t site (raised error) found =
    (_, update_by_id-writes k _ site.db (λ r. refl) ∙ ap (Option.map _) found)
processed k t site (returned none) found =
    (_, update_by_id-writes k _ site.db (λ r. refl) ∙ ap (Option.map _) found)
processed k t site (returned (some [])) found =
    (_, update_by_id-writes k _ site.db (λ r. refl) ∙ ap (Option.map _) found)
processed k t site (returned (some (c ∷ path))) found =
    update_by_id-writes k _ site.db (λ r. refl) ∙ ap (Option.map _) found

-- A DLE task is either made pending with the path of its video, or failed with an error; nothing else
-- of it changes, whatever the processor returns or raises.
pub process_dle_task-IsProcessed :
    (process : Task → Outcome (Option Text)) (k : ℕ) (t : Task) (site : Site)
    → get_task site.db k ≡ some t
    → IsProcessed k t (process_dle_task process k site)
unfolding process_dle_task
process_dle_task-IsProcessed process k t site found =
    rw found (processed k t site (process t) found)
