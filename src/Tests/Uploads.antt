-- ===== src/Tests/Uploads.antt =====
-- Runs of an upload, of its requests, and of the workers.
use content_fabric.Base.{
  ℕ, zero, suc, true, ◌≤◌, ◌<◌, ◌≡◌, ◌∷◌, refl, false, none, some, [], arith, length,
}
use content_fabric.Text.{text, contains_text, starts_with}
use content_fabric.Json.{has_field}
use content_fabric.Tasks.{processing}
use content_fabric.Tasks.Repo.{set_status_row}
use content_fabric.Youtube.{returned, Google, Answer, with_id, broken}
use content_fabric.Youtube.Client.{resumable_upload, resumable_max_retries, video_body}
use content_fabric.Youtube.Client.Laws.{IsTransient, resumable_upload-recovers, video_body-bounds}
use content_fabric.Youtube.Upload.{World, process_upload}
use content_fabric.Youtube.Upload.Laws.{Ends, process_upload-Ends}
use content_fabric.Scheduler.Poll.{upload_payload, voice_payload}
use content_fabric.Workers.{Site, done, process_voice_change_job}
use content_fabric.Workers.Laws.{job_of-fails}
use content_fabric.Queue.{SoraPayload}
use content_fabric.Workers.Sora.{Post, run_sora_job}
use content_fabric.Workers.Sora.Laws.{run_sora_job_lem}
use content_fabric.Tests.Data.{a_task, dle_task, a_db}

-- The first call is broken off, the second gives the id.
abbrev second_try : ℕ → Answer
second_try zero = broken (text "reset")
second_try (suc n) = with_id (text "v1")

abbrev a_google : Google
a_google = record {
  expired = λ now expiry. false;
  refresh = λ now creds. returned creds;
  answers = λ creds body path. second_try;
}

abbrev a_world : World
a_world = record { db = a_db; progress = []; alerts = []; liked = []; comments = []; removed = [] }

process_upload-Ends_example :
    Ends 50
      (upload_payload a_task)
      (set_status_row 50 processing none none a_task)
      a_world
      (process_upload a_google 50 (upload_payload a_task) a_world)
process_upload-Ends_example =
    process_upload-Ends a_google 50 (upload_payload a_task) a_task a_world refl

first_fails : (i : ℕ) → i < 1 → IsTransient (second_try i)
unfolding contains_text starts_with
first_fails zero lt = refl
first_fails (suc i) lt = absurd (omega (arith, lt))

resumable_upload-recovers_example :
    resumable_upload resumable_max_retries 0 second_try ≡ returned (some (text "v1"))
resumable_upload-recovers_example =
    resumable_upload-recovers 1 second_try (text "v1") (omega arith) first_fails refl

-- Other answers from the fifth call on.
abbrev broken_later : ℕ → Answer
broken_later zero = broken (text "reset")
broken_later (suc zero) = with_id (text "v1")
broken_later (suc (suc zero)) = with_id (text "v1")
broken_later (suc (suc (suc zero))) = with_id (text "v1")
broken_later (suc (suc (suc (suc n)))) = broken (text "x")

first_four : (i : ℕ) → i < 4 → second_try i ≡ broken_later i
first_four zero lt = refl
first_four (suc zero) lt = refl
first_four (suc (suc zero)) lt = refl
first_four (suc (suc (suc zero))) lt = refl
first_four (suc (suc (suc (suc i)))) lt = absurd (omega (arith, lt))

video_body-bounds_example : length (video_body (text "A") (some (text "B")) []).snippet_title ≤ 100
video_body-bounds_example = (video_body-bounds (text "A") (some (text "B")) []).0

abbrev a_site : Site
a_site = record { db = a_db; alerts = [] }

job_of-fails_example :
    (process_voice_change_job (λ n. done) 50 (voice_payload dle_task) a_site).0 ≡ false
unfolding has_field
job_of-fails_example = (job_of-fails (λ n. done) 50 dle_task dle_task a_site refl refl).1.0

abbrev a_post : Post
a_post = record { post_id = some (text "p1"); video_url = some (text "url"); views = 5000 }

abbrev a_payload : SoraPayload
a_payload = record {
  sora_channel_id = 19;
  posts = 3;
  sora_media_type = text "shorts";
  min_views = 1000;
}

run_sora_job_example :
    (run_sora_job
      (λ j. true)
      (λ url. some (text "f"))
      a_payload
      (a_post ∷ [])
      (text "p0" ∷ [])
      []).queued
    ≤ 3
run_sora_job_example =
    (run_sora_job_lem (λ j. true) (λ url. some (text "f")) a_payload (a_post ∷ []) (text "p0" ∷ [])
      []).3
