-- ===== src/Scheduler/Poll.antt =====
-- prod/scheduler/jobs.py: `enqueue_pending_tasks`.
pub mod Laws
pub mod Statuses
use content_fabric.Base.{
  ℕ, ◌+◌, Bool, true, false, ◌&&◌, Option, none, some, List, [], ◌∷◌, if◌then◌else◌,
}
use content_fabric.Text.{Text, text, is_empty, is_blank, or_blank}
use content_fabric.Json.{Json, null, bool, num, str, arr, obj, has_field}
use content_fabric.Tasks.{Task, Db, pending}
use content_fabric.Tasks.Repo.{mark_task_processing, update_task_status}
use content_fabric.Tasks.Queries.{get_pending_tasks}
use content_fabric.Youtube.{VideoUploadPayload}
use content_fabric.Queue.{VoiceChangePayload, Job, video_upload, voice_change, enqueue}

pub record State : Type 0 where
  pub db : Db
  pub queue : List Job

-- `isinstance(legacy, dict) and "dle_source" in legacy`, for `legacy_add_info or {}`
abbrev pub is_dle : Option Json → Bool
is_dle none = false
is_dle (some (obj fields)) = has_field (text "dle_source") fields
is_dle (some _) = false

abbrev pub needs_voice : Task → Bool
needs_voice t = is_blank t.source_file_path && is_dle t.legacy_add_info

abbrev pub voice_payload : Task → VoiceChangePayload
voice_payload t = record {
  task_id = t.id;
  source_file_path = [];
  output_file_path = [];
  voice_model = none;
}

abbrev pub upload_payload : Task → VideoUploadPayload
upload_payload t = record {
  task_id = t.id;
  channel_id = t.channel_id;
  source_file_path = or_blank t.source_file_path;
  title = t.title;
  description = t.description;
  keywords = t.keywords;
  thumbnail_path = t.thumbnail_path;
  post_comment = t.post_comment;
  media_type = if is_empty t.media_type then text "video" else t.media_type;
}

-- The routing: a DLE task with no file goes to the voice queue, all others are published.
unfoldable pub job_of : Task → Job
job_of t = if needs_voice t then voice_change (voice_payload t) else video_upload (upload_payload t)

-- After the task is marked as processing: count it, or make it pending again.
abbrev pub after_enqueue : ℕ → Task → ℕ → List Job → Db → Option (List Job) → ℕ × State
after_enqueue now t count queue db (some queue') = (count + 1, record { db = db; queue = queue' })
after_enqueue now t count queue db none =
    (count, record { db = (update_task_status now t.id pending none none db).1; queue = queue })

abbrev pub enqueue_task : (Job → Bool) → ℕ → Task → ℕ × State → ℕ × State
enqueue_task redis now t (count, st) =
    after_enqueue now t count st.queue (mark_task_processing now t.id st.db).1
      (enqueue redis (job_of t) st.queue)

unfoldable pub enqueue_all : (Job → Bool) → ℕ → List Task → ℕ × State → ℕ × State
enqueue_all redis now [] s = s
enqueue_all redis now (t ∷ ts) s = enqueue_all redis now ts (enqueue_task redis now t s)

abbrev pub poll_limit : ℕ
poll_limit = 50

unfoldable pub enqueue_pending_tasks : (Job → Bool) → ℕ → State → ℕ × State
unfolding enqueue_all
enqueue_pending_tasks redis now st =
    enqueue_all redis now (get_pending_tasks now (some poll_limit) st.db) (0, st)
