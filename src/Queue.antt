-- ===== src/Queue.antt =====
-- prod/shared/queue/publisher.py and types.py: the jobs, and putting one into its queue. The trace
-- ids and the job ids are left out.
use content_fabric.Base.{ℕ, Bool, Option, none, some, List, [], ◌∷◌, ◌++◌, if◌then◌else◌}
use content_fabric.Text.{Text, text}
use content_fabric.Youtube.{VideoUploadPayload}

pub record VoiceChangePayload : Type 0 where
  pub task_id : ℕ
  pub source_file_path : Text
  pub output_file_path : Text
  pub voice_model : Option Text

pub record DleIngestionPayload : Type 0 where
  pub source_slug : Text
  pub channel_id : ℕ
  pub limit : ℕ
  pub media_type : Text

pub record ShortsPayload : Type 0 where
  pub shorts_channel_id : ℕ
  pub donor_video_url : Option Text
  pub highlights : ℕ

pub record SoraPayload : Type 0 where
  pub sora_channel_id : ℕ
  pub posts : ℕ
  pub sora_media_type : Text
  pub min_views : ℕ

pub record DleProcessingPayload : Type 0 where
  pub dle_task_id : ℕ

pub data Job : Type 0 where
  video_upload : VideoUploadPayload → Job
  voice_change : VoiceChangePayload → Job
  dle_ingestion : DleIngestionPayload → Job
  shorts : ShortsPayload → Job
  sora : SoraPayload → Job
  dle_processing : DleProcessingPayload → Job

-- the queue that a job goes to
abbrev pub queue_name : Job → Text
queue_name (video_upload p) = text "publishing"
queue_name (voice_change p) = text "voice"
queue_name (dle_ingestion p) = text "dle_ingestion"
queue_name (shorts p) = text "shorts"
queue_name (sora p) = text "sora"
queue_name (dle_processing p) = text "dle_processing"

-- `Queue(queue_name(job)).enqueue(…)`, in the order of the calls. `redis` says which jobs Redis
-- takes; `none` is the exception that rq raises for the others.
abbrev pub enqueue : (Job → Bool) → Job → List Job → Option (List Job)
enqueue redis job queue = if redis job then some (queue ++ job ∷ []) else none
