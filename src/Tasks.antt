-- ===== src/Tasks.antt =====
-- prod/shared/db/models.py and prod/shared/db/repositories/task_repo.py: the rows of
-- `content_upload_queue_tasks`, and the database as the operations on tasks see it.
pub mod Insert
pub mod Repo
pub mod Queries
pub mod Invariant
use content_fabric.Base.{ℕ, Bool, Option, List}
use content_fabric.Text.{Text}
use content_fabric.Json.{Json}
use content_fabric.Channels.{Channel, Console}

pub data TaskStatus : Type 0 where
  pending completed failed processing cancelled : TaskStatus

-- the column's value
abbrev pub value : TaskStatus → ℕ
value pending = 0
value completed = 1
value failed = 2
value processing = 3
value cancelled = 4

pub record Task : Type 0 where
  pub id : ℕ
  pub uuid : Text
  pub project_id : ℕ
  pub channel_id : ℕ
  pub created_by : Option ℕ
  pub media_type : Text
  pub status : TaskStatus
  pub source_file_path : Option Text
  pub thumbnail_path : Option Text
  pub title : Text
  pub description : Option Text
  pub keywords : Option Text
  pub post_comment : Option Text
  pub legacy_add_info : Option Json
  pub scheduled_at : ℕ
  pub completed_at : Option ℕ
  pub upload_id : Option Text
  pub error_message : Option Text
  pub retry_count : ℕ
  pub created_at : ℕ

-- a row of `notifications`
pub record Notification : Type 0 where
  pub user_id : ℕ
  pub type : Text
  pub title : Text
  pub message : Option Text
  pub is_read : Bool
  pub created_at : ℕ

pub record Db : Type 0 where
  pub tasks : List Task
  pub next_id : ℕ
  pub notifications : List Notification
  pub default_project : Option ℕ
  pub channels : List Channel
  pub consoles : List Console
