-- ===== src/Tests/Data.antt =====
-- The tasks, users and channels of the concrete runs.
use content_fabric.Base.{ℕ, true, false, Option, none, some, [], ◌∷◌}
use content_fabric.Text.{Text, text}
use content_fabric.Json.{Json, obj, field, end, str}
use content_fabric.Channels.{Channel, Console}
use content_fabric.Tasks.{TaskStatus, pending, failed, Task, Db}
use content_fabric.Users.{User, status_active}

abbrev pub task_of : ℕ → ℕ → TaskStatus → Option Text → Option Json → Task
task_of id owner status path info = record {
  id = id;
  uuid = text "u";
  project_id = 1;
  channel_id = 7;
  created_by = some owner;
  media_type = text "video";
  status = status;
  source_file_path = path;
  thumbnail_path = none;
  title = text "A";
  description = none;
  keywords = none;
  post_comment = none;
  legacy_add_info = info;
  scheduled_at = 10;
  completed_at = none;
  upload_id = none;
  error_message = none;
  retry_count = 0;
  created_at = 5;
}

abbrev pub a_task : Task
a_task = task_of 1 5 pending (some (text "a.mp4")) none

abbrev pub failed_task : Task
failed_task = task_of 2 5 failed (some (text "b.mp4")) none

abbrev pub dle_task : Task
dle_task =
    task_of 3 5 pending none
      (some (obj (field (text "dle_source") (str (text "bazaknig_net")) end)))

abbrev pub a_channel : Channel
a_channel = record {
  id = 7;
  uuid = text "c";
  project_id = 1;
  name = text "C";
  platform_channel_id = text "UC";
  console_id = some 3;
  enabled = true;
  access_token = some (text "at");
  refresh_token = some (text "rt");
  token_expires_at = none;
  created_by = some 5;
  token_checked_at = none;
  token_check_ok = none;
  created_at = 0;
}

abbrev pub a_console : Console
a_console = record { id = 3; client_id = text "ci"; client_secret = text "cs" }

abbrev pub a_db : Db
a_db = record {
  tasks = a_task ∷ failed_task ∷ dle_task ∷ [];
  next_id = 4;
  notifications = [];
  default_project = some 1;
  channels = a_channel ∷ [];
  consoles = a_console ∷ [];
}

abbrev pub user_of : ℕ → ℕ → User
user_of id status = record {
  id = id;
  uuid = text "u";
  username = text "n";
  email = text "e";
  password_hash = some (text "h");
  auth_key = text "k";
  display_name = none;
  status = status;
  timezone = none;
  totp_secret = none;
  totp_enabled = false;
  totp_backup_codes = [];
  last_login_at = none;
  password_reset_token = none;
  verification_token = none;
}

abbrev pub owner : User
owner = user_of 5 status_active

abbrev pub stranger : User
stranger = user_of 6 status_active
