-- ===== src/Tasks/Repo.antt =====
-- prod/shared/db/repositories/task_repo.py: the operations that write. `now` is `datetime.now()` or
-- the server's clock, and `uuid` what `uuid4()` returns.
pub mod Laws
pub mod Marks
pub use content_fabric.Tasks.Insert.{NewTask}
unfoldable pub use content_fabric.Tasks.Insert.{
  new_row, insert_task, insert_in, create_task, insert_batch, insert_batch_in, create_tasks_batch,
}
use content_fabric.Base.{
  ℕ, ◌+◌, Bool, true, false, not, ◌&&◌, ◌||◌, Option, none, some, List, [], ◌∷◌, ◌++◌, ltb, ◌==◌,
  if◌then◌else◌, is_some, take, first_some,
}
use content_fabric.Text.{Text, text, is_blank, is_empty, or_blank}
use content_fabric.Text.Decimal.{decimal}
use content_fabric.Json.{Json, serialize_json}
use content_fabric.Table.{fetch_one, update_where, delete_where, count_where, has_key}
use content_fabric.Tasks.{TaskStatus, pending, completed, failed, processing, cancelled, Task, Db}

abbrev pub get_task : Db → ℕ → Option Task
get_task db task_id = fetch_one (has_key (λ t. t.id) task_id) db.tasks

-- `UPDATE … WHERE id = :tid AND guard`, and whether a row was matched
abbrev pub update_by_id : ℕ → (Task → Bool) → (Task → Task) → Db → Bool × Db
update_by_id task_id guard f db =
    let matches = λ (t : Task). has_key (λ r. r.id) task_id t && guard t in
    (ltb 0 (count_where matches db.tasks), record db { tasks = update_where matches f db.tasks })

abbrev pub always : Task → Bool
always t = true

-- `status in (COMPLETED, FAILED, CANCELLED)`
abbrev pub is_final : TaskStatus → Bool
is_final completed = true
is_final failed = true
is_final cancelled = true
is_final _ = false

abbrev pub completion : ℕ → TaskStatus → Option ℕ → Option ℕ
completion now status completed_at =
    if not (is_some completed_at) && is_final status then some now else completed_at

abbrev pub set_status_row : ℕ → TaskStatus → Option Text → Option ℕ → Task → Task
set_status_row now status error completed_at t = record t {
  status = status;
  completed_at = completion now status completed_at;
  error_message = error;
}

unfoldable pub update_task_status : ℕ → ℕ → TaskStatus → Option Text → Option ℕ → Db → Bool × Db
update_task_status now task_id status error completed_at =
    update_by_id task_id always (set_status_row now status error completed_at)

-- The fields that the callers hand to `update_task`; `build_update` drops those that are None.
pub record TaskFields : Type 0 where
  pub new_status : Option TaskStatus
  pub new_source_file_path : Option Text
  pub new_error_message : Option Text

abbrev pub or_old {ℓ} : {A : Type ℓ} → Option A → A → A
or_old none old = old
or_old (some new) old = new

abbrev pub or_old_option {ℓ} : {A : Type ℓ} → Option A → Option A → Option A
or_old_option none old = old
or_old_option (some new) old = some new

-- `update_task`: False with no statement made if every field is None
unfoldable pub update_task : ℕ → TaskFields → Db → Bool × Db
update_task task_id fields db =
    if is_some fields.new_status
      || is_some fields.new_source_file_path
      || is_some fields.new_error_message
    then update_by_id task_id always
        (λ t. record t {
          status = or_old fields.new_status t.status;
          source_file_path = or_old_option fields.new_source_file_path t.source_file_path;
          error_message = or_old_option fields.new_error_message t.error_message;
        })
        db
    else (false, db)

unfoldable pub mark_task_processing : ℕ → ℕ → Db → Bool × Db
unfolding update_task_status
mark_task_processing now task_id = update_task_status now task_id processing none none

abbrev pub notification_create : ℕ → ℕ → Text → Text → Option Text → Db → Db
notification_create now user type title message db = record db {
  notifications =
      db.notifications
      ++ record {
        user_id = user;
        type = type;
        title = title;
        message = message;
        is_read = false;
        created_at = now;
      }
        ∷ [];
}

abbrev pub title_or_number : Task → Text
title_or_number t = if is_empty t.title then text "Task #" ++ decimal t.id else t.title

-- The lines of the message. `_row_to_dict` gives no `channel_name`, so there is no channel line.
abbrev pub notice_message : Option Text → Option Text → Text
notice_message upload_id error =
    (if is_blank upload_id
      then []
      else text "\nYouTube: https://youtube.com/watch?v=" ++ or_blank upload_id)
    ++ (if is_blank error then [] else text "\nError: " ++ take 200 (or_blank error))

-- `msg or None`
abbrev pub non_empty : Text → Option Text
non_empty [] = none
non_empty (c ∷ s) = some (c ∷ s)

abbrev pub notify_owner : ℕ → Text → Text → Option Text → Option Text → Task → Option ℕ → Db → Db
notify_owner now type prefix upload_id error t none db = db
notify_owner now type prefix upload_id error t (some user) db =
    if user == 0
    then db
    else notification_create now user type (prefix ++ text ": " ++ take 80 (title_or_number t))
        (non_empty (notice_message upload_id error)) db

abbrev pub notify_found : ℕ → Text → Text → Option Text → Option Text → Db → Option Task → Db
notify_found now type prefix upload_id error db none = db
notify_found now type prefix upload_id error db (some t) =
    notify_owner now type prefix upload_id error t t.created_by db

-- `_notify_task`: only a task with an owner is notified of.
unfoldable pub notify_task : ℕ → ℕ → Text → Text → Option Text → Option Text → Db → Db
notify_task now task_id type prefix upload_id error db =
    notify_found now type prefix upload_id error db (get_task db task_id)

-- `if ok: _notify_task(…)`
abbrev pub notify_if : ℕ → ℕ → Text → Text → Option Text → Option Text → Bool × Db → Bool × Db
notify_if now task_id type prefix upload_id error (done, db) =
    (done, if done then notify_task now task_id type prefix upload_id error db else db)

abbrev pub set_completed : ℕ → Option Text → Task → Task
set_completed now upload_id t = record t {
  status = completed;
  completed_at = some now;
  upload_id = upload_id;
}

unfoldable pub mark_task_completed : ℕ → ℕ → Option Text → Db → Bool × Db
unfolding notify_task
mark_task_completed now task_id upload_id db =
    notify_if now task_id (text "task") (text "Task completed") upload_id none
      (update_by_id task_id always (set_completed now upload_id) db)

unfoldable pub mark_task_failed : ℕ → ℕ → Option Text → Db → Bool × Db
unfolding notify_task update_task_status
mark_task_failed now task_id error db =
    notify_if now task_id (text "error") (text "Task failed") none error
      (update_task_status now task_id failed error none db)

unfoldable pub update_task_upload_id : ℕ → Text → Db → Bool × Db
update_task_upload_id task_id upload_id =
    update_by_id task_id always (λ t. record t { upload_id = some upload_id })

-- `status IN (2, 4)`
abbrev pub can_retry : TaskStatus → Bool
can_retry failed = true
can_retry cancelled = true
can_retry _ = false

-- `status IN (0, 3)`
abbrev pub is_open : TaskStatus → Bool
is_open pending = true
is_open processing = true
is_open _ = false

abbrev pub reset : Task → Task
reset t = record t { status = pending; error_message = none; retry_count = t.retry_count + 1 }

unfoldable pub retry_task : ℕ → Db → Bool × Db
retry_task task_id = update_by_id task_id (λ t. can_retry t.status) reset

unfoldable pub retry_all_failed_by_channel : ℕ → Db → ℕ × Db
retry_all_failed_by_channel channel db =
    let matches = λ (t : Task). (t.channel_id == channel) && can_retry t.status in
    (count_where matches db.tasks, record db { tasks = update_where matches reset db.tasks })

unfoldable pub cancel_task : ℕ → Db → Bool × Db
cancel_task task_id =
    update_by_id task_id (λ t. is_open t.status) (λ t. record t { status = cancelled })

unfoldable pub update_task_scheduled_at : ℕ → ℕ → Db → Bool × Db
update_task_scheduled_at task_id scheduled_at =
    update_by_id task_id (λ t. is_open t.status) (λ t. record t { scheduled_at = scheduled_at })

unfoldable pub delete_task : ℕ → Db → Bool × Db
delete_task task_id db =
    let matches = has_key (λ (t : Task). t.id) task_id in
    (ltb 0 (count_where matches db.tasks), record db { tasks = delete_where matches db.tasks })
