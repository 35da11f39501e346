-- ===== src/Tasks/Invariant.antt =====
-- Every operation of task_repo.py that writes, as one request, and what all of them keep.
pub mod Rows
pub mod Runs
use content_fabric.Base.{
  ℕ, ◌≤◌, ◌<◌, ◌≡◌, true, false, ◌==◌, ◌++◌, any_of, Option, none, some, List, [], ◌∷◌, is_some,
  All,
}
use content_fabric.Text.{Text}
use content_fabric.Table.{Distinct}
use content_fabric.Tasks.{TaskStatus, completed, Task, Db}
use content_fabric.Tasks.Repo.{
  NewTask, TaskFields, create_task, create_tasks_batch, update_task_status, update_task,
  mark_task_processing, mark_task_completed, mark_task_failed, update_task_upload_id, retry_task,
  retry_all_failed_by_channel, cancel_task, update_task_scheduled_at, delete_task,
}

pub data Request : Type 0 where
  create : (uuid : Text) (now : ℕ) (t : NewTask) (project : Option ℕ) → Request
  create_batch : (now : ℕ) (ts : List (Text × NewTask)) → Request
  set_status :
      (now task_id : ℕ) (status : TaskStatus) (error : Option Text) (at : Option ℕ) → Request
  set_fields : (task_id : ℕ) (fields : TaskFields) → Request
  mark_processing : (now task_id : ℕ) → Request
  mark_completed : (now task_id : ℕ) (upload_id : Option Text) → Request
  mark_failed : (now task_id : ℕ) (error : Option Text) → Request
  set_upload_id : (task_id : ℕ) (upload_id : Text) → Request
  retry : (task_id : ℕ) → Request
  retry_channel : (channel : ℕ) → Request
  cancel : (task_id : ℕ) → Request
  reschedule : (task_id scheduled_at : ℕ) → Request
  delete : (task_id : ℕ) → Request

-- A request that raises leaves the database as it was.
abbrev pub or_same {ℓ} : {A : Type ℓ} → Db → Option (A × Db) → Db
or_same db none = db
or_same db (some (_, db')) = db'

unfoldable pub perform : Request → Db → Db
perform (create uuid now t project) db = or_same db (create_task uuid now t project db)
perform (create_batch now ts) db = or_same db (create_tasks_batch now ts db)
perform (set_status now k status error at) db = (update_task_status now k status error at db).1
perform (set_fields k fields) db = (update_task k fields db).1
perform (mark_processing now k) db = (mark_task_processing now k db).1
perform (mark_completed now k upload_id) db = (mark_task_completed now k upload_id db).1
perform (mark_failed now k error) db = (mark_task_failed now k error db).1
perform (set_upload_id k upload_id) db = (update_task_upload_id k upload_id db).1
perform (retry k) db = (retry_task k db).1
perform (retry_channel channel) db = (retry_all_failed_by_channel channel db).1
perform (cancel k) db = (cancel_task k db).1
perform (reschedule k at) db = (update_task_scheduled_at k at db).1
perform (delete k) db = (delete_task k db).1

-- The scheduler, the workers and the API in any order.
unfoldable pub perform_all : List Request → Db → Db
unfolding perform
perform_all [] db = db
perform_all (r ∷ rs) db = perform_all rs (perform r db)

-- `update_task` does not stamp a task that it completes; so the ids for which it is called with
-- COMPLETED.
abbrev pub completing : ℕ → Option TaskStatus → List ℕ
completing k (some completed) = k ∷ []
completing k _ = []

abbrev pub unstamped_by : Request → List ℕ
unstamped_by (set_fields k fields) = completing k fields.new_status
unstamped_by _ = []

abbrev pub unstamped_ids : List Request → List ℕ
unstamped_ids [] = []
unstamped_ids (r ∷ rs) = unstamped_by r ++ unstamped_ids rs

-- These ids are among the ones given.
abbrev pub IsCovered : List ℕ → Request → Type 0
IsCovered ks (set_fields k fields) =
    fields.new_status ≡ some completed → any_of (λ j. j == k) ks ≡ true
IsCovered ks _ = Unit

abbrev pub key : Task → ℕ
key t = t.id

-- A completed task has the time of its completion, unless it is one of those.
abbrev pub IsStamped : List ℕ → Task → Type 0
IsStamped ks t =
    t.status ≡ completed → any_of (λ j. j == t.id) ks ≡ false → is_some t.completed_at ≡ true

pub record IsValidBut (ks : List ℕ) (db : Db) : Type 0 where
  pub distinct : Distinct key db.tasks
  pub below : All (λ t. t.id < db.next_id) db.tasks
  pub stamped : All (IsStamped ks) db.tasks

abbrev pub IsValid : Db → Type 0
IsValid = IsValidBut []

-- What no operation changes in a task, and the retry count that none lowers.
pub record Kept (t u : Task) : Type 0 where
  pub same_id : u.id ≡ t.id
  pub same_uuid : u.uuid ≡ t.uuid
  pub same_project : u.project_id ≡ t.project_id
  pub same_channel : u.channel_id ≡ t.channel_id
  pub same_owner : u.created_by ≡ t.created_by
  pub same_title : u.title ≡ t.title
  pub same_info : u.legacy_add_info ≡ t.legacy_add_info
  pub retries : t.retry_count ≤ u.retry_count
