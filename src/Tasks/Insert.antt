-- ===== src/Tasks/Insert.antt =====
-- prod/shared/db/repositories/task_repo.py: `create_task` and `create_tasks_batch`.
use content_fabric.Base.{ℕ, ◌+◌, Option, none, some, List, [], ◌∷◌, ◌++◌, first_some}
use content_fabric.Text.{Text}
use content_fabric.Json.{Json, serialize_json}
use content_fabric.Tasks.{pending, Task, Db}

-- the keyword arguments of `create_task`
pub record NewTask : Type 0 where
  pub channel_id : ℕ
  pub source_file_path : Text
  pub title : Text
  pub scheduled_at : ℕ
  pub media_type : Text
  pub thumbnail_path : Option Text
  pub description : Option Text
  pub keywords : Option Text
  pub post_comment : Option Text
  pub legacy_add_info : Option Json
  pub created_by : Option ℕ

-- The row that the INSERT makes; the columns that it does not name take their defaults.
abbrev pub new_row : ℕ → Text → ℕ → NewTask → ℕ → Task
new_row id uuid project t now = record {
  id = id;
  uuid = uuid;
  project_id = project;
  channel_id = t.channel_id;
  created_by = t.created_by;
  media_type = t.media_type;
  status = pending;
  source_file_path = some t.source_file_path;
  thumbnail_path = t.thumbnail_path;
  title = t.title;
  description = t.description;
  keywords = t.keywords;
  post_comment = t.post_comment;
  legacy_add_info = serialize_json t.legacy_add_info;
  scheduled_at = t.scheduled_at;
  completed_at = none;
  upload_id = none;
  error_message = none;
  retry_count = 0;
  created_at = now;
}

abbrev pub insert_task : Text → ℕ → ℕ → NewTask → Db → ℕ × Db
insert_task uuid now project t db = (
  db.next_id,
  record db {
    tasks = db.tasks ++ new_row db.next_id uuid project t now ∷ [];
    next_id = db.next_id + 1;
  },
)

abbrev pub insert_in : Text → ℕ → NewTask → Db → Option ℕ → Option (ℕ × Db)
insert_in uuid now t db none = none
insert_in uuid now t db (some project) = some (insert_task uuid now project t db)

-- `create_task`; `none` is the ValueError "no default project found".
unfoldable pub create_task : Text → ℕ → NewTask → Option ℕ → Db → Option (ℕ × Db)
create_task uuid now t project_id db =
    insert_in uuid now t db (first_some project_id db.default_project)

-- the loop of `create_tasks_batch`, inside one transaction
abbrev pub insert_batch : ℕ → ℕ → List (Text × NewTask) → Db → List ℕ × Db
insert_batch now project [] db = ([], db)
insert_batch now project ((uuid, t) ∷ ts) db =
    let (id, db') = insert_task uuid now project t db in
    let (ids, db'') = insert_batch now project ts db' in (id ∷ ids, db'')

abbrev pub insert_batch_in : ℕ → List (Text × NewTask) → Db → Option ℕ → Option (List ℕ × Db)
insert_batch_in now ts db none = none
insert_batch_in now ts db (some project) = some (insert_batch now project ts db)

unfoldable pub create_tasks_batch : ℕ → List (Text × NewTask) → Db → Option (List ℕ × Db)
create_tasks_batch now ts db = insert_batch_in now ts db db.default_project
