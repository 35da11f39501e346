-- ===== src/Api/Tasks.antt =====
-- prod/app/api/endpoints/tasks.py: the handlers on tasks.
pub mod Ownership
pub mod Changes
use content_fabric.Base.{
  ℕ, Bool, true, false, not, ◌&&◌, ◌||◌, Option, none, some, List, [], ◌∷◌, ltb, if◌then◌else◌,
  length, map, all_of,
}
use content_fabric.Text.{Text}
use content_fabric.Channels.{Channel, get_channel_by_id}
use content_fabric.Tasks.{TaskStatus, Task, Db, value, completed, failed, cancelled}
use content_fabric.Tasks.Repo.{
  NewTask, get_task, create_task, create_tasks_batch, cancel_task, update_task_scheduled_at,
  update_task_status, retry_all_failed_by_channel, is_open,
}
use content_fabric.Tasks.Queries.{TaskFilter, get_all_tasks, count_tasks}
use content_fabric.Users.{User}
use content_fabric.Users.Access.{
  Reply, ok, http_error, is_admin, scoped_user_id, check_owner, check_owner_or_404, created_by_user,
}
use content_fabric.Api.Schemas.{accepts_task, TaskUpdate}

-- `TaskResponse(**task)` of the row read back; a row that is gone is a 500.
abbrev pub task_response : Option Task → Reply Task
task_response none = http_error 500
task_response (some t) = ok t

abbrev pub created_response : Db → Option (ℕ × Db) → Reply Task × Db
created_response db none = (http_error 500, db)
created_response db (some (id, db')) = (task_response (get_task db' id), db')

abbrev pub create_in_channel : Text → ℕ → User → NewTask → Db → Option Channel → Reply Task × Db
create_in_channel uuid now user body db none = (http_error 404, db)
create_in_channel uuid now user body db (some ch) =
    if not (is_admin user) && not (created_by_user ch.created_by user)
    then (http_error 404, db)
    else created_response db
        (create_task uuid now (record body { created_by = some user.id }) none db)

-- `POST /tasks/`: the user must own the channel.
unfoldable pub create_task_handler : Text → ℕ → User → NewTask → Db → Reply Task × Db
unfolding create_task
create_task_handler uuid now user body db =
    if accepts_task body
    then create_in_channel uuid now user body db (get_channel_by_id body.channel_id db.channels)
    else (http_error 422, db)

abbrev pub owned_by_creator : User → Text × NewTask → Text × NewTask
owned_by_creator user (uuid, t) = (uuid, record t { created_by = some user.id })

abbrev pub add_found : Option Task → List Task → List Task
add_found none ts = ts
add_found (some t) ts = t ∷ ts

-- `[t for t in tasks if t is not None]` over the rows read back
abbrev pub found_tasks : Db → List ℕ → List Task
found_tasks db [] = []
found_tasks db (id ∷ ids) = add_found (get_task db id) (found_tasks db ids)

abbrev pub batch_response : Db → Option (List ℕ × Db) → Reply (List Task) × Db
batch_response db none = (http_error 500, db)
batch_response db (some (ids, db')) = (ok (found_tasks db' ids), db')

-- `POST /tasks/batch`: each body comes with the uuid that its row gets.
unfoldable pub create_batch_handler : ℕ → User → List (Text × NewTask) → Db → Reply (List Task) × Db
unfolding create_tasks_batch
create_batch_handler now user bodies db =
    if not (all_of (λ b. accepts_task b.1) bodies)
    then (http_error 422, db)
    else if ltb 100 (length bodies)
    then (http_error 400, db)
    else batch_response db (create_tasks_batch now (map (owned_by_creator user) bodies) db)

-- the query parameters of `GET /tasks/`
pub record ListQuery : Type 0 where
  pub status_filter : Option ℕ
  pub channel_id : Option ℕ
  pub date_from : Option ℕ
  pub date_to : Option ℕ
  pub limit : ℕ
  pub offset : ℕ

abbrev pub list_filter : User → ListQuery → List ℕ → TaskFilter
list_filter user q statuses = record {
  status = q.status_filter;
  statuses = statuses;
  channel_id = q.channel_id;
  date_from = q.date_from;
  date_to = q.date_to;
  created_by = scoped_user_id user;
}

-- `limit: int = Query(50, ge=1, le=500)`
abbrev pub accepts_query : ListQuery → Bool
accepts_query q = ltb 0 q.limit && not (ltb 500 q.limit)

abbrev pub page_of : TaskFilter → ListQuery → Db → List Task × ℕ
page_of f q db = (get_all_tasks f (some q.limit) (some q.offset) db, count_tasks f db)

unfoldable pub list_tasks_handler : User → ListQuery → Db → Reply (List Task × ℕ)
list_tasks_handler user q db =
    if accepts_query q then ok (page_of (list_filter user q []) q db) else http_error 422

-- `GET /tasks/history`: completed, failed and cancelled tasks unless a status is asked for
unfoldable pub task_history_handler : User → ListQuery → Db → Reply (List Task × ℕ)
task_history_handler user q db =
    if accepts_query q
    then ok
        (page_of (list_filter user q (value completed ∷ value failed ∷ value cancelled ∷ [])) q db)
    else http_error 422

abbrev pub visible : User → Option Task → Reply Task
visible user none = http_error 404
visible user (some t) = check_owner_or_404 t.created_by user (ok t)

-- `GET /tasks/{task_id}`
unfoldable pub get_task_handler : User → ℕ → Db → Reply Task
get_task_handler user k db = visible user (get_task db k)

-- the second half of the handler of `PUT /tasks/{task_id}`
abbrev pub change_status : ℕ → TaskUpdate → ℕ → Db → Reply Task × Db
change_status now body k db = elim body.status [
  | none ↦ (task_response (get_task db k), db)
  | some s ↦
      let db' = (update_task_status now k s body.error_message none db).1 in
      (task_response (get_task db' k), db')
]

abbrev pub change_task : ℕ → TaskUpdate → ℕ → Task → Db → Reply Task × Db
change_task now body k t db = elim body.scheduled_at [
  | none ↦ change_status now body k db
  | some at ↦
      if not (is_open t.status)
      then (http_error 409, db)
      else change_status now body k (update_task_scheduled_at k at db).1
]

abbrev pub update_found : ℕ → User → TaskUpdate → ℕ → Db → Option Task → Reply Task × Db
update_found now user body k db none = (http_error 404, db)
update_found now user body k db (some t) =
    if check_owner t.created_by user then change_task now body k t db else (http_error 404, db)

-- `PUT /tasks/{task_id}`
unfoldable pub update_task_handler : ℕ → User → TaskUpdate → ℕ → Db → Reply Task × Db
unfolding update_task_status update_task_scheduled_at
update_task_handler now user body k db = update_found now user body k db (get_task db k)

abbrev pub cancel_found : User → ℕ → Db → Option Task → Reply Task × Db
cancel_found user k db none = (http_error 404, db)
cancel_found user k db (some t) =
    if not (check_owner t.created_by user)
    then (http_error 404, db)
    else if not (is_open t.status)
    then (http_error 409, db)
    else (let db' = (cancel_task k db).1 in (task_response (get_task db' k), db'))

-- `POST /tasks/{task_id}/cancel`
unfoldable pub cancel_task_handler : User → ℕ → Db → Reply Task × Db
cancel_task_handler user k db = cancel_found user k db (get_task db k)

abbrev pub retry_in_channel : User → Db → ℕ → Option Channel → Reply ℕ × Db
retry_in_channel user db k none = (http_error 404, db)
retry_in_channel user db k (some ch) =
    if not (is_admin user) && not (created_by_user ch.created_by user)
    then (http_error 404, db)
    else (let (n, db') = retry_all_failed_by_channel k db in (ok n, db'))

-- `POST /channels/{channel_id}/retry-all-failed` (endpoints/channels.py)
unfoldable pub retry_all_failed_handler : User → ℕ → Db → Reply ℕ × Db
retry_all_failed_handler user k db = retry_in_channel user db k (get_channel_by_id k db.channels)
