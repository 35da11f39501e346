-- ===== src/Api/Tasks/Changes.antt =====
-- What the handlers that change a task answer and write.
use content_fabric.Base.{ℕ, ◌≡◌, refl, ◌∙◌, ap, ◌≢◌, true, false, some}
use content_fabric.Table.{Distinct}
use content_fabric.Tasks.{Task, Db, cancelled}
use content_fabric.Tasks.Repo.{get_task, is_open, cancel_task}
use content_fabric.Tasks.Repo.Laws.{key, cancel_task-Updates}
use content_fabric.Users.{User}
use content_fabric.Users.Access.{ok, http_error, check_owner}
use content_fabric.Api.Tasks.{cancel_task_handler, task_response}

-- An owner or admin who cancels a pending or processing task gets the task back as cancelled, and it
-- is the only row that changes. One who cancels any other task gets 409, and nothing changes.
pub cancel_task_handler_lem :
    (k : ℕ) (user : User) (t : Task) (db : Db)
    → Distinct key db.tasks
    → get_task db k ≡ some t
    → check_owner t.created_by user ≡ true
    → let (reply, db') = cancel_task_handler user k db in
      (is_open t.status ≡ true
        → (reply ≡ ok (record t { status = cancelled }))
          × (get_task db' k ≡ some (record t { status = cancelled }))
          × ((j : ℕ) → j ≢ k → get_task db' j ≡ get_task db j))
      × (is_open t.status ≡ false → (reply ≡ http_error 409) × (db' ≡ db))
unfolding cancel_task_handler
cancel_task_handler_lem k user t db d found mine =
    let u = cancel_task-Updates k db d in
    (
      λ open_now.
          let after : get_task (cancel_task k db).1 k ≡ some (record t { status = cancelled }) =
            u.writes ∙ rw found (rw open_now) in
          rw (found, mine, open_now) (ap task_response after, after, u.leaves),
      λ closed. rw (found, mine, closed) (refl, refl),
    )
