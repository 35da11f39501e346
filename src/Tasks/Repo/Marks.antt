-- ===== src/Tasks/Repo/Marks.antt =====
-- What `mark_task_completed` and `mark_task_failed` write: a notification changes no task.
use content_fabric.Base.{
  ℕ, ◌≡◌, ◌≢◌, refl, ap, ◌∙◌, Bool, true, false, Option, none, some, List, Bool-cases, inl, inr,
  ◌==◌,
}
use mathlib.Core.Option
use content_fabric.Text.{Text, text}
use content_fabric.Table.{fetch_one, has_key}
use content_fabric.Tasks.{Task, Db, failed, processing}
use content_fabric.Tasks.Repo.{
  get_task, always, update_by_id, set_completed, set_status_row, mark_task_completed,
  mark_task_failed, mark_task_processing, update_task_status, notify_task, notify_owner,
  notify_found, notify_if,
}
use content_fabric.Tasks.Repo.Laws.{update_by_id-writes, update_by_id-leaves}

notify_owner-tasks :
    (now : ℕ) (type prefix : Text) (upload_id error : Option Text) (t : Task) (owner : Option ℕ)
    (db : Db)
    → (notify_owner now type prefix upload_id error t owner db).tasks ≡ db.tasks
notify_owner-tasks now type prefix upload_id error t none db = refl
notify_owner-tasks now type prefix upload_id error t (some user) db =
    elim (Bool-cases (user == 0)) [ inl zero_id ↦ rw zero_id refl | inr real ↦ rw real refl ]

notify_found-tasks :
    (now : ℕ) (type prefix : Text) (upload_id error : Option Text) (db : Db) (t : Option Task)
    → (notify_found now type prefix upload_id error db t).tasks ≡ db.tasks
notify_found-tasks now type prefix upload_id error db none = refl
notify_found-tasks now type prefix upload_id error db (some t) =
    notify_owner-tasks now type prefix upload_id error t t.created_by db

notify_if-tasks :
    (now k : ℕ) (type prefix : Text) (upload_id error : Option Text) (r : Bool × Db)
    → (notify_if now k type prefix upload_id error r).1.tasks ≡ r.1.tasks
unfolding notify_task
notify_if-tasks now k type prefix upload_id error (true, db) =
    notify_found-tasks now type prefix upload_id error db (get_task db k)
notify_if-tasks now k type prefix upload_id error (false, db) = refl

same_task :
    {x y : List Task} (j : ℕ)
    → x ≡ y
    → fetch_one (has_key (λ (t : Task). t.id) j) x ≡ fetch_one (has_key (λ t. t.id) j) y
same_task j e = ap (λ rows. fetch_one (has_key (λ t. t.id) j) rows) e

pub mark_task_processing-get :
    (now k : ℕ) (db : Db)
    → get_task (mark_task_processing now k db).1 k
      ≡ Option.map (set_status_row now processing none none) (get_task db k)
unfolding mark_task_processing update_task_status
mark_task_processing-get now k db = update_by_id-writes k _ db (λ t. refl)

pub mark_task_completed-get :
    (now k : ℕ) (upload_id : Option Text) (db : Db)
    → get_task (mark_task_completed now k upload_id db).1 k
      ≡ Option.map (set_completed now upload_id) (get_task db k)
unfolding mark_task_completed
mark_task_completed-get now k upload_id db =
    same_task k (
      notify_if-tasks now k (text "task") (text "Task completed") upload_id none
        (update_by_id k always (set_completed now upload_id) db))
    ∙ update_by_id-writes k _ db (λ t. refl)

pub mark_task_failed-get :
    (now k : ℕ) (error : Option Text) (db : Db)
    → get_task (mark_task_failed now k error db).1 k
      ≡ Option.map (set_status_row now failed error none) (get_task db k)
unfolding mark_task_failed update_task_status
mark_task_failed-get now k error db =
    same_task k (
      notify_if-tasks now k (text "error") (text "Task failed") none error
        (update_by_id k always (set_status_row now failed error none) db))
    ∙ update_by_id-writes k _ db (λ t. refl)

pub mark_task_processing-leaves :
    (j now k : ℕ) (db : Db) → j ≢ k → get_task (mark_task_processing now k db).1 j ≡ get_task db j
unfolding mark_task_processing update_task_status
mark_task_processing-leaves j now k db ne = update_by_id-leaves j k _ _ db (λ t. refl) ne

pub mark_task_completed-leaves :
    (j now k : ℕ) (upload_id : Option Text) (db : Db)
    → j ≢ k
    → get_task (mark_task_completed now k upload_id db).1 j ≡ get_task db j
unfolding mark_task_completed
mark_task_completed-leaves j now k upload_id db ne =
    same_task j (
      notify_if-tasks now k (text "task") (text "Task completed") upload_id none
        (update_by_id k always (set_completed now upload_id) db))
    ∙ update_by_id-leaves j k _ _ db (λ t. refl) ne

pub mark_task_failed-leaves :
    (j now k : ℕ) (error : Option Text) (db : Db)
    → j ≢ k
    → get_task (mark_task_failed now k error db).1 j ≡ get_task db j
unfolding mark_task_failed update_task_status
mark_task_failed-leaves j now k error db ne =
    same_task j (
      notify_if-tasks now k (text "error") (text "Task failed") none error
        (update_by_id k always (set_status_row now failed error none) db))
    ∙ update_by_id-leaves j k _ _ db (λ t. refl) ne
