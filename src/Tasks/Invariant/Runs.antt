-- ===== src/Tasks/Invariant/Runs.antt =====
-- What every sequence of requests keeps: the invariant, and the identity of each task.
use content_fabric.Base.{
  ℕ, ◌<◌, ◌≡◌, Bool, true, false, inl, inr, Option, none, some, List, [], ◌∷◌, arith, ◌==◌,
  if◌then◌else◌, sym, refl, ap, ◌&&◌, true-false, Option-cases, any_of, All-imp, ◌++◌, ◌∙◌, some-eq,
  ==_iff, All, Bool-cases, first_some,
}
use content_fabric.Text.{Text, text}
use mathlib.Core.Path.{subst}
use content_fabric.Table.{update_where, delete_where, has_key, fetch_one}
use content_fabric.Tasks.{
  TaskStatus, Task, Db, completed, failed, processing, cancelled, Notification,
}
use content_fabric.Tasks.Repo.{
  NewTask, TaskFields, insert_task, insert_batch, get_task, notify_task, notify_owner, notify_found,
  insert_in, insert_batch_in, create_task, create_tasks_batch, update_task_status, update_task,
  mark_task_processing, mark_task_completed, mark_task_failed, update_task_upload_id, retry_task,
  retry_all_failed_by_channel, cancel_task, update_task_scheduled_at, delete_task, update_by_id,
  set_status_row, set_completed, always, notify_if, reset, or_old, or_old_option,
}
use content_fabric.Tasks.Invariant.{
  Request, create, create_batch, set_status, set_fields, mark_processing, mark_completed,
  mark_failed, set_upload_id, retry, retry_channel, cancel, reschedule, delete, perform,
  perform_all, IsCovered, unstamped_by, unstamped_ids, key, IsStamped, IsValid, IsValidBut, Kept,
  or_same,
}
use content_fabric.Tasks.Invariant.Rows.{
  IsRowUpdate, Tracks, update_where-IsValid, update_where-Tracks, insert_task-IsValid,
  insert_task-Tracks, delete-IsValid, delete-Tracks, Kept-refl,
}

status_row :
    (now : ℕ) (status : TaskStatus) (error : Option Text) (at : Option ℕ)
    → IsRowUpdate (set_status_row now status error at)
status_row now status error at = record {
  keeps = λ t. ground arith;
  stamps = λ ks t h. ground arith;
}

completed_row : (now : ℕ) (upload_id : Option Text) → IsRowUpdate (set_completed now upload_id)
completed_row now upload_id = record { keeps = λ t. ground arith; stamps = λ ks t h. ground arith }

abbrev with_fields : TaskFields → Task → Task
with_fields fields t = record t {
  status = or_old fields.new_status t.status;
  source_file_path = or_old_option fields.new_source_file_path t.source_file_path;
  error_message = or_old_option fields.new_error_message t.error_message;
}

with_fields-Kept : (fields : TaskFields) (t : Task) → Kept t (with_fields fields t)
with_fields-Kept fields t = ground arith

-- the row that `update_task` writes
abbrev row_with : ℕ → Task → Bool
row_with k t = has_key key k t && always t

both-left : (a b : Bool) → (a && b) ≡ true → a ≡ true
both-left true b h = refl
both-left false b h = h

-- A row that is updated stays stamped, or is among those of the calls.
with_fields-IsStamped :
    (ks : List ℕ) (k : ℕ) (fields : TaskFields)
    → IsCovered ks (set_fields k fields)
    → (t : Task) → row_with k t ≡ true
    → IsStamped ks t
    → IsStamped ks (with_fields fields t)
with_fields-IsStamped ks k fields covered t hit h = elim (Option-cases fields.new_status) [
  | inl unset ↦ rw unset h
  | inr (status, set) ↦ λ e free.
      let same : t.id ≡ k = (==_iff t.id k).0 (both-left (t.id == k) true hit) in
      let by_call : fields.new_status ≡ some completed =
        set ∙ ap some (ap (λ o. or_old o t.status) (sym set) ∙ e) in
      absurd
        (true-false (sym (covered by_call) ∙ ap (λ j. any_of (λ i. i == j) ks) (sym same) ∙ free))
]

upload_row : (upload_id : Text) → IsRowUpdate (λ t. record t { upload_id = some upload_id })
upload_row upload_id = record { keeps = λ t. ground arith; stamps = λ ks t h. ground arith }

cancel_row : IsRowUpdate (λ t. record t { status = cancelled })
cancel_row = record { keeps = λ t. ground arith; stamps = λ ks t h. ground arith }

schedule_row : (at : ℕ) → IsRowUpdate (λ t. record t { scheduled_at = at })
schedule_row at = record { keeps = λ t. ground arith; stamps = λ ks t h. ground arith }

reset_row : IsRowUpdate reset
reset_row = record { keeps = λ t. ground arith; stamps = λ ks t h. ground arith }

-- A property of the database that each kind of statement keeps.
record IsClosed (ks : List ℕ) (P : Db → Type 0) : Type 0 where
  on_update :
      (f : Task → Task)
      → IsRowUpdate f
      → (p : Task → Bool) (db : Db) → P db
      → P (record db { tasks = update_where p f db.tasks })
  on_fields :
      (k : ℕ) (fields : TaskFields)
      → IsCovered ks (set_fields k fields)
      → (db : Db) → P db
      → P (record db { tasks = update_where (row_with k) (with_fields fields) db.tasks })
  on_insert :
      (uuid : Text) (now project : ℕ) (new : NewTask) (db : Db)
      → P db
      → P (insert_task uuid now project new db).1
  on_delete :
      (k : ℕ) (db : Db) → P db → P (record db { tasks = delete_where (has_key key k) db.tasks })
  on_notice : (ns : List Notification) (db : Db) → P db → P (record db { notifications = ns })

module _ {ks : List ℕ} {P : Db → Type 0} (closed : IsClosed ks P) where
  open closed use {on_update, on_fields, on_insert, on_delete, on_notice}

  notify_owner-closed :
      (now : ℕ) (type prefix : Text) (upload_id error : Option Text) (t : Task) (owner : Option ℕ)
      (db : Db)
      → P db
      → P (notify_owner now type prefix upload_id error t owner db)
  notify_owner-closed now type prefix upload_id error t none db h = h
  notify_owner-closed now type prefix upload_id error t (some user) db h =
      elim (Bool-cases (user == 0)) [
        | inl zero_id ↦ rw zero_id h
        | inr real ↦ rw real (on_notice _ db h)
      ]

  notify_found-closed :
      (now : ℕ) (type prefix : Text) (upload_id error : Option Text) (db : Db) (t : Option Task)
      → P db
      → P (notify_found now type prefix upload_id error db t)
  notify_found-closed now type prefix upload_id error db none h = h
  notify_found-closed now type prefix upload_id error db (some t) h =
      notify_owner-closed now type prefix upload_id error t t.created_by db h

  insert_in-closed :
      (uuid : Text) (now : ℕ) (t : NewTask) (db : Db) (project : Option ℕ)
      → P db
      → P (or_same db (insert_in uuid now t db project))
  insert_in-closed uuid now t db none h = h
  insert_in-closed uuid now t db (some project) h = on_insert uuid now project t db h

  insert_batch-closed :
      (now project : ℕ) (ts : List (Text × NewTask)) (db : Db)
      → P db
      → P (insert_batch now project ts db).1
  insert_batch-closed now project [] db h = h
  insert_batch-closed now project ((uuid, t) ∷ ts) db h =
      insert_batch-closed now project ts _ (on_insert uuid now project t db h)

  insert_batch_in-closed :
      (now : ℕ) (ts : List (Text × NewTask)) (db : Db) (project : Option ℕ)
      → P db
      → P (or_same db (insert_batch_in now ts db project))
  insert_batch_in-closed now ts db none h = h
  insert_batch_in-closed now ts db (some project) h = insert_batch-closed now project ts db h

  notify_if-closed :
      (now k : ℕ) (type prefix : Text) (upload_id error : Option Text) (r : Bool × Db)
      → P r.1
      → P (notify_if now k type prefix upload_id error r).1
  unfolding notify_task
  notify_if-closed now k type prefix upload_id error (true, db) h =
      notify_found-closed now type prefix upload_id error db (get_task db k) h
  notify_if-closed now k type prefix upload_id error (false, db) h = h

  -- The two ways in which `update_task` ends.
  update_fields-closed :
      (b r : Bool) {x y : Db} → P x → P y → P (if◌then◌else◌ {A = Bool × Db} b (r, x) (false, y)).1
  update_fields-closed true r hx hy = hx
  update_fields-closed false r hx hy = hy

  perform-closed : (r : Request) (db : Db) → IsCovered ks r → P db → P (perform r db)
  unfolding perform notify_task create_task create_tasks_batch update_task_status update_task
      mark_task_processing mark_task_completed mark_task_failed update_task_upload_id retry_task
      retry_all_failed_by_channel cancel_task update_task_scheduled_at delete_task
  perform-closed (create uuid now t project) db c h =
      insert_in-closed uuid now t db (first_some project db.default_project) h
  perform-closed (create_batch now ts) db c h =
      insert_batch_in-closed now ts db db.default_project h
  perform-closed (set_status now k status error at) db c h =
      on_update _ (status_row now status error at) _ db h
  perform-closed (set_fields k fields) db c h =
      update_fields-closed _ _ (on_fields k fields c db h) h
  perform-closed (mark_processing now k) db c h =
      on_update _ (status_row now processing none none) _ db h
  perform-closed (mark_completed now k upload_id) db c h =
      notify_if-closed now k (text "task") (text "Task completed") upload_id none
        (update_by_id k always (set_completed now upload_id) db)
        (on_update _ (completed_row now upload_id) _ db h)
  perform-closed (mark_failed now k error) db c h =
      notify_if-closed now k (text "error") (text "Task failed") none error
        (update_task_status now k failed error none db)
        (on_update _ (status_row now failed error none) _ db h)
  perform-closed (set_upload_id k upload_id) db c h = on_update _ (upload_row upload_id) _ db h
  perform-closed (retry k) db c h = on_update _ reset_row _ db h
  perform-closed (retry_channel channel) db c h = on_update _ reset_row _ db h
  perform-closed (cancel k) db c h = on_update _ cancel_row _ db h
  perform-closed (reschedule k at) db c h = on_update _ (schedule_row at) _ db h
  perform-closed (delete k) db c h = on_delete k db h

  perform_all-closed :
      (rs : List Request) (db : Db) → All (IsCovered ks) rs → P db → P (perform_all rs db)
  unfolding perform_all
  perform_all-closed [] db c h = h
  perform_all-closed (r ∷ rs) db c h =
      perform_all-closed rs (perform r db) c.1 (perform-closed r db c.0 h)

found_below :
    {n : ℕ} (k : ℕ) (tasks : List Task) (t : Task)
    → All (λ s. s.id < n) tasks
    → fetch_one (has_key key k) tasks ≡ some t
    → k < n
found_below k [] t h e = cc
found_below k (s ∷ tasks) t h e = elim (Bool-cases (has_key key k s)) [
  | inl hit ↦ rw ((==_iff s.id k).0 hit) at h.0
  | inr miss ↦ found_below k tasks t h.1 (rw miss at e)
]

IsValid-closed : (ks : List ℕ) → IsClosed ks (IsValidBut ks)
IsValid-closed ks = record {
  on_update = λ f row p. update_where-IsValid ks f row.keeps p (λ t hit. row.stamps ks t);
  on_fields = λ k fields covered.
      update_where-IsValid ks (with_fields fields) (with_fields-Kept fields) (row_with k)
        (with_fields-IsStamped ks k fields covered);
  on_insert = λ uuid now project new. insert_task-IsValid uuid now project new ks;
  on_delete = λ k. delete-IsValid ks (has_key key k);
  on_notice = λ ns db v. record { distinct = v.distinct; below = v.below; stamped = v.stamped };
}

Tracks-closed : (ks : List ℕ) (k : ℕ) (t : Task) → IsClosed ks (Tracks k t)
Tracks-closed ks k t = record {
  on_update = λ f row. update_where-Tracks f row.keeps k t;
  on_fields = λ j fields covered.
      update_where-Tracks (with_fields fields) (with_fields-Kept fields) k t (row_with j);
  on_insert = λ uuid now project new db. insert_task-Tracks uuid now project new k t db;
  on_delete = λ j. delete-Tracks k t j;
  on_notice = λ ns db h. record { used = h.used; kept = h.kept };
}

any_of-right :
    (k : ℕ) (js ks : List ℕ)
    → any_of (λ j. j == k) ks ≡ true
    → any_of (λ j. j == k) (js ++ ks) ≡ true
any_of-right k [] ks h = h
any_of-right k (j ∷ js) ks h = rw (any_of-right k js ks h) (ground arith)

any_of-left :
    (k : ℕ) (js ks : List ℕ)
    → any_of (λ j. j == k) js ≡ true
    → any_of (λ j. j == k) (js ++ ks) ≡ true
any_of-left k [] ks h = cc
any_of-left k (j ∷ js) ks h = elim (Bool-cases (j == k)) [
  | inl hit ↦ rw hit refl
  | inr miss ↦ rw miss (any_of-left k js ks (rw miss at h))
]

IsCovered-right : (js ks : List ℕ) (r : Request) → IsCovered ks r → IsCovered (js ++ ks) r
IsCovered-right js ks (set_fields k fields) c = λ e. any_of-right k js ks (c e)
IsCovered-right js ks (create uuid now t project) c = tt
IsCovered-right js ks (create_batch now ts) c = tt
IsCovered-right js ks (set_status now k status error at) c = tt
IsCovered-right js ks (mark_processing now k) c = tt
IsCovered-right js ks (mark_completed now k upload_id) c = tt
IsCovered-right js ks (mark_failed now k error) c = tt
IsCovered-right js ks (set_upload_id k upload_id) c = tt
IsCovered-right js ks (retry k) c = tt
IsCovered-right js ks (retry_channel channel) c = tt
IsCovered-right js ks (cancel k) c = tt
IsCovered-right js ks (reschedule k at) c = tt
IsCovered-right js ks (delete k) c = tt

by_itself-IsCovered : (ks : List ℕ) (r : Request) → IsCovered (unstamped_by r ++ ks) r
by_itself-IsCovered ks (set_fields k fields) = λ e. rw e (ground arith)
by_itself-IsCovered ks (create uuid now t project) = tt
by_itself-IsCovered ks (create_batch now ts) = tt
by_itself-IsCovered ks (set_status now k status error at) = tt
by_itself-IsCovered ks (mark_processing now k) = tt
by_itself-IsCovered ks (mark_completed now k upload_id) = tt
by_itself-IsCovered ks (mark_failed now k error) = tt
by_itself-IsCovered ks (set_upload_id k upload_id) = tt
by_itself-IsCovered ks (retry k) = tt
by_itself-IsCovered ks (retry_channel channel) = tt
by_itself-IsCovered ks (cancel k) = tt
by_itself-IsCovered ks (reschedule k at) = tt
by_itself-IsCovered ks (delete k) = tt

unstamped_ids-IsCovered : (rs : List Request) → All (IsCovered (unstamped_ids rs)) rs
unstamped_ids-IsCovered [] = tt
unstamped_ids-IsCovered (r ∷ rs) = (
  by_itself-IsCovered (unstamped_ids rs) r,
  All-imp (IsCovered-right (unstamped_by r) (unstamped_ids rs)) rs (unstamped_ids-IsCovered rs),
)

pub perform_all-IsValidBut :
    (ks : List ℕ) (rs : List Request) (db : Db)
    → All (IsCovered ks) rs
    → IsValidBut ks db
    → IsValidBut ks (perform_all rs db)
perform_all-IsValidBut ks = perform_all-closed (IsValid-closed ks)

-- After any sequence of requests to a database whose ids are distinct and below the next id, and
-- whose completed tasks have a completion time, the ids are so, and so are the completed tasks,
-- save those for which the sequence has a call of update_task with the status COMPLETED.
pub perform_all-IsValid :
    (rs : List Request) (db : Db) → IsValid db → IsValidBut (unstamped_ids rs) (perform_all rs db)
perform_all-IsValid rs db v =
    perform_all-IsValidBut (unstamped_ids rs) rs db (unstamped_ids-IsCovered rs) (record {
      distinct = v.distinct;
      below = v.below;
      stamped = All-imp (λ t h e free. h e refl) db.tasks v.stamped;
    })

-- In a database whose ids are distinct and below the next id and whose completed tasks have a
-- completion time, a task that is found under its id after any sequence of requests is the task
-- that had this id before: uuid, project, channel, owner, title and add_info are the same, and it
-- has no fewer retries. So no request gives the id of a deleted task to a new one.
pub perform_all-Kept :
    (rs : List Request) (db : Db) (k : ℕ) (t u : Task)
    → IsValid db
    → get_task db k ≡ some t
    → get_task (perform_all rs db) k ≡ some u
    → Kept t u
perform_all-Kept rs db k t u v before after =
    let below : k < db.next_id = found_below k db.tasks t v.below before in
    (perform_all-closed (Tracks-closed (unstamped_ids rs) k t) rs db (unstamped_ids-IsCovered rs)
        (record {
          used = below;
          kept = λ s e. subst (Kept t) (some-eq (sym before ∙ e)) (Kept-refl t);
        })).kept
      u after
