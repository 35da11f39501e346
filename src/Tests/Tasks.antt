-- ===== src/Tests/Tasks.antt =====
-- Runs on the tasks and their handlers.
use content_fabric.Base.{
  ℕ, ◌≤◌, ◌≡◌, ◌≢◌, refl, Option, none, some, List, [], ◌∷◌, arith, some-eq, length,
}
use content_fabric.Text.{text}
use content_fabric.Tasks.{cancelled}
use content_fabric.Tasks.Repo.{cancel_task, NewTask}
use content_fabric.Tasks.Queries.{TaskFilter, get_all_tasks, count_tasks}
use content_fabric.Tasks.Invariant.{
  Request, create, cancel, delete, perform_all, IsValid, IsValidBut, Kept, mark_completed, perform,
}
use content_fabric.Tasks.Invariant.Runs.{perform_all-IsValid, perform_all-Kept}
use content_fabric.Users.Access.{http_error, IsStranger}
use content_fabric.Api.Schemas.{TaskUpdate}
use content_fabric.Api.Tasks.{cancel_task_handler, ListQuery, list_tasks_handler}
use content_fabric.Api.Tasks.Ownership.{stranger_is_refused, list_tasks_handler-own}
use content_fabric.Tests.Data.{a_task, failed_task, a_db, owner, stranger}

pub a_db-IsValid : IsValid a_db
a_db-IsValid = record {
  distinct = (((λ e. omega arith), ((λ e. omega arith), tt)), (((λ e. omega arith), tt), (tt, tt)));
  below = (omega arith, (omega arith, (omega arith, tt)));
  stamped = ((λ e free. cc), ((λ e free. cc), ((λ e free. cc), tt)));
}

abbrev a_new_task : NewTask
a_new_task = record {
  channel_id = 7;
  source_file_path = text "c.mp4";
  title = text "C";
  scheduled_at = 20;
  media_type = text "video";
  thumbnail_path = none;
  description = none;
  keywords = none;
  post_comment = none;
  legacy_add_info = none;
  created_by = some 6;
}

abbrev some_requests : List Request
some_requests =
    cancel 1
    ∷ create (text "v") 9 a_new_task none
    ∷ mark_completed 9 2 (some (text "y"))
    ∷ delete 3
    ∷ []

perform_all-IsValid_example : IsValidBut [] (perform_all some_requests a_db)
perform_all-IsValid_example = perform_all-IsValid some_requests a_db a_db-IsValid

perform_all-Kept_example : Kept a_task (record a_task { status = cancelled })
unfolding perform_all perform cancel_task
perform_all-Kept_example =
    perform_all-Kept (cancel 1 ∷ []) a_db 1 a_task (record a_task { status = cancelled })
      a_db-IsValid refl refl

abbrev a_filter : TaskFilter
a_filter = record {
  status = none;
  statuses = 0 ∷ 2 ∷ [];
  channel_id = some 7;
  date_from = none;
  date_to = none;
  created_by = some 5;
}

abbrev an_update : TaskUpdate
an_update = record { status = some cancelled; scheduled_at = none; error_message = none }

five-six : ◌≢◌ {A = Option ℕ} (some 5) (some 6)
five-six e = let same : 5 ≡ 6 = some-eq e in omega (arith, same)

pub not_stranger : IsStranger stranger (some 5)
not_stranger = ((λ e. omega arith), five-six)

stranger_is_refused_example : cancel_task_handler stranger 1 a_db ≡ (http_error 404, a_db)
stranger_is_refused_example =
    (stranger_is_refused 50 1 stranger an_update a_task a_db refl not_stranger).2

abbrev a_query : ListQuery
a_query = record {
  status_filter = none;
  channel_id = none;
  date_from = none;
  date_to = none;
  limit = 2;
  offset = 0;
}

list_tasks_handler-own_example : length (a_task ∷ failed_task ∷ []) ≤ 2
unfolding list_tasks_handler get_all_tasks count_tasks
list_tasks_handler-own_example =
    (list_tasks_handler-own owner a_query a_db (a_task ∷ failed_task ∷ []) 3 (λ e. omega arith)
      refl).1
