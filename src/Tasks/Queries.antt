-- ===== src/Tasks/Queries.antt =====
-- prod/shared/db/repositories/task_repo.py: the operations that read lists of tasks.
pub mod Laws
use content_fabric.Base.{
  ℕ, zero, suc, Bool, true, false, ◌&&◌, Option, none, some, List, [], ◌∷◌, leb, ◌==◌, keep, take,
  drop, any_of,
}
use content_fabric.Table.{count_where}
use content_fabric.Table.Order.{order_by, ascending, descending}
use content_fabric.Tasks.{Task, Db, value, pending}

abbrev pub scheduled : Task → ℕ
scheduled t = t.scheduled_at

-- `status = 0 AND scheduled_at <= NOW()`
abbrev pub is_due : ℕ → Task → Bool
is_due now t = (value t.status == value pending) && leb t.scheduled_at now

-- `if limit: stmt = stmt.limit(limit)`: None and 0 set no limit.
abbrev pub limit_rows {ℓ} : {A : Type ℓ} → Option ℕ → List A → List A
limit_rows none rows = rows
limit_rows (some zero) rows = rows
limit_rows (some (suc n)) rows = take (suc n) rows

abbrev pub offset_rows {ℓ} : {A : Type ℓ} → Option ℕ → List A → List A
offset_rows none rows = rows
offset_rows (some n) rows = drop n rows

unfoldable pub get_pending_tasks : ℕ → Option ℕ → Db → List Task
get_pending_tasks now limit db =
    limit_rows limit (order_by (ascending scheduled) (keep (is_due now) db.tasks))

-- the filters that `get_all_tasks` and `count_tasks` share
pub record TaskFilter : Type 0 where
  pub status : Option ℕ
  pub statuses : List ℕ
  pub channel_id : Option ℕ
  pub date_from : Option ℕ
  pub date_to : Option ℕ
  pub created_by : Option ℕ

abbrev pub passes : Option ℕ → (ℕ → Bool) → Bool
passes none test = true
passes (some x) test = test x

-- `created_by = :uid`; NULL is equal to nothing.
abbrev pub owned_by : ℕ → Option ℕ → Bool
owned_by user none = false
owned_by user (some owner) = owner == user

-- `status IN (…)`; an empty list is no filter.
abbrev pub status_in : List ℕ → ℕ → Bool
status_in [] v = true
status_in (s ∷ statuses) v = any_of (λ x. v == x) (s ∷ statuses)

-- A single status wins over a list of them.
abbrev pub status_passes : Option ℕ → List ℕ → ℕ → Bool
status_passes (some s) statuses v = v == s
status_passes none statuses v = status_in statuses v

abbrev pub matches : TaskFilter → Task → Bool
matches f t =
    passes f.created_by (λ uid. owned_by uid t.created_by)
    && status_passes f.status f.statuses (value t.status)
    && passes f.channel_id (λ c. t.channel_id == c)
    && passes f.date_from (λ d. leb d t.scheduled_at)
    && passes f.date_to (λ d. leb t.scheduled_at d)

unfoldable pub get_all_tasks : TaskFilter → Option ℕ → Option ℕ → Db → List Task
get_all_tasks f limit offset db =
    limit_rows limit
      (offset_rows offset (order_by (descending scheduled) (keep (matches f) db.tasks)))

unfoldable pub count_tasks : TaskFilter → Db → ℕ
count_tasks f db = count_where (matches f) db.tasks
