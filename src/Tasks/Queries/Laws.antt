-- ===== src/Tasks/Queries/Laws.antt =====
-- What the list queries of task_repo.py return.
use content_fabric.Base.{
  ℕ, zero, suc, ◌≤◌, ◌≡◌, refl, sym, ◌∙◌, Bool, true, ◌&&◌, Option, none, some, List, [], ◌∷◌, ◌++◌,
  arith, keep, drop, length, All, All-take, take-append-drop, length-take-le,
}
use content_fabric.Table.{count_where}
use content_fabric.Table.Order.{
  order_by, ascending, descending, Ascending, Ascending-order_by, count_where-order_by,
  All-order_by, length-order_by,
}
use content_fabric.Tasks.{Task, Db}
use mathlib.Core.List.{append-nil}
use content_fabric.Tasks.Queries.{
  scheduled, is_due, limit_rows, get_pending_tasks, TaskFilter, matches, get_all_tasks, count_tasks,
}

module _ {A : Type 0} where
  count_where-keep :
      (p q : A → Bool) (xs : List A) → count_where q (keep p xs) ≡ count_where (λ x. p x && q x) xs
  count_where-keep p q [] = refl
  count_where-keep p q (x ∷ xs) = ground (arith, count_where-keep p q xs)

  length-keep : (p : A → Bool) (xs : List A) → length (keep p xs) ≡ count_where p xs
  length-keep p [] = refl
  length-keep p (x ∷ xs) = ground (arith, length-keep p xs)

  keep-All : (p : A → Bool) (xs : List A) → All (λ x. p x ≡ true) (keep p xs)
  keep-All p [] = tt
  keep-All p (x ∷ xs) = ground (arith, keep-All p xs)

  -- What a limit leaves out.
  left_out : Option ℕ → List A → List A
  left_out none xs = []
  left_out (some zero) xs = []
  left_out (some (suc n)) xs = drop (suc n) xs

  limit_rows-left_out :
      (limit : Option ℕ) (xs : List A) → limit_rows limit xs ++ left_out limit xs ≡ xs
  unfolding left_out
  limit_rows-left_out none xs = append-nil xs
  limit_rows-left_out (some zero) xs = append-nil xs
  limit_rows-left_out (some (suc n)) xs = take-append-drop (suc n) xs

-- The scheduler's batch and the tasks that the limit leaves out are together all tasks that are
-- pending and due, each as often as it stands in the table, in the order of their scheduled time: so
-- no task that is left out is scheduled before one that is taken.
pub get_pending_tasks_earliest :
    (now : ℕ) (limit : Option ℕ) (db : Db)
    → (rest : List Task) × Ascending scheduled (get_pending_tasks now limit db ++ rest)
      × ((p : Task → Bool)
          → count_where p (get_pending_tasks now limit db ++ rest)
            ≡ count_where (λ t. is_due now t && p t) db.tasks)
unfolding get_pending_tasks
get_pending_tasks_earliest now limit db =
    let due = keep (is_due now) db.tasks in
    let rows = order_by (ascending scheduled) due in
    (
      left_out limit rows,
      rw (limit_rows-left_out limit rows) (Ascending-order_by scheduled due),
      λ p. rw (limit_rows-left_out limit rows) (
          count_where-order_by (ascending scheduled) p due
          ∙ count_where-keep (is_due now) p db.tasks),
    )

-- A batch with a limit is no longer than the limit.
pub length-get_pending_tasks :
    (now n : ℕ) (db : Db) → length (get_pending_tasks now (some (suc n)) db) ≤ suc n
unfolding get_pending_tasks
length-get_pending_tasks now n db = length-take-le (suc n) _

-- `count_tasks` is the number of tasks that `get_all_tasks` returns for the same filters without
-- limit and offset.
pub count_tasks-eq-length :
    (f : TaskFilter) (db : Db) → count_tasks f db ≡ length (get_all_tasks f none none db)
unfolding count_tasks get_all_tasks
count_tasks-eq-length f db = sym (
    length-order_by (descending scheduled) (keep (matches f) db.tasks)
    ∙ length-keep (matches f) db.tasks)

All-limit_rows :
    (P : Task → Type 0) (limit : Option ℕ) (rows : List Task)
    → All P rows
    → All P (limit_rows limit rows)
All-limit_rows P none rows h = h
All-limit_rows P (some zero) rows h = h
All-limit_rows P (some (suc n)) rows h = All-take P (suc n) rows h

-- Every task of a batch is due.
pub get_pending_tasks_due :
    (now : ℕ) (limit : Option ℕ) (db : Db)
    → All (λ t. is_due now t ≡ true) (get_pending_tasks now limit db)
unfolding get_pending_tasks
get_pending_tasks_due now limit db =
    All-limit_rows (λ t. is_due now t ≡ true) limit _
      (All-order_by (ascending scheduled) (λ t. is_due now t ≡ true) _
        (keep-All (is_due now) db.tasks))
