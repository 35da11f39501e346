-- ===== src/Api/Tasks/Ownership.antt =====
-- Who gets at a task through the handlers of endpoints/tasks.py, and what the handlers do then.
use content_fabric.Base.{
  ℕ, zero, suc, ◌+◌, ◌≤◌, ◌<◌, ◌≡◌, refl, ◌∙◌, ap, ◌≢◌, inl, inr, Bool, true, not, ◌&&◌, Option,
  none, some, List, [], ◌∷◌, ◌++◌, arith, ◌==◌, length, All, All-take, All-imp, Bool-cases, ==_iff,
  length-take-le, keep, drop,
}
use content_fabric.Text.{Text}
use mathlib.Core.Path.{subst}
use content_fabric.Channels.{Channel, get_channel_by_id}
use content_fabric.Table.{count_where, fetch_one-snoc}
use content_fabric.Table.Order.{descending, All-order_by}
use content_fabric.Tasks.{Task, Db}
use content_fabric.Tasks.Repo.{NewTask, get_task, new_row, insert_batch_in}
use content_fabric.Tasks.Repo.Laws.{key}
use content_fabric.Tasks.Queries.{TaskFilter, get_all_tasks, count_tasks, matches, scheduled}
use content_fabric.Users.{User, status_admin}
use content_fabric.Users.Access.{
  ok, http_error, is_admin, scoped_user_id, created_by_user, IsStranger, stranger-owner,
}
use content_fabric.Api.Schemas.{TaskUpdate, accepts_task}
use content_fabric.Api.Tasks.{
  get_task_handler, update_task_handler, cancel_task_handler, create_task_handler,
  create_batch_handler, list_tasks_handler, ListQuery, list_filter, accepts_query, batch_response,
  add_found,
}

-- To a stranger the handlers answer for a task as they do for one that is not there, with 404, and
-- they write nothing.
pub stranger_is_refused :
    (now k : ℕ) (user : User) (body : TaskUpdate) (t : Task) (db : Db)
    → get_task db k ≡ some t
    → IsStranger user t.created_by
    → (get_task_handler user k db ≡ http_error 404)
      × (update_task_handler now user body k db ≡ (http_error 404, db))
      × (cancel_task_handler user k db ≡ (http_error 404, db))
unfolding get_task_handler update_task_handler cancel_task_handler
stranger_is_refused now k user body t db found h =
    let no_owner = stranger-owner user t.created_by h in
    (rw (found, no_owner) refl, rw (found, no_owner) refl, rw (found, no_owner) refl)

module _ {A : Type 0} where
  keep-All : (p : A → Bool) (xs : List A) → All (λ x. p x ≡ true) (keep p xs)
  keep-All p [] = tt
  keep-All p (x ∷ xs) = ground (arith, keep-All p xs)

  All-drop : (P : A → Type 0) (n : ℕ) (xs : List A) → All P xs → All P (drop n xs)
  All-drop P zero xs h = h
  All-drop P (suc n) [] h = tt
  All-drop P (suc n) (x ∷ xs) h = All-drop P n xs h.1

matches-owner :
    (uid : ℕ) (f : TaskFilter) (t : Task)
    → f.created_by ≡ some uid
    → matches f t ≡ true
    → t.created_by ≡ some uid
matches-owner uid f t mine hit = ground arith

-- A page of at most `limit` rows, none of them another user's.
page_owned :
    (uid : ℕ) (f : TaskFilter) (limit offset : ℕ) (db : Db)
    → f.created_by ≡ some uid
    → 0 < limit
    → All (λ t. t.created_by ≡ some uid) (get_all_tasks f (some limit) (some offset) db)
      × (length (get_all_tasks f (some limit) (some offset) db) ≤ limit)
unfolding get_all_tasks
page_owned uid f zero offset db mine pos = absurd (omega arith)
page_owned uid f (suc limit) offset db mine pos =
    let mine_only : All (λ t. t.created_by ≡ some uid) (keep (matches f) db.tasks) =
      All-imp (λ t hit. matches-owner uid f t mine hit) _ (keep-All (matches f) db.tasks) in
    (
      All-take _ (suc limit) _
          (All-drop _ offset _ (All-order_by (descending scheduled) _ _ mine_only)),
      length-take-le (suc limit) _,
    )

ok-eq {ℓ} : {A : Type ℓ} {a b : A} → ok a ≡ ok b → a ≡ b
ok-eq e = cc

-- A user who is no admin gets only own tasks from `GET /tasks/`, at most `limit` of them, with the
-- number of all own tasks that pass the filters as the total.
pub list_tasks_handler-own :
    (user : User) (q : ListQuery) (db : Db) (items : List Task) (total : ℕ)
    → user.status ≢ status_admin
    → list_tasks_handler user q db ≡ ok (items, total)
    → All (λ t. t.created_by ≡ some user.id) items
      × (length items ≤ q.limit)
      × (total ≡ count_where (matches (list_filter user q [])) db.tasks)
unfolding list_tasks_handler count_tasks
list_tasks_handler-own user q db items total plain e = elim (Bool-cases (accepts_query q)) [
  | inl fine ↦
      let f = list_filter user q [] in
      let page = page_owned user.id f q.limit q.offset db (scoped user plain) (positive q fine) in
      subst
        (λ (r : List Task × ℕ).
          All (λ t. t.created_by ≡ some user.id) r.0
          × (length r.0 ≤ q.limit)
          × (r.1 ≡ count_where (matches f) db.tasks))
        (ok-eq (rw fine at e)) (page.0, page.1, refl)
  | inr bad ↦ cc (rw bad at e)
]
  where
    scoped : (user : User) → user.status ≢ status_admin → scoped_user_id user ≡ some user.id
    scoped user plain = ground arith

    positive : (q : ListQuery) → accepts_query q ≡ true → 0 < q.limit
    positive q h = ground arith

stranger-guard :
    (user : User) (owner : Option ℕ)
    → IsStranger user owner
    → (not (is_admin user) && not (created_by_user owner user)) ≡ true
stranger-guard user none h = ground arith
stranger-guard user (some o) h = elim (Bool-cases (o == user.id)) [
  | inl same ↦ absurd (h.1 (ap some ((==_iff o user.id).0 same)))
  | inr other ↦ rw other (ground arith)
]

-- The batch endpoint checks no channel: of a body that `POST /tasks/` answers with 404 because the
-- channel is another user's, `POST /tasks/batch` makes a task.
pub create_batch_handler-unchecked :
    (uuid : Text) (now project : ℕ) (user : User) (body : NewTask) (ch : Channel) (db : Db)
    → accepts_task body ≡ true
    → db.default_project ≡ some project
    → get_channel_by_id body.channel_id db.channels ≡ some ch
    → IsStranger user ch.created_by
    → All (λ (t : Task). t.id < db.next_id) db.tasks
    → (create_task_handler uuid now user body db ≡ (http_error 404, db))
      × ((t : Task) × ((create_batch_handler now user ((uuid, body) ∷ []) db).0 ≡ ok (t ∷ []))
          × (t.channel_id ≡ body.channel_id))
unfolding create_task_handler create_batch_handler
create_batch_handler-unchecked uuid now project user body ch db valid default found h below =
    let body' = record body { created_by = some user.id } in
    let row = new_row db.next_id uuid project body' now in
    let db' = record db { tasks = db.tasks ++ row ∷ []; next_id = db.next_id + 1 } in
    let read_back : get_task db' db.next_id ≡ some row =
      fetch_one-snoc key db.next_id db.tasks row refl below in
    (
      rw (valid, found, stranger-guard user ch.created_by h) refl,
      (
        row,
        rw valid (
            ap (λ p. (batch_response db (insert_batch_in now ((uuid, body') ∷ []) db p)).0) default
            ∙ ap (λ r. ok (add_found r [])) read_back),
        refl,
      ),
    )
