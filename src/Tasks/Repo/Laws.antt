-- ===== src/Tasks/Repo/Laws.antt =====
-- The guarded updates of task_repo.py, as a reader of the table sees them.
use content_fabric.Base.{
  ℕ, ◌≡◌, refl, ◌∙◌, ap, ◌≢◌, inl, inr, Bool, true, false, ◌&&◌, Option, none, some, List, [], ◌∷◌,
  arith, ltb, ◌==◌, if◌then◌else◌, Bool-cases,
}
use content_fabric.Table.{
  fetch_one, update_where, count_where, has_key, Distinct, count_option, count_where-fetch_one,
  fetch_one-update_where, update_where-none, Distinct-update_where,
}
use content_fabric.Tasks.{Task, Db, cancelled}
use content_fabric.Tasks.Repo.{
  get_task, always, update_by_id, is_open, can_retry, reset, cancel_task, retry_task,
  retry_all_failed_by_channel,
}
use mathlib.Core.Option

abbrev pub key : Task → ℕ
key t = t.id

-- Whether a statement on one id matches a row.
abbrev pub matches_guard : (Task → Bool) → Option Task → Bool
matches_guard g none = false
matches_guard g (some t) = g t

abbrev pub apply_guarded : (Task → Bool) → (Task → Task) → Task → Task
apply_guarded g f t = if g t then f t else t

count_option-pos :
    (g : Task → Bool) (t : Option Task) → ltb 0 (count_option g t) ≡ matches_guard g t
count_option-pos g none = refl
count_option-pos g (some t) = ground arith

-- At key `k` the guard alone decides, and at another key nothing is written.
fetch_one-guarded :
    (k : ℕ) (g : Task → Bool) (f : Task → Task)
    → ((t : Task) → (f t).id ≡ t.id)
    → (rows : List Task)
    → fetch_one (has_key key k) (update_where (λ t. has_key key k t && g t) f rows)
      ≡ Option.map (apply_guarded g f) (fetch_one (has_key key k) rows)
fetch_one-guarded k g f keep [] = refl
fetch_one-guarded k g f keep (t ∷ rows) = ground (arith, keep t, fetch_one-guarded k g f keep rows)

fetch_one-unguarded :
    (j k : ℕ) (g : Task → Bool) (f : Task → Task)
    → ((t : Task) → (f t).id ≡ t.id)
    → (rows : List Task) → j ≢ k
    → fetch_one (has_key key j) (update_where (λ t. has_key key k t && g t) f rows)
      ≡ fetch_one (has_key key j) rows
fetch_one-unguarded j k g f keep [] ne = refl
fetch_one-unguarded j k g f keep (t ∷ rows) ne =
    ground (arith, keep t, fetch_one-unguarded j k g f keep rows ne)

-- What a statement `UPDATE … SET f WHERE id = k AND g` reports and writes.
pub record Updates (k : ℕ) (g : Task → Bool) (f : Task → Task) (db : Db) (r : Bool × Db)
    : Type 0 where
  pub reports : r.0 ≡ matches_guard g (get_task db k)
  pub writes : get_task r.1 k ≡ Option.map (apply_guarded g f) (get_task db k)
  pub leaves : (j : ℕ) → j ≢ k → get_task r.1 j ≡ get_task db j

-- A statement on one id with no guard writes the row of that id.
pub update_by_id-writes :
    (k : ℕ) (f : Task → Task) (db : Db)
    → ((t : Task) → (f t).id ≡ t.id)
    → get_task (update_by_id k always f db).1 k ≡ Option.map f (get_task db k)
update_by_id-writes k f db keep = fetch_one-guarded k always f keep db.tasks

pub update_by_id-leaves :
    (j k : ℕ) (g : Task → Bool) (f : Task → Task) (db : Db)
    → ((t : Task) → (f t).id ≡ t.id)
    → j ≢ k
    → get_task (update_by_id k g f db).1 j ≡ get_task db j
update_by_id-leaves j k g f db keep ne = fetch_one-unguarded j k g f keep db.tasks ne

pub update_by_id-Updates :
    (k : ℕ) (g : Task → Bool) (f : Task → Task) (db : Db)
    → ((t : Task) → (f t).id ≡ t.id)
    → Distinct key db.tasks
    → Updates k g f db (update_by_id k g f db)
update_by_id-Updates k g f db keep d = record {
  reports =
      ap (ltb 0) (count_where-fetch_one key k g db.tasks d) ∙ count_option-pos g (get_task db k);
  writes = fetch_one-guarded k g f keep db.tasks;
  leaves = λ j ne. fetch_one-unguarded j k g f keep db.tasks ne;
}

-- `cancel_task` reports True exactly for a pending or processing task, which it makes cancelled;
-- any other task, and every task under another id, stays as it was.
pub cancel_task-Updates :
    (k : ℕ) (db : Db)
    → Distinct key db.tasks
    → Updates k (λ t. is_open t.status) (λ t. record t { status = cancelled }) db (cancel_task k db)
unfolding cancel_task
cancel_task-Updates k db d = update_by_id-Updates k _ _ db (λ t. refl) d

-- `retry_task` reports True exactly for a failed or cancelled task.
pub retry_task-Updates :
    (k : ℕ) (db : Db)
    → Distinct key db.tasks
    → Updates k (λ t. can_retry t.status) reset db (retry_task k db)
unfolding retry_task
retry_task-Updates k db d = update_by_id-Updates k _ _ db (λ t. refl) d

module _ (channel : ℕ) where
  abbrev retryable : Task → Bool
  retryable t = (t.channel_id == channel) && can_retry t.status

  count_where-reset :
      (rows : List Task) → count_where retryable (update_where retryable reset rows) ≡ 0
  count_where-reset [] = refl
  count_where-reset (t ∷ rows) = elim (Bool-cases (retryable t)) [
    | inl hit ↦ rw hit (ground (arith, count_where-reset rows))
    | inr miss ↦ rw miss (rw miss (omega (arith, count_where-reset rows)))
  ]

-- `retry_all_failed_by_channel` returns the number of failed and cancelled tasks of the channel,
-- resets each of them and no other task, and leaves none: a second call returns 0 and changes
-- nothing.
pub retry_all_failed_by_channel_lem :
    (channel : ℕ) (db : Db)
    → let (n, db') = retry_all_failed_by_channel channel db in
      (n ≡ count_where (retryable channel) db.tasks)
      × ((k : ℕ)
          → get_task db' k ≡ Option.map (apply_guarded (retryable channel) reset) (get_task db k))
      × (retry_all_failed_by_channel channel db' ≡ (0, db'))
unfolding retry_all_failed_by_channel
retry_all_failed_by_channel_lem channel db =
    let none_left = count_where-reset channel db.tasks in
    (
      refl,
      λ k. fetch_one-update_where key k (retryable channel) reset (λ t. refl) db.tasks,
      λ i. (
        none_left i,
        record db { tasks = update_where-none (retryable channel) reset _ none_left i },
      ),
    )

-- A pending or processing task that is cancelled and then retried is pending again, with one more
-- retry and no error message; both calls report True, and all other tasks stay.
pub cancel-retry :
    (k : ℕ) (t : Task) (db : Db)
    → Distinct key db.tasks
    → get_task db k ≡ some t
    → is_open t.status ≡ true
    → let (cancelled_it, db1) = cancel_task k db in
      let (retried_it, db2) = retry_task k db1 in
      (cancelled_it ≡ true)
      × (retried_it ≡ true)
      × (get_task db2 k ≡ some (reset t))
      × ((j : ℕ) → j ≢ k → get_task db2 j ≡ get_task db j)
unfolding cancel_task retry_task
cancel-retry k t db d found open_now =
    let c =
      update_by_id-Updates k (λ s. is_open s.status) (λ s. record s { status = cancelled }) db
        (λ s. refl) d in
    let db1 = (cancel_task k db).1 in
    let d1 : Distinct key db1.tasks = Distinct-update_where key _ _ (λ s. refl) db.tasks d in
    let r = update_by_id-Updates k (λ s. can_retry s.status) reset db1 (λ s. refl) d1 in
    let now_cancelled : get_task db1 k ≡ some (record t { status = cancelled }) =
      c.writes ∙ rw (found) (rw open_now) in
    (
      c.reports ∙ rw found open_now,
      r.reports ∙ rw now_cancelled refl,
      r.writes ∙ rw now_cancelled refl,
      λ j ne. r.leaves j ne ∙ c.leaves j ne,
    )
