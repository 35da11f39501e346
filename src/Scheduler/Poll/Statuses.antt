-- ===== src/Scheduler/Poll/Statuses.antt =====
-- The status in which one poll leaves the tasks that it picks.
use content_fabric.Base.{
  ℕ, ◌≡◌, ◌≢◌, refl, sym, ap, ◌∙◌, Bool, none, some, List, [], ◌∷◌, if◌then◌else◌, Bool-cases, inl,
  inr, All, All-keep, All-take, take, keep,
}
use mathlib.Core.Option
use content_fabric.Table.{Distinct}
use content_fabric.Table.Order.{order_by, ascending, All-order_by}
use content_fabric.Table.Subsets.{Distinct-keep, Distinct-take, Distinct-order_by, fetch_one_self}
use content_fabric.Tasks.{TaskStatus, Task, Db, pending, processing}
use content_fabric.Tasks.Repo.{get_task, set_status_row, mark_task_processing, update_task_status}
use content_fabric.Tasks.Repo.Laws.{key, update_by_id-writes, update_by_id-leaves}
use content_fabric.Tasks.Repo.Marks.{mark_task_processing-get, mark_task_processing-leaves}
use content_fabric.Tasks.Queries.{get_pending_tasks, is_due, scheduled}
use content_fabric.Queue.{Job}
use content_fabric.Scheduler.Poll.{State, job_of, enqueue_task, enqueue_all, enqueue_pending_tasks}
use content_fabric.Scheduler.Poll.Laws.{enqueue_task-taken, enqueue_task-lost}

pub update_task_status-get :
    (now k : ℕ) (status : TaskStatus) (db : Db)
    → get_task (update_task_status now k status none none db).1 k
      ≡ Option.map (set_status_row now status none none) (get_task db k)
unfolding update_task_status
update_task_status-get now k status db = update_by_id-writes k _ db (λ t. refl)

pub update_task_status-leaves :
    (j now k : ℕ) (status : TaskStatus) (db : Db)
    → j ≢ k
    → get_task (update_task_status now k status none none db).1 j ≡ get_task db j
unfolding update_task_status
update_task_status-leaves j now k status db ne = update_by_id-leaves j k _ _ db (λ t. refl) ne

module _ (redis : Job → Bool) (now : ℕ) where
  -- The status that a picked task gets.
  abbrev pub outcome : Task → TaskStatus
  outcome t = if redis (job_of t) then processing else pending

  abbrev pub HasOutcome : Db → Task → Type 0
  HasOutcome db t = (u : Task) × ((get_task db t.id ≡ some u) × (u.status ≡ outcome t))

  enqueue_task-leaves :
      (t : Task) (count k : ℕ) (st : State)
      → k ≢ t.id
      → get_task (enqueue_task redis now t (count, st)).1.db k ≡ get_task st.db k
  enqueue_task-leaves t count k st ne = elim (Bool-cases (redis (job_of t))) [
    | inl taken ↦
        ap (λ s. get_task s.1.db k) (enqueue_task-taken redis now t count st taken)
        ∙ mark_task_processing-leaves k now t.id st.db ne
    | inr lost ↦
        ap (λ s. get_task s.1.db k) (enqueue_task-lost redis now t count st lost)
        ∙ update_task_status-leaves k now t.id pending (mark_task_processing now t.id st.db).1 ne
        ∙ mark_task_processing-leaves k now t.id st.db ne
  ]

  enqueue_task-HasOutcome :
      (t : Task) (count : ℕ) (st : State)
      → get_task st.db t.id ≡ some t
      → HasOutcome (enqueue_task redis now t (count, st)).1.db t
  enqueue_task-HasOutcome t count st found =
      let marked : get_task (mark_task_processing now t.id st.db).1 t.id
          ≡ some (set_status_row now processing none none t) =
        mark_task_processing-get now t.id st.db
        ∙ ap (Option.map (set_status_row now processing none none)) found in
      elim (Bool-cases (redis (job_of t))) [
        | inl taken ↦ (
          set_status_row now processing none none t,
          (
            ap (λ s. get_task s.1.db t.id) (enqueue_task-taken redis now t count st taken) ∙ marked,
            rw taken refl,
          ),
        )
        | inr lost ↦ (
          set_status_row now pending none none (set_status_row now processing none none t),
          (
            ap (λ s. get_task s.1.db t.id) (enqueue_task-lost redis now t count st lost)
                ∙ update_task_status-get now t.id pending (mark_task_processing now t.id st.db).1
                ∙ ap (Option.map (set_status_row now pending none none)) marked,
            rw lost refl,
          ),
        )
      ]

  enqueue_all-leaves :
      (ts : List Task) (k : ℕ) (s : ℕ × State)
      → All (λ t. t.id ≢ k) ts
      → get_task (enqueue_all redis now ts s).1.db k ≡ get_task s.1.db k
  unfolding enqueue_all
  enqueue_all-leaves [] k s h = refl
  enqueue_all-leaves (t ∷ ts) k (count, st) h =
      enqueue_all-leaves ts k (enqueue_task redis now t (count, st)) h.1
      ∙ enqueue_task-leaves t count k st (λ e. h.0 (sym e))

  still_there :
      (t : Task) (count : ℕ) (st : State) (ts : List Task)
      → All (λ s. s.id ≢ t.id) ts
      → All (λ s. get_task st.db s.id ≡ some s) ts
      → All (λ s. get_task (enqueue_task redis now t (count, st)).1.db s.id ≡ some s) ts
  still_there t count st [] h k = tt
  still_there t count st (s ∷ ts) h k =
      (enqueue_task-leaves t count s.id st h.0 ∙ k.0, still_there t count st ts h.1 k.1)

  enqueue_all-HasOutcome :
      (ts : List Task) (s : ℕ × State)
      → Distinct key ts
      → All (λ t. get_task s.1.db t.id ≡ some t) ts
      → All (HasOutcome (enqueue_all redis now ts s).1.db) ts
  unfolding enqueue_all
  enqueue_all-HasOutcome [] s d h = tt
  enqueue_all-HasOutcome (t ∷ ts) (count, st) d h =
      let after = enqueue_task redis now t (count, st) in
      let here = enqueue_task-HasOutcome t count st h.0 in
      (
        (here.0, (enqueue_all-leaves ts t.id after d.0 ∙ here.1.0, here.1.1)),
        enqueue_all-HasOutcome ts after d.1 (still_there t count st ts d.0 h.1),
      )

-- After a poll of tasks with distinct ids, each of the due tasks that it picks is processing if Redis
-- took its job, and pending, to be picked again, if not; no other task has changed.
pub enqueue_pending_tasks-HasOutcome :
    (redis : Job → Bool) (now : ℕ) (st : State)
    → Distinct key st.db.tasks
    → let picked = get_pending_tasks now (some 50) st.db in
      let after = (enqueue_pending_tasks redis now st).1.db in
      All (HasOutcome redis now after) picked
      × ((k : ℕ) → All (λ t. t.id ≢ k) picked → get_task after k ≡ get_task st.db k)
unfolding enqueue_pending_tasks get_pending_tasks
enqueue_pending_tasks-HasOutcome redis now st d =
    let due : List Task = keep (is_due now) st.db.tasks in
    let picked : List Task = take 50 (order_by (ascending scheduled) due) in
    (
      enqueue_all-HasOutcome redis now picked (0, st)
          (Distinct-take key 50 _ (
            Distinct-order_by key (ascending scheduled) due
              (Distinct-keep key (is_due now) st.db.tasks d)))
          (All-take (λ t. get_task st.db t.id ≡ some t) 50 _
            (All-order_by (ascending scheduled) (λ t. get_task st.db t.id ≡ some t) due
              (All-keep (λ t. get_task st.db t.id ≡ some t) (is_due now) st.db.tasks
                (fetch_one_self key st.db.tasks d)))),
      λ k others. enqueue_all-leaves redis now picked k (0, st) others,
    )
