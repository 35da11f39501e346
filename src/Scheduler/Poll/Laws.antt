-- ===== src/Scheduler/Poll/Laws.antt =====
-- What one poll puts into the queues, and the requests that it makes of the database.
use content_fabric.Base.{
  ℕ, ◌+◌, ◌≡◌, refl, sym, ap, ◌∙◌, Bool, true, false, none, some, List, [], ◌∷◌, ◌++◌, map, arith,
  if◌then◌else◌, Bool-cases, inl, inr, length, keep, All,
}
use content_fabric.Tasks.{Task, pending}
use content_fabric.Tasks.Repo.{mark_task_processing, update_task_status}
use content_fabric.Tasks.Queries.{get_pending_tasks}
use content_fabric.Tasks.Invariant.{
  Request, mark_processing, set_status, perform, perform_all, IsCovered, IsValid,
}
use content_fabric.Tasks.Invariant.Runs.{perform_all-IsValidBut}
use content_fabric.Queue.{Job}
use content_fabric.Scheduler.Poll.{State, job_of, enqueue_task, enqueue_all, enqueue_pending_tasks}
use mathlib.Core.List.{append_assoc, append-nil}

module _ (redis : Job → Bool) (now : ℕ) where
  -- The tasks whose job Redis takes.
  abbrev pub accepted : List Task → List Task
  accepted = keep (λ t. redis (job_of t))

  abbrev pub taken_state : Task → State → State
  taken_state t st = record {
    db = (mark_task_processing now t.id st.db).1;
    queue = st.queue ++ job_of t ∷ [];
  }

  abbrev pub lost_state : Task → State → State
  lost_state t st = record {
    db = (update_task_status now t.id pending none none (mark_task_processing now t.id st.db).1).1;
    queue = st.queue;
  }

  pub enqueue_task-taken :
      (t : Task) (count : ℕ) (st : State)
      → redis (job_of t) ≡ true
      → enqueue_task redis now t (count, st) ≡ (count + 1, taken_state t st)
  enqueue_task-taken t count st e = rw e refl

  pub enqueue_task-lost :
      (t : Task) (count : ℕ) (st : State)
      → redis (job_of t) ≡ false
      → enqueue_task redis now t (count, st) ≡ (count, lost_state t st)
  enqueue_task-lost t count st e = rw e refl

  enqueue_all-queue :
      (ts : List Task) (count : ℕ) (st : State)
      → let r = enqueue_all redis now ts (count, st) in
        (r.0 ≡ count + length (accepted ts)) × (r.1.queue ≡ st.queue ++ map job_of (accepted ts))
  unfolding enqueue_all
  enqueue_all-queue [] count st = (omega arith, sym (append-nil st.queue))
  enqueue_all-queue (t ∷ ts) count st = elim (Bool-cases (redis (job_of t))) [
    | inl taken ↦
        let rest = enqueue_all-queue ts (count + 1) (taken_state t st) in
        let step = ap (enqueue_all redis now ts) (enqueue_task-taken t count st taken) in
        rw taken (
          ap (λ r. r.0) step ∙ rest.0 ∙ omega arith,
          ap (λ r. r.1.queue) step
              ∙ rest.1
              ∙ append_assoc st.queue (job_of t ∷ []) (map job_of (accepted ts)),
        )
    | inr lost ↦
        let rest = enqueue_all-queue ts count (lost_state t st) in
        let step = ap (enqueue_all redis now ts) (enqueue_task-lost t count st lost) in
        rw lost (ap (λ r. r.0) step ∙ rest.0, ap (λ r. r.1.queue) step ∙ rest.1)
  ]

  -- The requests that the poll makes for the tasks that it picks.
  abbrev pub requests_of : List Task → List Request
  requests_of [] = []
  requests_of (t ∷ ts) =
      if redis (job_of t)
      then mark_processing now t.id ∷ requests_of ts
      else mark_processing now t.id ∷ set_status now t.id pending none none ∷ requests_of ts

  enqueue_all-requests :
      (ts : List Task) (count : ℕ) (st : State)
      → (enqueue_all redis now ts (count, st)).1.db ≡ perform_all (requests_of ts) st.db
  unfolding enqueue_all perform_all perform
  enqueue_all-requests [] count st = refl
  enqueue_all-requests (t ∷ ts) count st = elim (Bool-cases (redis (job_of t))) [
    | inl taken ↦ rw taken (
        ap (λ s. (enqueue_all redis now ts s).1.db) (enqueue_task-taken t count st taken)
        ∙ enqueue_all-requests ts (count + 1) (taken_state t st))
    | inr lost ↦ rw lost (
        ap (λ s. (enqueue_all redis now ts s).1.db) (enqueue_task-lost t count st lost)
        ∙ enqueue_all-requests ts count (lost_state t st))
  ]

  requests_of-IsCovered : (ts : List Task) → All (IsCovered []) (requests_of ts)
  requests_of-IsCovered [] = tt
  requests_of-IsCovered (t ∷ ts) = elim (Bool-cases (redis (job_of t))) [
    | inl taken ↦ rw taken (tt, requests_of-IsCovered ts)
    | inr lost ↦ rw lost (tt, (tt, requests_of-IsCovered ts))
  ]

-- One poll adds to the queues, in the order of their times and behind what is there, the jobs of the
-- first 50 due tasks, less those that Redis refuses, and reports how many it added.
pub enqueue_pending_tasks-queue :
    (redis : Job → Bool) (now : ℕ) (st : State)
    → let picked = get_pending_tasks now (some 50) st.db in
      let (count, st') = enqueue_pending_tasks redis now st in
      (st'.queue ≡ st.queue ++ map job_of (keep (λ t. redis (job_of t)) picked))
      × (count ≡ length (keep (λ t. redis (job_of t)) picked))
unfolding enqueue_pending_tasks
enqueue_pending_tasks-queue redis now st =
    let r = enqueue_all-queue redis now (get_pending_tasks now (some 50) st.db) 0 st in
    (r.1, r.0 ∙ omega arith)

-- A poll keeps the tasks' invariant, whether or not Redis takes the jobs.
pub enqueue_pending_tasks-IsValid :
    (redis : Job → Bool) (now : ℕ) (st : State)
    → IsValid st.db
    → IsValid (enqueue_pending_tasks redis now st).1.db
unfolding enqueue_pending_tasks
enqueue_pending_tasks-IsValid redis now st valid =
    let picked : List Task = get_pending_tasks now (some 50) st.db in
    rw (enqueue_all-requests redis now picked 0 st) (
      perform_all-IsValidBut [] (requests_of redis now picked) st.db
        (requests_of-IsCovered redis now picked) valid)
