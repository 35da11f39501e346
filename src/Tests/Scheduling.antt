-- ===== src/Tests/Scheduling.antt =====
-- Runs of the scheduler.
use content_fabric.Base.{◌≡◌, Bool, true, false, none, some, [], map, keep, All}
use content_fabric.Tasks.Queries.{get_pending_tasks}
use content_fabric.Queue.{Job, video_upload}
use content_fabric.Youtube.{returned, broken, Google}
use content_fabric.Scheduler.Poll.{State, job_of, enqueue_pending_tasks}
use content_fabric.Scheduler.Poll.Laws.{enqueue_pending_tasks-queue}
use content_fabric.Scheduler.Poll.Statuses.{HasOutcome, enqueue_pending_tasks-HasOutcome}
use content_fabric.Scheduler.Cron.{CronState, Minute, run_periodic_yii_jobs}
use content_fabric.Scheduler.Cron.Laws.{run_periodic_yii_jobs-once}
use content_fabric.Scheduler.Run.{Daily}
use content_fabric.Tests.Data.{a_db}
use content_fabric.Tests.Tasks.{a_db-IsValid}

-- Redis takes uploads only.
abbrev uploads_only : Job → Bool
uploads_only (video_upload p) = true
uploads_only _ = false

abbrev a_state : State
a_state = record { db = a_db; queue = [] }

enqueue_pending_tasks-queue_example :
    (enqueue_pending_tasks uploads_only 50 a_state).1.queue
    ≡ map job_of (keep (λ t. uploads_only (job_of t)) (get_pending_tasks 50 (some 50) a_db))
enqueue_pending_tasks-queue_example = (enqueue_pending_tasks-queue uploads_only 50 a_state).0

enqueue_pending_tasks-HasOutcome_example :
    All
      (HasOutcome uploads_only 50 (enqueue_pending_tasks uploads_only 50 a_state).1.db)
      (get_pending_tasks 50 (some 50) a_db)
enqueue_pending_tasks-HasOutcome_example =
    (enqueue_pending_tasks-HasOutcome uploads_only 50 a_state a_db-IsValid.distinct).0

abbrev two_o_clock : Minute
two_o_clock = record { date = 20000; hh = 2; mm = 0 }

abbrev idle : CronState
idle = record { queue = []; last_run = [] }

run_periodic_yii_jobs-once_example :
    run_periodic_yii_jobs
      (λ j. true)
      two_o_clock
      (run_periodic_yii_jobs (λ j. true) two_o_clock idle).1
    ≡ (0, (run_periodic_yii_jobs (λ j. true) two_o_clock idle).1)
run_periodic_yii_jobs-once_example = run_periodic_yii_jobs-once (λ j. true) two_o_clock idle

abbrev a_google : Google
a_google = record {
  expired = λ now expiry. false;
  refresh = λ now creds. returned creds;
  answers = λ creds body path n. broken [];
}

abbrev never : Daily
never = record { last_token_check_date = none; last_stats_date = none }
