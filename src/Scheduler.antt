-- ===== src/Scheduler.antt =====
-- prod/scheduler: the poll for due tasks, the timetable, the daily checks and the main loop.
pub mod Poll
pub mod Cron
pub mod Tokens
pub mod Run
pub mod Reconcile
