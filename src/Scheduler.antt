-- ===== src/Scheduler.antt =====
-- Package scheduler (src/scheduler): the task scheduler with its cluster locks.
pub mod Cron
pub mod Locks
pub mod Tasks
