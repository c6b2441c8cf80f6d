-- ===== src/Scheduler.antt =====
-- crates/pn-scheduler: the daily summary.
pub mod Summary
pub mod Job
