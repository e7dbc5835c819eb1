-- ===== src/Scheduler.antt =====
-- metadata/scheduler: repair jobs for chunks with too few replicas.
pub mod State
pub mod Schedule
pub mod Jobs
pub mod Keeps
pub mod Frame
pub mod Evicts
pub mod Completes
