-- ===== src/Scheduler.antt =====
-- The cooperative schedulers of concurrency/: one loop over several containers of jobs.
pub mod Loop
pub mod Queue
pub mod Stack
pub mod Priority
pub mod Cooperative
pub mod TaskScheduler
pub mod Timed
