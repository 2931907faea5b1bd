-- ===== src/Monitors.antt =====
-- The monitor objects of concurrency/, which are queues behind a mutex and a condition variable, and its
-- spinlock.
pub mod ThreadQueue
pub mod GuardedQueue
pub mod Split
pub mod Spinlock
