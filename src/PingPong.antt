-- ===== src/PingPong.antt =====
-- concurrency/ping_pong_performance_test: two threads that take turns, by five means.
pub mod Semaphore
pub mod AtomicFlags
pub mod AtomicBool
pub mod ConditionVariable
