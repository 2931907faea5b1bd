-- ===== src/Nested.antt =====
-- Coroutines that call coroutines: coroutines/crsm/main.cpp,
-- coroutines/recursion/main.cpp and coroutines/nested/main.cpp.
pub mod StateMachine
pub mod Recursion
pub mod Async
