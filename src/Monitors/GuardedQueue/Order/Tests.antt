-- ===== src/Monitors/GuardedQueue/Order/Tests.antt =====
-- A number that one thread adds and the other takes out.
use cpp20examples.Prelude.{ℕ, ◌+◌, ◌<◌, ◌≡◌, ◌≢◌, ◌++◌, refl, arith, [], ◌∷◌}
use cpp20examples.Steps.{Reach, start, later}
use cpp20examples.Threads.{System, pick}
use cpp20examples.Monitors.ThreadQueue.{
  Pc, crashed, removed, Memory, lock_remove, found, read_front, pop_front, unlock_remove, lock_add,
  push_back, unlock_add,
}
use cpp20examples.Monitors.ThreadQueue.Order.{inside}
use cpp20examples.Monitors.GuardedQueue.Order.{guarded, StepOf, init_of, thread_queue_order}

abbrev dice : ℕ → ℕ
dice i = 6

abbrev taken : (s : System Memory Pc) × Reach (StepOf guarded 1) (init_of guarded dice 1) s
taken = (
  _,
  later
      (later
        (later
          (later
            (later
              (later
                (later (later start (pick 0 (omega arith) (lock_add refl)))
                  (pick 0 (omega arith) push_back))
                (pick 0 (omega arith) unlock_add))
              (pick 1 (omega arith) (lock_remove refl)))
            (pick 1 (omega arith) (found refl)))
          (pick 1 (omega arith) (read_front refl)))
        (pick 1 (omega arith) (pop_front refl)))
      (pick 1 (omega arith) unlock_remove),
)

taken_test : (taken.0.pc 1 ≡ removed) × (taken.0.memory.popped ≡ 6 ∷ [])
taken_test = (refl, refl)

thread_queue_order_example :
    ((i j : ℕ)
      → i < 1 + 1
      → j < 1 + 1
      → i ≢ j
      → inside (taken.0.pc i) ≡ 1
      → inside (taken.0.pc j) ≡ 0)
    × ((i : ℕ) → i < 1 + 1 → taken.0.pc i ≢ crashed)
    × (taken.0.memory.pushed ≡ taken.0.memory.popped ++ taken.0.memory.queue)
thread_queue_order_example = thread_queue_order guarded dice 1 taken.0 taken.1
