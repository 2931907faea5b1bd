-- ===== src/Monitors/ThreadQueue/Tests.antt =====
-- A run of one thread of each kind to its end, and the theorem at its last state.
use cpp20examples.Prelude.{ℕ, zero, suc, ◌+◌, ◌<◌, ◌≡◌, refl, arith, [], inl, inr}
use cpp20examples.Steps.{Reach, start, later}
use cpp20examples.Threads.{System, pick}
use cpp20examples.Monitors.ThreadQueue.{
  Pc, Memory, lock_remove, found, read_front, pop_front, unlock_remove, sum, increment, lock_add,
  push_back, unlock_add, notify_one, init, MainStep,
}
use cpp20examples.Monitors.ThreadQueue.Sum.{Ended, thread_queue_sum}
use cpp20examples.Monitors.ThreadQueue.Sum.Weights.{triangle}

-- The thread that adds has pushed 1.
abbrev pushed_one : (s : System Memory Pc) × Reach (MainStep 1) (init 1) s
pushed_one = (
  _,
  later
      (later
        (later
          (later (later start (pick 1 (omega arith) increment))
            (pick 1 (omega arith) (lock_add refl)))
          (pick 1 (omega arith) push_back))
        (pick 1 (omega arith) unlock_add))
      (pick 1 (omega arith) notify_one),
)

-- The other thread has taken it out and added it to the sum.
abbrev ended : (s : System Memory Pc) × Reach (MainStep 1) (init 1) s
ended = (
  _,
  later
      (later
        (later
          (later
            (later (later pushed_one.1 (pick 0 (omega arith) (lock_remove refl)))
              (pick 0 (omega arith) (found refl)))
            (pick 0 (omega arith) (read_front refl)))
          (pick 0 (omega arith) (pop_front refl)))
        (pick 0 (omega arith) unlock_remove))
      (pick 0 (omega arith) sum),
)

all-Ended : (i : ℕ) → i < 1 + 1 → Ended (ended.0.pc i)
all-Ended zero h = inl refl
all-Ended (suc zero) h = inr refl
all-Ended (suc (suc i)) h = absurd (omega arith)

thread_queue_sum_example :
    (ended.0.memory.shared_counter ≡ 1)
    × (ended.0.memory.queue ≡ [])
    × (ended.0.memory.shared_sum ≡ triangle 1)
thread_queue_sum_example = thread_queue_sum 1 ended.0 ended.1 all-Ended

-- The number that `main` compares with.
hundred : triangle 100 ≡ 5050
unfolding triangle
hundred = refl
