-- ===== src/Monitors/GuardedQueue.antt =====
-- concurrency/threadsafequeue1.cpp and threadsafequeue2.cpp: queues with the actions of the queue of
-- concurrency/threadSafeQueue.cpp, in programs whose threads add what a die shows, and drop what they get.
-- What the adding threads print is left out.
pub mod Order
use cpp20examples.Prelude.{ℕ, ◌+◌, Bool, false, ltb, if◌then◌else◌, []}
use cpp20examples.Threads.{System, Step}
use cpp20examples.Monitors.ThreadQueue.{Pc, remove_lock, removed, add_lock, Memory, Act}

-- A thread that has got a number ends.
abbrev pub discard : ℕ → Pc
discard v = removed

-- threadsafequeue1.cpp: `add` with the `SendGuard`, whose members unlock and then notify, and `get` with
-- `receiveGuard` and `wait`.
abbrev pub ActGuard : Memory → Pc → Memory → Pc → Type 0
ActGuard = Act discard

-- `main`, with `k` threads of each kind; the program has 100.
abbrev pub init_guard : (dice : ℕ → ℕ) → ℕ → System Memory Pc
init_guard dice k = record {
  memory = record {
    queue = [];
    locked = false;
    shared_sum = 0;
    shared_counter = 0;
    pushed = [];
    popped = [];
  };
  pc = λ i. if ltb i k then add_lock (dice i) else remove_lock;
}

abbrev pub GuardStep : ℕ → System Memory Pc → System Memory Pc → Type 0
GuardStep k = Step (k + k) ActGuard

-- threadsafequeue2.cpp: `add` with a lock whose `unlock` notifies, and `remove` with `makeConsumerLockWhen`.
abbrev pub ActCombined : Memory → Pc → Memory → Pc → Type 0
ActCombined = Act discard

abbrev pub init_combined : (dice : ℕ → ℕ) → ℕ → System Memory Pc
init_combined = init_guard

abbrev pub CombinedStep : ℕ → System Memory Pc → System Memory Pc → Type 0
CombinedStep k = Step (k + k) ActCombined
