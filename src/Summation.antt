-- ===== src/Summation.antt =====
-- The programs of concurrency/ that add up many values by several threads: the actions of a thread on the
-- shared `sum` and on `myMutex`, in the order in which `sumUp` makes them. A step is one lock, unlock,
-- atomic addition, read or write.
pub mod Guarded
pub mod Finish
pub mod Programs
mod Results
pub mod Single
use cpp20examples.Prelude.{ℕ, ◌+◌, ◌%◌, ◌^◌, ◌≡◌, Bool, true, false, List, [], ◌∷◌}
use cpp20examples.Threads.{System, Step}

-- What a thread does next: `lock_guard` and its end, `sum += v` on an `unsigned long long`, and
-- `fetch_add(v)` or `+= v` on an atomic.
pub data Action : Type 0 where
  lock unlock : Action
  add : ℕ → Action
  fetch_add : ℕ → Action

-- `sum` and `myMutex`
pub record Memory : Type 0 where
  pub sum : ℕ
  pub locked : Bool

-- Where a thread is: before its next action, or within `sum += v` with the `sum` that it has read.
pub data Pc : Type 0 where
  before : List Action → Pc
  within : (read v : ℕ) → List Action → Pc

-- The sum wraps around at 2 ^ 64.
pub data Act (m : Memory) : Pc → Memory → Pc → Type 0 where
  acquire :
      {r : List Action}
      → m.locked ≡ false
      → Act m (before (lock ∷ r)) (record m { locked = true }) (before r)
  release : {r : List Action} → Act m (before (unlock ∷ r)) (record m { locked = false }) (before r)
  read_sum : {v : ℕ} {r : List Action} → Act m (before (add v ∷ r)) m (within m.sum v r)
  write_sum :
      {read v : ℕ} {r : List Action}
      → Act m (within read v r) (record m { sum = (read + v) % 2 ^ 64 }) (before r)
  increase :
      {v : ℕ} {r : List Action}
      → Act m (before (fetch_add v ∷ r)) (record m { sum = (m.sum + v) % 2 ^ 64 }) (before r)

-- `n` threads at their first actions
abbrev pub threads : (ℕ → List Action) → System Memory Pc
threads code = record { memory = record { sum = 0; locked = false }; pc = λ i. before (code i) }

abbrev pub ThreadStep : ℕ → System Memory Pc → System Memory Pc → Type 0
ThreadStep n = Step n Act
