-- ===== src/Monitors/ThreadQueue.antt =====
-- concurrency/threadSafeQueue.cpp: a step is one access of one thread to what the threads share. A
-- thread that waits for the condition variable may wake at any time, as the language allows, so
-- `notify_one` changes nothing. Numbers are natural numbers: the program stays far from the limits of
-- `int`.
pub mod Order
pub mod Sum
mod Tests
use cpp20examples.Prelude.{ℕ, ◌+◌, ◌≡◌, Bool, true, false, ltb, if◌then◌else◌, List, [], ◌∷◌, ◌++◌}
use cpp20examples.Threads.{System, Step}

-- Where a thread is. One that removes: before the lock, at the test of the predicate, asleep, at
-- `front`, at `pop_front` with the number read, at the unlock, at `sharedSum +=`, at its end; or it has
-- called `front` or `pop_front` on the empty queue, which is undefined. One that adds: at
-- `++sharedCounter`, before the lock, at `push_back`, at the unlock, at `notify_one`, at its end.
pub data Pc : Type 0 where
  remove_lock test asleep front : Pc
  pop remove_unlock add_to_sum : ℕ → Pc
  removed crashed count : Pc
  add_lock push : ℕ → Pc
  add_unlock notify added : Pc

-- `d_numberQueue`, `d_mutex`, `sharedSum` and `sharedCounter`, with the numbers pushed and popped so
-- far, which no code reads.
pub record Memory : Type 0 where
  pub queue : List ℕ
  pub locked : Bool
  pub shared_sum : ℕ
  pub shared_counter : ℕ
  pub pushed : List ℕ
  pub popped : List ℕ

-- `empty()`
abbrev pub is_empty : List ℕ → Bool
is_empty [] = true
is_empty (x ∷ q) = false

-- The actions of a thread of the first kind, `sharedSum += queue.removeNumber()`, and of the second,
-- `queue.addNumber(++sharedCounter)`. `after` is where a thread goes with the number that it has removed.
pub data Act (after : ℕ → Pc) (m : Memory) : Pc → Memory → Pc → Type 0 where
  lock_remove : m.locked ≡ false → Act after m remove_lock (record m { locked = true }) test
  found : is_empty m.queue ≡ false → Act after m test m front
  sleep : is_empty m.queue ≡ true → Act after m test (record m { locked = false }) asleep
  wake : Act after m asleep m remove_lock
  read_front : {x : ℕ} {q : List ℕ} → m.queue ≡ x ∷ q → Act after m front m (pop x)
  no_front : m.queue ≡ [] → Act after m front m crashed
  pop_front :
      {v x : ℕ} {q : List ℕ}
      → m.queue ≡ x ∷ q
      → Act after m (pop v) (record m { queue = q; popped = m.popped ++ x ∷ [] }) (remove_unlock v)
  no_pop : {v : ℕ} → m.queue ≡ [] → Act after m (pop v) m crashed
  unlock_remove : {v : ℕ} → Act after m (remove_unlock v) (record m { locked = false }) (after v)
  sum : {v : ℕ} → Act after m (add_to_sum v) (record m { shared_sum = m.shared_sum + v }) removed
  increment :
      Act after m count
        (record m { shared_counter = m.shared_counter + 1 })
        (add_lock (m.shared_counter + 1))
  lock_add :
      {v : ℕ} → m.locked ≡ false → Act after m (add_lock v) (record m { locked = true }) (push v)
  push_back :
      {v : ℕ}
      → Act after m
          (push v)
          (record m { queue = m.queue ++ v ∷ []; pushed = m.pushed ++ v ∷ [] })
          add_unlock
  unlock_add : Act after m add_unlock (record m { locked = false }) notify
  notify_one : Act after m notify m added

-- `main`, with `k` threads of each kind; the program has 100.
abbrev pub init : ℕ → System Memory Pc
init k = record {
  memory = record {
    queue = [];
    locked = false;
    shared_sum = 0;
    shared_counter = 0;
    pushed = [];
    popped = [];
  };
  pc = λ i. if ltb i k then remove_lock else count;
}

abbrev pub MainStep : ℕ → System Memory Pc → System Memory Pc → Type 0
MainStep k = Step (k + k) (Act add_to_sum)
