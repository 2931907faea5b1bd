-- ===== src/Monitors/Split.antt =====
-- concurrency/monitorObject.cpp, and the classes of concurrency/monitorObjectCpp20.cpp: `get` gives the
-- mutex back between `wait` and `lock`. A step is one access of one thread to what the threads share. A
-- thread that waits for the condition variable may wake at any time, as the language allows, so
-- `notify_one` changes nothing.
pub mod Crash
mod Tests
use cpp20examples.Prelude.{
  ◌+◌, ℕ, ◌/◌, ◌%◌, ◌==◌, ◌≡◌, Bool, true, false, if◌then◌else◌, List, [], ◌∷◌, ◌++◌,
}
use cpp20examples.Threads.{System, Step}

-- Where a thread is. In `get`: before the lock of `wait`, at its predicate, asleep, at the unlock that
-- ends `wait`, before `lock`, at `front`, at `pop` with the value read, at the unlock, at its end; or it
-- has called `front` or `pop` on the empty queue, which is undefined. In `add`: before the lock, at
-- `push`, at the unlock, at `notify_one`, at its end.
pub data Pc : Type 0 where
  wait_lock test asleep wait_unlock get_lock front : Pc
  pop get_unlock got : ℕ → Pc
  crashed : Pc
  add_lock push : ℕ → Pc
  add_unlock notify added : Pc

-- `myQueue` and `monitMutex`
pub record ThreadSafeQueue : Type 0 where
  pub my_queue : List ℕ
  pub locked : Bool

-- `empty()`
abbrev pub is_empty : List ℕ → Bool
is_empty [] = true
is_empty (x ∷ q) = false

-- The actions of `wait`, with the predicate of `get`.
pub data Wait (m : ThreadSafeQueue) : Pc → ThreadSafeQueue → Pc → Type 0 where
  lock_wait : m.locked ≡ false → Wait m wait_lock (record m { locked = true }) test
  found : is_empty m.my_queue ≡ false → Wait m test m wait_unlock
  sleep : is_empty m.my_queue ≡ true → Wait m test (record m { locked = false }) asleep
  wake : Wait m asleep m wait_lock
  unlock_wait : Wait m wait_unlock (record m { locked = false }) get_lock

-- The actions of `get`.
pub data Get (m : ThreadSafeQueue) : Pc → ThreadSafeQueue → Pc → Type 0 where
  waits : {p p' : Pc} {m' : ThreadSafeQueue} → Wait m p m' p' → Get m p m' p'
  lock_get : m.locked ≡ false → Get m get_lock (record m { locked = true }) front
  read_front : {x : ℕ} {q : List ℕ} → m.my_queue ≡ x ∷ q → Get m front m (pop x)
  no_front : m.my_queue ≡ [] → Get m front m crashed
  pop_front :
      {v x : ℕ} {q : List ℕ}
      → m.my_queue ≡ x ∷ q
      → Get m (pop v) (record m { my_queue = q }) (get_unlock v)
  no_pop : {v : ℕ} → m.my_queue ≡ [] → Get m (pop v) m crashed
  unlock_get : {v : ℕ} → Get m (get_unlock v) (record m { locked = false }) (got v)

-- The actions of `add`.
pub data Add (m : ThreadSafeQueue) : Pc → ThreadSafeQueue → Pc → Type 0 where
  lock_add : {v : ℕ} → m.locked ≡ false → Add m (add_lock v) (record m { locked = true }) (push v)
  push_back : {v : ℕ} → Add m (push v) (record m { my_queue = m.my_queue ++ v ∷ [] }) add_unlock
  unlock_add : Add m add_unlock (record m { locked = false }) notify
  notify_one : Add m notify m added

pub data Act (m : ThreadSafeQueue) (p : Pc) (m' : ThreadSafeQueue) (p' : Pc) : Type 0 where
  get : Get m p m' p' → Act m p m' p'
  add : Add m p m' p' → Act m p m' p'

-- `main`, with `k` threads of each kind: those with an even number add what `dice` gives, the others
-- get. The program has 10 of each kind; the numbers come from the random engine of the library.
abbrev pub init : (ℕ → ℕ) → System ThreadSafeQueue Pc
init dice = record {
  memory = record { my_queue = []; locked = false };
  pc = λ i. if i % 2 == 0 then add_lock (dice (i / 2)) else wait_lock;
}

abbrev pub MainStep : ℕ → System ThreadSafeQueue Pc → System ThreadSafeQueue Pc → Type 0
MainStep k = Step (k + k) Act

-- The classes of concurrency/monitorObjectCpp20.cpp: `add` and `get` are the same.
abbrev pub AddCpp20 : ThreadSafeQueue → Pc → ThreadSafeQueue → Pc → Type 0
AddCpp20 = Add

abbrev pub GetCpp20 : ThreadSafeQueue → Pc → ThreadSafeQueue → Pc → Type 0
GetCpp20 = Get

abbrev pub WaitCpp20 : ThreadSafeQueue → Pc → ThreadSafeQueue → Pc → Type 0
WaitCpp20 = Wait
