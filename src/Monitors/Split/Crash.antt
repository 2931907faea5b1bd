-- ===== src/Monitors/Split/Crash.antt =====
-- Two threads find the queue not empty, and both take from it.
use cpp20examples.Prelude.{ℕ, ◌+◌, ◌≤◌, ◌<◌, ◌≡◌, refl, arith}
use cpp20examples.Steps.{Reach, start, later}
use cpp20examples.Threads.{System, pick}
use cpp20examples.Monitors.Split.{
  Pc, crashed, ThreadSafeQueue, lock_wait, found, unlock_wait, waits, lock_get, read_front,
  no_front, pop_front, unlock_get, lock_add, push_back, unlock_add, notify_one, get, add, init,
  MainStep,
}

module _ (k : ℕ) (dice : ℕ → ℕ) (h : 2 ≤ k) where
  abbrev Reached : Type 0
  Reached = (s : System ThreadSafeQueue Pc) × Reach (MainStep k) (init dice) s

  -- Thread 0 has added its number.
  abbrev one_added : Reached
  one_added = (
    _,
    later
        (later
          (later (later start (pick 0 (omega arith) (add (lock_add refl))))
            (pick 0 (omega arith) (add push_back)))
          (pick 0 (omega arith) (add unlock_add)))
        (pick 0 (omega arith) (add notify_one)),
  )

  -- Threads 1 and 3 have come back from `wait`.
  abbrev both_waited : Reached
  both_waited = (
    _,
    later
        (later
          (later
            (later
              (later (later one_added.1 (pick 1 (omega arith) (get (waits (lock_wait refl)))))
                (pick 1 (omega arith) (get (waits (found refl)))))
              (pick 1 (omega arith) (get (waits unlock_wait))))
            (pick 3 (omega arith) (get (waits (lock_wait refl)))))
          (pick 3 (omega arith) (get (waits (found refl)))))
        (pick 3 (omega arith) (get (waits unlock_wait))),
  )

  -- Thread 1 has the number; thread 3 reads the front of the empty queue.
  abbrev one_crashed : Reached
  one_crashed = (
    _,
    later
        (later
          (later
            (later
              (later (later both_waited.1 (pick 1 (omega arith) (get (lock_get refl))))
                (pick 1 (omega arith) (get (read_front refl))))
              (pick 1 (omega arith) (get (pop_front refl))))
            (pick 1 (omega arith) (get unlock_get)))
          (pick 3 (omega arith) (get (lock_get refl))))
        (pick 3 (omega arith) (get (no_front refl))),
  )

-- With two threads of each kind or more, and whatever numbers the dice give, the program can reach a
-- state in which a thread has called `front` on the empty queue.
pub split_get_crashes :
    (k : ℕ) (dice : ℕ → ℕ)
    → 2 ≤ k
    → (s : System ThreadSafeQueue Pc) × Reach (MainStep k) (init dice) s
      × ((i : ℕ) × (i < k + k) × (s.pc i ≡ crashed))
split_get_crashes k dice h =
    ((one_crashed k dice h).0, (one_crashed k dice h).1, (3, omega arith, refl))
