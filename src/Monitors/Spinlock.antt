-- ===== src/Monitors/Spinlock.antt =====
-- concurrency/problems/spinLock.cpp and concurrency/problems/solutions/spinLockBreak.cpp, which differ
-- in the memory orders and in what is done with the lock held. A step is one atomic action of one
-- thread, and the actions are sequentially consistent.
pub mod Exclusion
mod Tests
use cpp20examples.Prelude.{ℕ, ◌≡◌, Bool, true, false}
use cpp20examples.Threads.{System, Step}

-- Where `workOnResource` is: in the loop of `lock`, between `lock` and `unlock`, or behind them.
pub data Pc : Type 0 where
  locking working ended : Pc

-- The actions of `workOnResource` with the flag before and after: `test_and_set` in `Spinlock::lock`,
-- which ends the loop where the flag was clear, and `clear` in `Spinlock::unlock`.
pub data Act (flag : Bool) : Pc → Bool → Pc → Type 0 where
  acquire : flag ≡ false → Act flag locking true working
  spin : flag ≡ true → Act flag locking true locking
  release : Act flag working false ended

-- `main`; the program has two threads.
abbrev pub init : System Bool Pc
init = record { memory = false; pc = λ i. locking }

abbrev pub MainStep : ℕ → System Bool Pc → System Bool Pc → Type 0
MainStep n = Step n Act

-- spinLockBreak.cpp has the same actions.
abbrev pub ActBreak : Bool → Pc → Bool → Pc → Type 0
ActBreak = Act

abbrev pub MainStepBreak : ℕ → System Bool Pc → System Bool Pc → Type 0
MainStepBreak n = Step n ActBreak
