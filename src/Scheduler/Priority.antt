-- ===== src/Scheduler/Priority.antt =====
-- The schedulers over `std::priority_queue`: concurrency/problems/priority_queueScheduler.cpp and
-- priority_queueSchedulerSimplified.cpp, and in concurrency/problems/solutions/
-- priority_queueSchedulerComperator.cpp and priority_queueSchedulerUpdatePriority.cpp.
-- `std::priority_queue` is a parameter, any container of jobs; Contract says what is documented of it.
-- Priorities are mathematical integers: the programs stay far from the limits of `int`.
pub mod Contract
pub mod InOrder
pub mod Sorted
pub mod Plain
pub mod Comparator
pub mod Update
pub mod Order
mod Tests
use cpp20examples.Coroutine.{Body, Store, create}
use cpp20examples.Prelude.{
  String, ℕ, Bool, ◌&&◌, ◌||◌, not, ltb, if◌then◌else◌, List, [], ◌∷◌, Option, none, some,
}
use cpp20examples.Prelude.Int.{ℤ, ltb_ℤ}
use cpp20examples.Scheduler.Loop.{Container}

-- `job`, a pair of a priority and a coroutine handle
pub record Job : Type 0 where
  pub prio : ℤ
  pub handle : ℕ

-- `std::ranges::less` on pairs; handles are compared as addresses.
abbrev pub less : Job → Job → Bool
less a b = ltb_ℤ a.prio b.prio || (not (ltb_ℤ b.prio a.prio) && ltb a.handle b.handle)

-- `std::ranges::greater` on pairs
abbrev pub greater : Job → Job → Bool
greater a b = less b a

-- A coroutine that reads a string by a reference in each part of its body: where the string is destroyed,
-- any `resume` of it is undefined.
abbrev pub reading_by_reference : {B : Type 0} → (String → B) → Option String → Option B
reading_by_reference body none = none
reading_by_reference body (some name) = some (body name)

-- The frame of such a coroutine. Nothing but `resume` is done to it before it has ended, so one that must
-- not be resumed is as one that is not there.
abbrev pub created_by_reference : ℕ → Option (Body (Unit {0})) → Store (Unit {0}) → Store (Unit {0})
created_by_reference h none σ = σ
created_by_reference h (some b) σ = create h b σ

-- The destroyed temporary to which a `const std::string&` of a coroutine refers.
abbrev pub dead_name : Option String
dead_name = none
