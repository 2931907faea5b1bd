-- ===== src/ReadersWriters/Lock.antt =====
-- What an action of a thread does to the lock.
use cpp20examples.Prelude.{ℕ, ◌+◌, ◌≤◌, ◌≡◌, arith, Bool, true, false, ap, ◌⊎◌}
use cpp20examples.ReadersWriters.{
  Memory, Pc, look_up, read_unlock, update, write_unlock, Act, lock_shared, print, unlock_shared,
  lock_unique, write_entry, unlock_unique,
}

-- 1 for a thread with the lock, shared or not.
abbrev pub reads : Pc → ℕ
reads (look_up na) = 1
reads read_unlock = 1
reads _ = 0

abbrev pub writes : Pc → ℕ
writes (update na tele) = 1
writes write_unlock = 1
writes _ = 0

abbrev pub set : Bool → ℕ
set true = 1
set false = 0

pub set_le : (b : Bool) → set b ≤ 1
set_le b = ground arith

-- How the lock and the threads that have it change together.
pub Act-lock :
    {m m' : Memory} {p p' : Pc}
    → Act m p m' p'
    → reads p ≤ m.readers
    → writes p ≤ set m.writer
    → set m.writer ≡ 0 ⊎ m.readers ≡ 0
    → (m'.readers + reads p ≡ m.readers + reads p')
      × (set m'.writer + writes p ≡ set m.writer + writes p')
      × (set m'.writer ≡ 0 ⊎ m'.readers ≡ 0)
Act-lock (lock_shared e) h h' x = ground (arith, ap set e)
Act-lock print h h' x = ground arith
Act-lock {m = m} unlock_shared h h' x = ground (arith, set_le m.writer)
Act-lock (lock_unique e e') h h' x = ground (arith, ap set e)
Act-lock write_entry h h' x = ground arith
Act-lock {m = m} unlock_unique h h' x = ground (arith, set_le m.writer)
