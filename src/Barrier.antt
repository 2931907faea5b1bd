-- ===== src/Barrier.antt =====
-- concurrency/latches_barriers/fullTimePartTimeWorkers.cpp: workers of two kinds at a barrier of two phases.
-- A step is one action of one thread; `synchronizedOut` is one action, since a thread does nothing else
-- while it has `coutMutex`. The names of the workers are left out of the lines.
pub mod Phases
pub mod Invariant
pub mod Moves
mod Day
use cpp20examples.Prelude.{ℕ, suc, ◌+◌, ◌-◌, ◌<◌, ◌≡◌, ◌≢◌, List, [], ◌∷◌, ltb, if◌then◌else◌}
use cpp20examples.Threads.{System, Step}

pub data Line : Type 0 where
  morning_work_done afternoon_work_done : Line

-- The barrier `workDone`, with the arrivals that its phase still expects, those that the next phase will
-- expect and the number of its phase; and the lines printed so far, the last one first.
pub record Memory : Type 0 where
  pub pending : ℕ
  pub expected : ℕ
  pub phase : ℕ
  pub output : List Line

-- Where a worker is. One who waits knows the phase of the arrival.
pub data Pc : Type 0 where
  full_morning full_arrive : Pc
  full_wait : (token : ℕ) → Pc
  full_afternoon full_arrive_again : Pc
  full_wait_again : (token : ℕ) → Pc
  full_ended : Pc
  part_morning part_drop part_ended : Pc

-- `FullTimeWorker::operator()` and `PartTimeWorker::operator()`. The last arrival that is expected ends the
-- phase.
pub data Act (m : Memory) : Pc → Memory → Pc → Type 0 where
  print_morning :
      Act m full_morning (record m { output = morning_work_done ∷ m.output }) full_arrive
  arrive :
      1 < m.pending → Act m full_arrive (record m { pending = m.pending - 1 }) (full_wait m.phase)
  arrive_last :
      m.pending ≡ 1
      → Act m full_arrive
          (record m { pending = m.expected; phase = suc m.phase })
          (full_wait m.phase)
  pass : {token : ℕ} → m.phase ≢ token → Act m (full_wait token) m full_afternoon
  print_afternoon :
      Act m full_afternoon (record m { output = afternoon_work_done ∷ m.output }) full_arrive_again
  arrive_again :
      1 < m.pending
      → Act m full_arrive_again (record m { pending = m.pending - 1 }) (full_wait_again m.phase)
  arrive_again_last :
      m.pending ≡ 1
      → Act m full_arrive_again
          (record m { pending = m.expected; phase = suc m.phase })
          (full_wait_again m.phase)
  pass_again : {token : ℕ} → m.phase ≢ token → Act m (full_wait_again token) m full_ended
  print_part : Act m part_morning (record m { output = morning_work_done ∷ m.output }) part_drop
  -- `arrive_and_drop`
  drop :
      1 < m.pending
      → Act m part_drop (record m { pending = m.pending - 1; expected = m.expected - 1 }) part_ended
  drop_last :
      m.pending ≡ 1
      → Act m part_drop
          (record m { pending = m.expected - 1; expected = m.expected - 1; phase = suc m.phase })
          part_ended

-- `main` with `full` workers of the first kind and `part` of the second; the program has 3 of each, and a
-- barrier for 6.
abbrev pub init : (full part : ℕ) → System Memory Pc
init full part = record {
  memory = record { pending = full + part; expected = full + part; phase = 0; output = [] };
  pc = λ i. if ltb i full then full_morning else part_morning;
}

abbrev pub MainStep : ℕ → System Memory Pc → System Memory Pc → Type 0
MainStep n = Step n Act
