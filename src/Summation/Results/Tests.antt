-- ===== src/Summation/Results/Tests.antt =====
-- Runs of the programs on four values.
use cpp20examples.Prelude.{ℕ, ◌+◌, ◌%◌, ◌^◌, ◌≡◌, refl, arith, [], ◌∷◌}
use cpp20examples.Steps.{Reach, start, later}
use cpp20examples.Threads.{System, pick, total_pc}
use cpp20examples.Summation.{
  lock, unlock, add, Memory, Pc, acquire, release, read_sum, write_sum, increase, ThreadStep,
}
use cpp20examples.Summation.Guarded.{owed}
use cpp20examples.Summation.Finish.{Finished}
use cpp20examples.Summation.Programs.{
  Bounds, bounds, sum_up_with_lock, sum_up_local, main_of, with_lock, thread_local,
}
use cpp20examples.Summation.Results.{range_sum, sums_up}

abbrev val : ℕ → ℕ
val i = i + 7

abbrev small_bounds : Bounds
small_bounds = record { fir = 1; sec = 2; thi = 3; fou = 4 }

-- Each value is added with the lock held.
with_lock_test : sum_up_with_lock val 1 3 ≡ lock ∷ add 8 ∷ unlock ∷ lock ∷ add 9 ∷ unlock ∷ []
with_lock_test = refl

local_test : sum_up_local val 1 3 ≡ lock ∷ add 17 ∷ unlock ∷ []
local_test = refl

bounds_test : bounds.fir + 25000000 ≡ bounds.sec
bounds_test = refl

-- The last thread takes the lock, reads and writes `sum`, and leaves.
abbrev one_thread :
    (s : System Memory Pc) × Reach (ThreadStep 4) (main_of with_lock val small_bounds) s
one_thread = (
  _,
  later
      (later
        (later (later start (pick 3 (omega arith) (acquire refl))) (pick 3 (omega arith) read_sum))
        (pick 3 (omega arith) write_sum))
      (pick 3 (omega arith) release),
)

one_thread_test : one_thread.0.memory.sum ≡ 10
one_thread_test = refl

-- The four threads make their only addition in another order.
abbrev all_threads :
    (s : System Memory Pc) × Reach (ThreadStep 4) (main_of thread_local val small_bounds) s
all_threads = (
  _,
  later
      (later (later (later start (pick 2 (omega arith) increase)) (pick 0 (omega arith) increase))
        (pick 3 (omega arith) increase))
      (pick 1 (omega arith) increase),
)

all_threads_test : all_threads.0.memory.sum ≡ 34
all_threads_test = refl

sums_up_example :
    ((one_thread.0.memory.sum + total_pc owed 4 one_thread.0.pc) % 2 ^ 64
      ≡ range_sum val 0 4 % 2 ^ 64)
    × ((t : System Memory Pc) × Reach (ThreadStep 4) one_thread.0 t
        × Finished 4 t
        × (t.memory.sum ≡ range_sum val 0 4 % 2 ^ 64))
sums_up_example =
    sums_up with_lock val small_bounds (omega arith) (omega arith) (omega arith) one_thread.1
