-- ===== src/Summation/Programs.antt =====
-- `sumUp` and `main` of the programs of concurrency/ in which four threads add up the random values into
-- one `sum`: synchronizationWithLock.cpp, synchronizationWithAtomic.cpp, synchronizationWithFetchAdd.cpp,
-- synchroniuationWithFetchAddRelaxed.cpp, localVariable.cpp, localVariableAtomic.cpp,
-- localVariableAtomicRelaxed.cpp and threadLocalSummation.cpp. The values come from the random engine
-- and are a parameter.
use cpp20examples.Prelude.{ℕ, zero, suc, ◌+◌, ◌-◌, ◌%◌, ◌^◌, List, [], ◌∷◌}
use cpp20examples.Threads.{System}
use cpp20examples.Summation.{Action, lock, unlock, add, fetch_add, Memory, Pc, threads}

-- The ends of the ranges of the threads.
pub record Bounds : Type 0 where
  pub fir : ℕ
  pub sec : ℕ
  pub thi : ℕ
  pub fou : ℕ

abbrev pub bounds : Bounds
bounds = record { fir = 25000000; sec = 50000000; thi = 75000000; fou = 100000000 }

module _ (val : ℕ → ℕ) where
  -- The loops from `it` on, with the number of values left.
  abbrev pub locked_additions : ℕ → ℕ → List Action
  locked_additions it zero = []
  locked_additions it (suc k) = lock ∷ add (val it) ∷ unlock ∷ locked_additions (suc it) k

  abbrev pub atomic_additions : ℕ → ℕ → List Action
  atomic_additions it zero = []
  atomic_additions it (suc k) = fetch_add (val it) ∷ atomic_additions (suc it) k

  -- `tmpSum` wraps around as `sum` does.
  abbrev pub local_sum : ℕ → ℕ → ℕ → ℕ
  local_sum it zero tmp_sum = tmp_sum
  local_sum it (suc k) tmp_sum = local_sum (suc it) k ((tmp_sum + val it) % 2 ^ 64)

  -- `sumUp(sum, val, beg, end)`
  abbrev pub sum_up_with_lock : ℕ → ℕ → List Action
  sum_up_with_lock beg end = locked_additions beg (end - beg)

  abbrev pub sum_up_with_atomic : ℕ → ℕ → List Action
  sum_up_with_atomic beg end = atomic_additions beg (end - beg)

  abbrev pub sum_up_with_fetch_add : ℕ → ℕ → List Action
  sum_up_with_fetch_add beg end = atomic_additions beg (end - beg)

  abbrev pub sum_up_relaxed : ℕ → ℕ → List Action
  sum_up_relaxed beg end = atomic_additions beg (end - beg)

  abbrev pub sum_up_local : ℕ → ℕ → List Action
  sum_up_local beg end = lock ∷ add (local_sum beg (end - beg) 0) ∷ unlock ∷ []

  abbrev pub sum_up_local_atomic : ℕ → ℕ → List Action
  sum_up_local_atomic beg end = fetch_add (local_sum beg (end - beg) 0) ∷ []

  abbrev pub sum_up_local_relaxed : ℕ → ℕ → List Action
  sum_up_local_relaxed beg end = fetch_add (local_sum beg (end - beg) 0) ∷ []

  -- The `tmpSum` of a thread is 0 when the thread starts.
  abbrev pub sum_up_thread_local : ℕ → ℕ → List Action
  sum_up_thread_local beg end = fetch_add (local_sum beg (end - beg) 0) ∷ []

-- The threads `t1` to `t4` of `main`, which run `sumUp` on four ranges.
abbrev pub four_ranges : (ℕ → ℕ → List Action) → Bounds → ℕ → List Action
four_ranges sum_up b zero = sum_up 0 b.fir
four_ranges sum_up b (suc zero) = sum_up b.fir b.sec
four_ranges sum_up b (suc (suc zero)) = sum_up b.sec b.thi
four_ranges sum_up b (suc (suc (suc i))) = sum_up b.thi b.fou

abbrev pub main_with_lock : (ℕ → ℕ) → Bounds → System Memory Pc
main_with_lock val b = threads (four_ranges (sum_up_with_lock val) b)

abbrev pub main_with_atomic : (ℕ → ℕ) → Bounds → System Memory Pc
main_with_atomic val b = threads (four_ranges (sum_up_with_atomic val) b)

abbrev pub main_with_fetch_add : (ℕ → ℕ) → Bounds → System Memory Pc
main_with_fetch_add val b = threads (four_ranges (sum_up_with_fetch_add val) b)

abbrev pub main_relaxed : (ℕ → ℕ) → Bounds → System Memory Pc
main_relaxed val b = threads (four_ranges (sum_up_relaxed val) b)

abbrev pub main_local : (ℕ → ℕ) → Bounds → System Memory Pc
main_local val b = threads (four_ranges (sum_up_local val) b)

abbrev pub main_local_atomic : (ℕ → ℕ) → Bounds → System Memory Pc
main_local_atomic val b = threads (four_ranges (sum_up_local_atomic val) b)

abbrev pub main_local_relaxed : (ℕ → ℕ) → Bounds → System Memory Pc
main_local_relaxed val b = threads (four_ranges (sum_up_local_relaxed val) b)

abbrev pub main_thread_local : (ℕ → ℕ) → Bounds → System Memory Pc
main_thread_local val b = threads (four_ranges (sum_up_thread_local val) b)

-- One of the programs.
pub data Version : Type 0 where
  with_lock with_atomic with_fetch_add relaxed local local_atomic local_relaxed thread_local :
      Version

abbrev pub main_of : Version → (ℕ → ℕ) → Bounds → System Memory Pc
main_of with_lock = main_with_lock
main_of with_atomic = main_with_atomic
main_of with_fetch_add = main_with_fetch_add
main_of relaxed = main_relaxed
main_of local = main_local
main_of local_atomic = main_local_atomic
main_of local_relaxed = main_local_relaxed
main_of thread_local = main_thread_local
