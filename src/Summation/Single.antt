-- ===== src/Summation/Single.antt =====
-- The programs that add up the values in one thread, concurrency/calculateWithLoop.cpp,
-- calculateWithLock.cpp, calculateWithAtomic.cpp and calculateWithStd.cpp, and concurrency/
-- tasksSummation.cpp, where four threads set promises. The values and their number are parameters.
pub mod Agreement
use cpp20examples.Prelude.{
  ℕ, zero, suc, ◌+◌, ◌-◌, ◌%◌, ◌^◌, Bool, false, Option, none, some, ltb, if◌then◌else◌,
}
use cpp20examples.Prelude.Int.{int_max}
use cpp20examples.Summation.{Memory}
use cpp20examples.Summation.Programs.{Bounds}

module _ (val : ℕ → ℕ) where
  -- `for (auto n : randValues) sum += n;` from `it` on, with the number of values left
  abbrev pub add_values : ℕ → ℕ → ℕ → ℕ
  add_values it zero sum = sum
  add_values it (suc k) sum = add_values (suc it) k ((sum + val it) % 2 ^ 64)

  abbrev pub calculate_with_loop : ℕ → ℕ
  calculate_with_loop size = add_values 0 size 0

  -- A thread that locks the mutex twice does not go on.
  abbrev pub locked_loop : ℕ → ℕ → Memory → Option Memory
  locked_loop it zero m = some m
  locked_loop it (suc k) m =
      let sum : ℕ = (m.sum + val it) % 2 ^ 64 in
      let rest = locked_loop (suc it) k (record { sum = sum; locked = false }) in
      if m.locked then none else rest

  abbrev pub calculate_with_lock : ℕ → Option Memory
  calculate_with_lock size = locked_loop 0 size (record { sum = 0; locked = false })

  -- The two results, of `+=` and of `fetch_add`, with `sum = 0` in between.
  abbrev pub calculate_with_atomic : ℕ → ℕ × ℕ
  calculate_with_atomic size = (add_values 0 size 0, add_values 0 size 0)

  -- `std::accumulate` with the initial value `0`, an `int`: a sum above its range has no defined result.
  abbrev pub accumulate : ℕ → ℕ → ℕ → Option ℕ
  accumulate it zero acc = some acc
  accumulate it (suc k) acc =
      let rest = accumulate (suc it) k (acc + val it) in
      if ltb int_max (acc + val it) then none else rest

  abbrev pub calculate_with_std : ℕ → Option ℕ
  calculate_with_std size = accumulate 0 size 0

  -- `sumUp(prom, val, beg, end)`: the value that the promise is set to
  abbrev pub sum_up_loop : ℕ → ℕ → ℕ → ℕ
  sum_up_loop it zero sum = sum
  sum_up_loop it (suc k) sum = sum_up_loop (suc it) k ((sum + val it) % 2 ^ 64)

  abbrev pub sum_up_promise : ℕ → ℕ → ℕ
  sum_up_promise beg end = sum_up_loop beg (end - beg) 0

  -- `fut1.get() + fut2.get() + fut3.get() + fut4.get()`
  abbrev pub tasks_summation : Bounds → ℕ
  tasks_summation b =
      let fut1 : ℕ = sum_up_promise 0 b.fir in
      let fut2 : ℕ = sum_up_promise b.fir b.sec in
      let fut3 : ℕ = sum_up_promise b.sec b.thi in
      let fut4 : ℕ = sum_up_promise b.thi b.fou in
      (((fut1 + fut2) % 2 ^ 64 + fut3) % 2 ^ 64 + fut4) % 2 ^ 64
