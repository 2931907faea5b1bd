-- ===== src/Summation/Single/Agreement.antt =====
-- The programs with one thread and the program with promises have the same result, the sum of the values.
mod Tests
use cpp20examples.Prelude.{
  ℕ, zero, suc, ◌+◌, ◌-◌, ◌*◌, ◌%◌, ◌^◌, ◌≤◌, ◌<◌, ◌≡◌, refl, arith, false, some, ap, ◌∙◌,
}
use cpp20examples.Prelude.Int.{int_max}
use cpp20examples.Summation.Programs.{Bounds}
use cpp20examples.Summation.Results.{range_sum, range_sum-sub}
use cpp20examples.Summation.Single.{
  add_values, calculate_with_loop, locked_loop, calculate_with_lock, calculate_with_atomic,
  accumulate, calculate_with_std, sum_up_loop, sum_up_promise, tasks_summation,
}

module _ (val : ℕ → ℕ) where
  add_values-range_sum :
      (it k sum : ℕ) → sum < 2 ^ 64 → add_values val it k sum ≡ (sum + range_sum val it k) % 2 ^ 64
  add_values-range_sum it zero sum l = omega arith
  add_values-range_sum it (suc k) sum l =
      omega (arith, add_values-range_sum (suc it) k ((sum + val it) % 2 ^ 64) (omega arith))

  sum_up_loop-add_values : (it k sum : ℕ) → sum_up_loop val it k sum ≡ add_values val it k sum
  sum_up_loop-add_values it zero sum = refl
  sum_up_loop-add_values it (suc k) sum = sum_up_loop-add_values (suc it) k _

  locked_loop-add_values :
      (it k sum : ℕ)
      → locked_loop val it k (record { sum = sum; locked = false })
        ≡ some (record { sum = add_values val it k sum; locked = false })
  locked_loop-add_values it zero sum = refl
  locked_loop-add_values it (suc k) sum = locked_loop-add_values (suc it) k _

module _ (val : ℕ → ℕ) (small : (i : ℕ) → val i ≤ 10) where
  range_sum_le : (it k : ℕ) → range_sum val it k ≤ 10 * k
  range_sum_le it zero = omega arith
  range_sum_le it (suc k) = omega (arith, small it, range_sum_le (suc it) k)

  accumulate-range_sum :
      (it k acc : ℕ)
      → acc + 10 * k ≤ int_max
      → accumulate val it k acc ≡ some (acc + range_sum val it k)
  accumulate-range_sum it zero acc l = ap some (omega arith)
  accumulate-range_sum it (suc k) acc l =
      ground
        (arith, small it, accumulate-range_sum (suc it) k (acc + val it) (omega (arith, small it)))

sum_up_promise-range_sum :
    (val : ℕ → ℕ) (beg end : ℕ)
    → sum_up_promise val beg end ≡ range_sum val beg (end - beg) % 2 ^ 64
sum_up_promise-range_sum val beg end =
    sum_up_loop-add_values val beg (end - beg) 0
    ∙ (add_values-range_sum val beg (end - beg) 0 (omega arith)
        ∙ ap (λ (x : ℕ). x % 2 ^ 64) (omega arith))

tasks_summation-range_sum :
    (val : ℕ → ℕ) (b : Bounds)
    → b.fir ≤ b.sec
    → b.sec ≤ b.thi
    → b.thi ≤ b.fou
    → tasks_summation val b ≡ range_sum val 0 b.fou % 2 ^ 64
tasks_summation-range_sum val b l l' l'' = omega (
  arith,
  sum_up_promise-range_sum val 0 b.fir,
  sum_up_promise-range_sum val b.fir b.sec,
  sum_up_promise-range_sum val b.sec b.thi,
  sum_up_promise-range_sum val b.thi b.fou,
  range_sum-sub val 0 b.fir (omega arith),
  range_sum-sub val b.fir b.sec l,
  range_sum-sub val b.sec b.thi l',
  range_sum-sub val b.thi b.fou l'',
)

-- For at most 100000000 values, each at most 10, the loop, the loop with a lock, both atomic loops,
-- `accumulate` on an `int` and the four promises, with ranges that lie side by side, have one result, the
-- sum of the values: nothing wraps around, no `int` is out of its range, and the mutex is free at the end.
pub calculations_agree :
    (val : ℕ → ℕ) (b : Bounds)
    → ((i : ℕ) → val i ≤ 10)
    → b.fir ≤ b.sec
    → b.sec ≤ b.thi
    → b.thi ≤ b.fou
    → b.fou ≤ 100000000
    → let total : ℕ = range_sum val 0 b.fou in
      (calculate_with_loop val b.fou ≡ total)
      × (calculate_with_lock val b.fou ≡ some (record { sum = total; locked = false }))
      × (calculate_with_atomic val b.fou ≡ (total, total))
      × (calculate_with_std val b.fou ≡ some total)
      × (tasks_summation val b ≡ total)
unfolding int_max
calculations_agree val b small l l' l'' l4 =
    let loop : add_values val 0 b.fou 0 ≡ range_sum val 0 b.fou =
      omega
        (arith, add_values-range_sum val 0 b.fou 0 (omega arith), range_sum_le val small 0 b.fou) in
    (
      loop,
      locked_loop-add_values val 0 b.fou 0
          ∙ ap (λ (x : ℕ). some (record { sum = x; locked = false })) loop,
      ap (λ (x : ℕ). (x, x)) loop,
      accumulate-range_sum val small 0 b.fou 0 (omega arith) ∙ ap some (omega arith),
      omega (arith, tasks_summation-range_sum val b l l' l'', range_sum_le val small 0 b.fou),
    )
