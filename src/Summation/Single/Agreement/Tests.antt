-- ===== src/Summation/Single/Agreement/Tests.antt =====
-- Values that the programs add up, and values that are too large for an `int`.
use cpp20examples.Prelude.{ℕ, ◌+◌, ◌%◌, ◌≡◌, refl, arith, false, some, none}
use cpp20examples.Summation.Programs.{Bounds}
use cpp20examples.Summation.Results.{range_sum}
use cpp20examples.Summation.Single.{
  calculate_with_loop, calculate_with_lock, calculate_with_atomic, calculate_with_std,
  tasks_summation,
}
use cpp20examples.Summation.Single.Agreement.{calculations_agree}

abbrev val : ℕ → ℕ
val i = i % 10 + 1

abbrev twelve : Bounds
twelve = record { fir = 3; sec = 6; thi = 9; fou = 12 }

loop_test : calculate_with_loop val 12 ≡ 58
loop_test = refl

std_test : calculate_with_std (λ i. 1000000000) 3 ≡ none
unfolding cpp20examples.Prelude.Int.int_max
std_test = refl

calculations_agree_example :
    (calculate_with_loop val 12 ≡ range_sum val 0 12)
    × (calculate_with_lock val 12 ≡ some (record { sum = range_sum val 0 12; locked = false }))
    × (calculate_with_atomic val 12 ≡ (range_sum val 0 12, range_sum val 0 12))
    × (calculate_with_std val 12 ≡ some (range_sum val 0 12))
    × (tasks_summation val twelve ≡ range_sum val 0 12)
calculations_agree_example =
    calculations_agree val twelve (λ i. omega arith) (omega arith) (omega arith) (omega arith)
      (omega arith)
