-- ===== src/Monitors/Split/Tests.antt =====
-- The theorem for the 10 threads of each kind of the program.
use cpp20examples.Prelude.{ℕ, ◌+◌, ◌%◌, ◌<◌, ◌≡◌, arith}
use cpp20examples.Steps.{Reach}
use cpp20examples.Threads.{System}
use cpp20examples.Monitors.Split.{Pc, crashed, ThreadSafeQueue, init, MainStep}
use cpp20examples.Monitors.Split.Crash.{split_get_crashes}

-- A die that shows its numbers in turn.
abbrev dice : ℕ → ℕ
dice i = i % 6 + 1

split_get_crashes_example :
    (s : System ThreadSafeQueue Pc) × Reach (MainStep 10) (init dice) s
    × ((i : ℕ) × (i < 10 + 10) × (s.pc i ≡ crashed))
split_get_crashes_example = split_get_crashes 10 dice (omega arith)
