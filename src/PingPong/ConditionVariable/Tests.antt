-- ===== src/PingPong/ConditionVariable/Tests.antt =====
-- The deadlock at the limit of the program.
use cpp20examples.Prelude.{ℕ, ◌≡◌}
use cpp20examples.Steps.{Reach}
use cpp20examples.PingPong.ConditionVariable.{State, init, Step, ping_done, pong_section}
use cpp20examples.PingPong.ConditionVariable.Deadlock.{condition_variable_deadlock}

abbrev countlimit : ℕ
countlimit = 1_000_000

condition_variable_deadlock_example :
    (s : State) × Reach (Step countlimit) init s
    × (s.ping ≡ ping_done)
    × (s.pong ≡ pong_section)
    × ((t : State) → ¬ Step countlimit s t)
condition_variable_deadlock_example = condition_variable_deadlock countlimit
