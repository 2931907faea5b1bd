-- ===== src/PingPong/AtomicBool/Tests.antt =====
-- The deadlock at the limit of the program.
use cpp20examples.Prelude.{ℕ, ◌≡◌, ◌≢◌}
use cpp20examples.Steps.{Reach}
use cpp20examples.PingPong.AtomicBool.{State, init, Step, ping_done, pong_done}
use cpp20examples.PingPong.AtomicBool.Deadlock.{atomic_bool_deadlock}

abbrev countlimit : ℕ
countlimit = 1_000_000

atomic_bool_deadlock_example :
    (s : State) × Reach (Step countlimit) init s
    × (s.ping ≡ ping_done)
    × (s.pong ≢ pong_done)
    × ((t : State) → ¬ Step countlimit s t)
atomic_bool_deadlock_example = atomic_bool_deadlock countlimit
