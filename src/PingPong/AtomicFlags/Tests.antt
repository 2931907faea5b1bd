-- ===== src/PingPong/AtomicFlags/Tests.antt =====
-- An instance of each theorem.
use cpp20examples.Prelude.{◌+◌, ◌≡◌, ◌⊎◌, true, false, arith, refl}
use cpp20examples.Steps.{Reach, start, later}
use cpp20examples.PingPong.Semaphore
use cpp20examples.PingPong.AtomicFlags.{
  State, init, Ping, Step, by_ping, clear_flag1, clear_flag2, test_pong, ping_done, pong_done,
}
use cpp20examples.PingPong.AtomicFlags.Refine.{
  abstract_state, atomic_flags_refine, atomic_flags_no_deadlock,
}

abbrev clearing : State
clearing = record { flag1 = true; flag2 = false; counter = 0; ping = clear_flag1; pong = test_pong }

clearing-Reach : Reach (Step 5) init clearing
clearing-Reach =
    later (later start (by_ping (Ping.enter (omega arith)))) (by_ping (Ping.waited refl))

atomic_flags_refine_example :
    Reach (Semaphore.Step 5) Semaphore.init (abstract_state clearing)
    × (clearing.ping ≡ clear_flag1 → clearing.flag1 ≡ true)
    × (clearing.pong ≡ clear_flag2 → clearing.flag2 ≡ true)
atomic_flags_refine_example = atomic_flags_refine 5 clearing clearing-Reach

atomic_flags_no_deadlock_test :
    ((clearing.ping ≡ ping_done) × (clearing.pong ≡ pong_done) × (clearing.counter ≡ 5 + 1))
    ⊎ ((t : State) × Step 5 clearing t)
atomic_flags_no_deadlock_test = atomic_flags_no_deadlock 5 clearing clearing-Reach
