-- ===== src/PingPong/Semaphore/Tests.antt =====
-- An instance of each theorem, after the first round of `ping`.
use cpp20examples.Prelude.{◌+◌, ◌≤◌, ◌<◌, ◌≡◌, ◌≢◌, ◌⊎◌, arith}
use cpp20examples.Steps.{Reach, start, later}
use cpp20examples.PingPong.Semaphore.{
  State, init, countlimit, Ping, Step, by_ping, test_pong, increment, release_pong, release_ping,
}
use cpp20examples.PingPong.Semaphore.Safety.{
  Joined, measure, semaphore_bounds, semaphore_no_deadlock, semaphore_ends,
}

abbrev counting : State
counting = record {
  signal2_ping = 0;
  signal2_pong = 0;
  counter = 0;
  ping = increment;
  pong = test_pong;
}

counting-Reach : Reach (Step countlimit) init counting
counting-Reach =
    later (later start (by_ping (Ping.enter (omega arith)))) (by_ping (Ping.acquire (omega arith)))

semaphore_bounds_test :
    (counting.signal2_ping + counting.signal2_pong ≤ 1)
    × (counting.ping ≡ release_pong → counting.signal2_pong ≡ 0)
    × (counting.pong ≡ release_ping → counting.signal2_ping ≡ 0)
    × (counting.ping ≡ increment
        → (counting.signal2_ping ≡ 0)
          × (counting.signal2_pong ≡ 0)
          × (counting.pong ≢ release_ping))
    × (counting.counter ≤ countlimit + 1)
semaphore_bounds_test = semaphore_bounds countlimit counting counting-Reach

semaphore_no_deadlock_test : Joined countlimit counting ⊎ ((t : State) × Step countlimit counting t)
semaphore_no_deadlock_test = semaphore_no_deadlock countlimit counting counting-Reach

semaphore_ends_example :
    ((t : State) × Reach (Step countlimit) counting t × Joined countlimit t)
    × ((t : State)
        → Step countlimit counting t
        → measure countlimit t < measure countlimit counting)
semaphore_ends_example = semaphore_ends countlimit counting counting-Reach
