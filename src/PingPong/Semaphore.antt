-- ===== src/PingPong/Semaphore.antt =====
-- pingPongSemaphore.cpp: a step is one atomic action of one thread. A semaphore is its count;
-- `acquire` is possible when the count is not 0.
pub mod Safety
mod Tests
use cpp20examples.Prelude.{ℕ, ◌+◌, ◌-◌, ◌≤◌, ◌<◌}

-- `countlimit`
abbrev pub countlimit : ℕ
countlimit = 1_000_000

-- Where `ping` is: the test of its loop, and its three actions.
pub data PingPc : Type 0 where
  test_ping acquire_ping increment release_pong ping_done : PingPc

-- Where `pong` is.
pub data PongPc : Type 0 where
  test_pong acquire_pong release_ping pong_done : PongPc

-- The two semaphores, `counter`, and the threads.
pub record State : Type 0 where
  pub signal2_ping : ℕ
  pub signal2_pong : ℕ
  pub counter : ℕ
  pub ping : PingPc
  pub pong : PongPc

-- `main` after `signal2Ping.release()`
abbrev pub init : State
init = record {
  signal2_ping = 1;
  signal2_pong = 0;
  counter = 0;
  ping = test_ping;
  pong = test_pong;
}

-- The actions of `ping`.
pub data Ping (limit : ℕ) (s : State) : PingPc → State → Type 0 where
  enter : s.counter ≤ limit → Ping limit s test_ping (record s { ping = acquire_ping })
  leave : limit < s.counter → Ping limit s test_ping (record s { ping = ping_done })
  acquire :
      0 < s.signal2_ping
      → Ping limit s acquire_ping (record s { signal2_ping = s.signal2_ping - 1; ping = increment })
  count : Ping limit s increment (record s { counter = s.counter + 1; ping = release_pong })
  release :
      Ping limit s release_pong (record s { signal2_pong = s.signal2_pong + 1; ping = test_ping })

-- The actions of `pong`.
pub data Pong (limit : ℕ) (s : State) : PongPc → State → Type 0 where
  enter : s.counter ≤ limit → Pong limit s test_pong (record s { pong = acquire_pong })
  leave : limit < s.counter → Pong limit s test_pong (record s { pong = pong_done })
  acquire :
      0 < s.signal2_pong
      → Pong limit s acquire_pong
          (record s { signal2_pong = s.signal2_pong - 1; pong = release_ping })
  release :
      Pong limit s release_ping (record s { signal2_ping = s.signal2_ping + 1; pong = test_pong })

pub data Step (limit : ℕ) (s t : State) : Type 0 where
  by_ping : Ping limit s s.ping t → Step limit s t
  by_pong : Pong limit s s.pong t → Step limit s t
