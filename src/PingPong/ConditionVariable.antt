-- ===== src/PingPong/ConditionVariable.antt =====
-- pingPongConditionVariable.cpp. A step is one atomic action of one thread; a critical section, from
-- the lock through the `wait` to the unlock, is one action, possible when its predicate holds.
-- `notify_one` changes nothing but makes a sleeping thread look again, so it is no step of its own.
pub mod Deadlock
mod Tests
use cpp20examples.Prelude.{ℕ, ◌+◌, ◌≤◌, ◌<◌, ◌≡◌, Bool, true, false}

-- Where `ping` is: the test of its loop, its critical section, and `++counter`.
pub data PingPc : Type 0 where
  test_ping ping_section increment ping_done : PingPc

-- Where `pong` is.
pub data PongPc : Type 0 where
  test_pong pong_section pong_done : PongPc

-- `dataReady`, `counter`, and the threads
pub record State : Type 0 where
  pub data_ready : Bool
  pub counter : ℕ
  pub ping : PingPc
  pub pong : PongPc

-- The start of the program
abbrev pub init : State
init = record { data_ready = false; counter = 0; ping = test_ping; pong = test_pong }

-- The actions of `ping`.
pub data Ping (limit : ℕ) (s : State) : PingPc → State → Type 0 where
  enter : s.counter ≤ limit → Ping limit s test_ping (record s { ping = ping_section })
  leave : limit < s.counter → Ping limit s test_ping (record s { ping = ping_done })
  section :
      s.data_ready ≡ false
      → Ping limit s ping_section (record s { data_ready = true; ping = increment })
  count : Ping limit s increment (record s { counter = s.counter + 1; ping = test_ping })

-- The actions of `pong`.
pub data Pong (limit : ℕ) (s : State) : PongPc → State → Type 0 where
  enter : s.counter ≤ limit → Pong limit s test_pong (record s { pong = pong_section })
  leave : limit < s.counter → Pong limit s test_pong (record s { pong = pong_done })
  section :
      s.data_ready ≡ true
      → Pong limit s pong_section (record s { data_ready = false; pong = test_pong })

pub data Step (limit : ℕ) (s t : State) : Type 0 where
  by_ping : Ping limit s s.ping t → Step limit s t
  by_pong : Pong limit s s.pong t → Step limit s t
