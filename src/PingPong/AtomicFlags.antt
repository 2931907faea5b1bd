-- ===== src/PingPong/AtomicFlags.antt =====
-- pingPongAtomicFlags.cpp: a step is one atomic action of one thread; `wait(false)` returns when the
-- flag is set. `notify_one` changes nothing but makes a sleeping thread look again, so it is no step
-- of its own.
pub mod Refine
mod Tests
use cpp20examples.Prelude.{ℕ, ◌+◌, ◌≤◌, ◌<◌, ◌≡◌, Bool, true, false}

-- Where `ping` is: the test of its loop, and its four actions.
pub data PingPc : Type 0 where
  test_ping wait_flag1 clear_flag1 increment set_flag2 ping_done : PingPc

-- Where `pong` is.
pub data PongPc : Type 0 where
  test_pong wait_flag2 clear_flag2 set_flag1 pong_done : PongPc

-- `condAtomicFlag1`, `condAtomicFlag2`, `counter`, and the threads
pub record State : Type 0 where
  pub flag1 : Bool
  pub flag2 : Bool
  pub counter : ℕ
  pub ping : PingPc
  pub pong : PongPc

-- `main` after `condAtomicFlag1.test_and_set()`
abbrev pub init : State
init = record { flag1 = true; flag2 = false; counter = 0; ping = test_ping; pong = test_pong }

-- The actions of `ping`.
pub data Ping (limit : ℕ) (s : State) : PingPc → State → Type 0 where
  enter : s.counter ≤ limit → Ping limit s test_ping (record s { ping = wait_flag1 })
  leave : limit < s.counter → Ping limit s test_ping (record s { ping = ping_done })
  waited : s.flag1 ≡ true → Ping limit s wait_flag1 (record s { ping = clear_flag1 })
  clear : Ping limit s clear_flag1 (record s { flag1 = false; ping = increment })
  count : Ping limit s increment (record s { counter = s.counter + 1; ping = set_flag2 })
  set : Ping limit s set_flag2 (record s { flag2 = true; ping = test_ping })

-- The actions of `pong`.
pub data Pong (limit : ℕ) (s : State) : PongPc → State → Type 0 where
  enter : s.counter ≤ limit → Pong limit s test_pong (record s { pong = wait_flag2 })
  leave : limit < s.counter → Pong limit s test_pong (record s { pong = pong_done })
  waited : s.flag2 ≡ true → Pong limit s wait_flag2 (record s { pong = clear_flag2 })
  clear : Pong limit s clear_flag2 (record s { flag2 = false; pong = set_flag1 })
  set : Pong limit s set_flag1 (record s { flag1 = true; pong = test_pong })

pub data Step (limit : ℕ) (s t : State) : Type 0 where
  by_ping : Ping limit s s.ping t → Step limit s t
  by_pong : Pong limit s s.pong t → Step limit s t
