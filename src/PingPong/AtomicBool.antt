-- ===== src/PingPong/AtomicBool.antt =====
-- pingPongAtomicBool.cpp, and pingPongAtomicFlag.cpp, which does the same with an `atomic_flag`
-- (`test_and_set` for `store(true)`, `clear` for `store(false)`). A step is one atomic action of one
-- thread; `wait(old)` returns when the value differs from `old`. `notify_one` changes nothing but
-- makes a sleeping thread look again, so it is no step of its own.
pub mod Deadlock
mod Tests
use cpp20examples.Prelude.{ℕ, ◌+◌, ◌≤◌, ◌<◌, ◌≡◌, Bool, true, false}

-- Where `ping` is: the test of its loop, and its three actions.
pub data PingPc : Type 0 where
  test_ping wait_true store_true increment ping_done : PingPc

-- Where `pong` is.
pub data PongPc : Type 0 where
  test_pong wait_false store_false pong_done : PongPc

-- `atomicBool`, `counter`, and the threads
pub record State : Type 0 where
  pub atomic_bool : Bool
  pub counter : ℕ
  pub ping : PingPc
  pub pong : PongPc

-- `main` after `atomicBool.store(true)`
abbrev pub init : State
init = record { atomic_bool = true; counter = 0; ping = test_ping; pong = test_pong }

-- The actions of `ping`.
pub data Ping (limit : ℕ) (s : State) : PingPc → State → Type 0 where
  enter : s.counter ≤ limit → Ping limit s test_ping (record s { ping = wait_true })
  leave : limit < s.counter → Ping limit s test_ping (record s { ping = ping_done })
  waited : s.atomic_bool ≡ false → Ping limit s wait_true (record s { ping = store_true })
  store : Ping limit s store_true (record s { atomic_bool = true; ping = increment })
  count : Ping limit s increment (record s { counter = s.counter + 1; ping = test_ping })

-- The actions of `pong`.
pub data Pong (limit : ℕ) (s : State) : PongPc → State → Type 0 where
  enter : s.counter ≤ limit → Pong limit s test_pong (record s { pong = wait_false })
  leave : limit < s.counter → Pong limit s test_pong (record s { pong = pong_done })
  waited : s.atomic_bool ≡ true → Pong limit s wait_false (record s { pong = store_false })
  store : Pong limit s store_false (record s { atomic_bool = false; pong = test_pong })

pub data Step (limit : ℕ) (s t : State) : Type 0 where
  by_ping : Ping limit s s.ping t → Step limit s t
  by_pong : Pong limit s s.pong t → Step limit s t

-- pingPongAtomicFlag.cpp has the same places and actions.
abbrev pub FlagPing : ℕ → State → PingPc → State → Type 0
FlagPing = Ping

abbrev pub FlagPong : ℕ → State → PongPc → State → Type 0
FlagPong = Pong

abbrev pub flag_init : State
flag_init = init
