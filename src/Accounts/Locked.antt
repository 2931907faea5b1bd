-- ===== src/Accounts/Locked.antt =====
-- concurrency/problems/solutions/breakingInvariantSolved.cpp: balances are plain integers, guarded by
-- `mutAccount`. A step is one access to a balance, or the lock or unlock of the mutex. Balances are
-- natural numbers: a balance is reduced only by what it was seen to hold.
pub mod Sums
mod Tests
use cpp20examples.Prelude.{ℕ, ◌+◌, ◌-◌, ◌≤◌, ◌<◌, ◌≡◌, Bool, true, false}

-- Where `transferMoney` is: at the lock, before the test, before `-=`, before `+=`, at the unlock, at
-- its end.
pub data TransferPc : Type 0 where
  lock test withdraw deposit unlock finished : TransferPc

-- Where `printSum` is, with the balance that it has read, and the sum that it has printed.
pub data PrintPc : Type 0 where
  print_lock read_first : PrintPc
  read_second : ℕ → PrintPc
  print_unlock : ℕ → PrintPc
  printed : ℕ → PrintPc

-- The two accounts, the mutex and the three threads of `main`.
pub record State : Type 0 where
  pub acc1 : ℕ
  pub acc2 : ℕ
  pub locked : Bool
  pub thr1 : TransferPc
  pub thr2 : TransferPc
  pub thr3 : PrintPc

-- `main`, with 100 in each account
abbrev pub init : State
init = record {
  acc1 = 100;
  acc2 = 100;
  locked = false;
  thr1 = lock;
  thr2 = lock;
  thr3 = print_lock;
}

-- `transferMoney(amount, from, to)`: the balances, the mutex and the place before an action and
-- after it.
pub data Transfer (amount origin target : ℕ) (m : Bool)
    : TransferPc → ℕ → ℕ → Bool → TransferPc → Type 0 where
  acquire : m ≡ false → Transfer amount origin target m lock origin target true test
  pass : amount ≤ origin → Transfer amount origin target m test origin target m withdraw
  refuse : origin < amount → Transfer amount origin target m test origin target m unlock
  take : Transfer amount origin target m withdraw (origin - amount) target m deposit
  give : Transfer amount origin target m deposit origin (target + amount) m unlock
  release : Transfer amount origin target m unlock origin target false finished

-- `printSum(a1, a2)`
pub data Print (a1 a2 : ℕ) (m : Bool) : PrintPc → Bool → PrintPc → Type 0 where
  acquire : m ≡ false → Print a1 a2 m print_lock true read_first
  first : Print a1 a2 m read_first m (read_second a1)
  second : {n : ℕ} → Print a1 a2 m (read_second n) m (print_unlock (n + a2))
  release : {n : ℕ} → Print a1 a2 m (print_unlock n) false (printed n)

-- Thread 1 transfers 5 from the first account to the second, thread 2 transfers 13 back.
pub data Step (s : State) : State → Type 0 where
  by_thr1 :
      {a b : ℕ} {m : Bool} {p : TransferPc}
      → Transfer 5 s.acc1 s.acc2 s.locked s.thr1 a b m p
      → Step s (record s { acc1 = a; acc2 = b; locked = m; thr1 = p })
  by_thr2 :
      {a b : ℕ} {m : Bool} {p : TransferPc}
      → Transfer 13 s.acc2 s.acc1 s.locked s.thr2 a b m p
      → Step s (record s { acc1 = b; acc2 = a; locked = m; thr2 = p })
  by_thr3 :
      {m : Bool} {p : PrintPc}
      → Print s.acc1 s.acc2 s.locked s.thr3 m p
      → Step s (record s { locked = m; thr3 = p })
