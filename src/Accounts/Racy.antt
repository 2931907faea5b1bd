-- ===== src/Accounts/Racy.antt =====
-- concurrency/problems/breakingInvariant.cpp: balances are atomic, a step is one access to a balance.
-- Balances are natural numbers: a balance is reduced only by what it was seen to hold. The sum is
-- read from left to right, one of the orders that the language allows.
pub mod Sums
mod Tests
use cpp20examples.Prelude.{ℕ, ◌+◌, ◌-◌, ◌≤◌, ◌<◌}

-- Where `transferMoney` is: before the test, before `-=`, before `+=`, at its end.
pub data TransferPc : Type 0 where
  test withdraw deposit finished : TransferPc

-- Where `printSum` is, with the balance that it has read, and the sum that it has printed.
pub data PrintPc : Type 0 where
  read_first : PrintPc
  read_second : ℕ → PrintPc
  printed : ℕ → PrintPc

-- The two accounts and the three threads of `main`.
pub record State : Type 0 where
  pub acc1 : ℕ
  pub acc2 : ℕ
  pub thr1 : TransferPc
  pub thr2 : TransferPc
  pub thr3 : PrintPc

-- `main`, with 100 in each account
abbrev pub init : State
init = record { acc1 = 100; acc2 = 100; thr1 = test; thr2 = test; thr3 = read_first }

-- `transferMoney(amount, from, to)`: the balances and the place before an action and after it.
pub data Transfer (amount origin target : ℕ) : TransferPc → ℕ → ℕ → TransferPc → Type 0 where
  pass : amount ≤ origin → Transfer amount origin target test origin target withdraw
  refuse : origin < amount → Transfer amount origin target test origin target finished
  take : Transfer amount origin target withdraw (origin - amount) target deposit
  give : Transfer amount origin target deposit origin (target + amount) finished

-- `printSum(a1, a2)`
pub data Print (a1 a2 : ℕ) : PrintPc → PrintPc → Type 0 where
  first : Print a1 a2 read_first (read_second a1)
  second : {n : ℕ} → Print a1 a2 (read_second n) (printed (n + a2))

-- Thread 1 transfers 5 from the first account to the second, thread 2 transfers 13 back.
pub data Step (s : State) : State → Type 0 where
  by_thr1 :
      {a b : ℕ} {p : TransferPc}
      → Transfer 5 s.acc1 s.acc2 s.thr1 a b p
      → Step s (record s { acc1 = a; acc2 = b; thr1 = p })
  by_thr2 :
      {a b : ℕ} {p : TransferPc}
      → Transfer 13 s.acc2 s.acc1 s.thr2 a b p
      → Step s (record s { acc1 = b; acc2 = a; thr2 = p })
  by_thr3 : {p : PrintPc} → Print s.acc1 s.acc2 s.thr3 p → Step s (record s { thr3 = p })
