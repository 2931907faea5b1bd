-- ===== src/Accounts/Locked/Sums.antt =====
-- At most one thread is between lock and unlock, and only the sum 200 is ever printed.
use cpp20examples.Prelude.{ℕ, ◌+◌, ◌≤◌, ◌≡◌, refl, arith, Bool, true, false}
use cpp20examples.Steps.{Reach, Reach-invariant}
use cpp20examples.Accounts.Locked.{
  TransferPc, lock, withdraw, deposit, finished, PrintPc, print_lock, read_second, print_unlock,
  printed, State, init, Transfer, pass, refuse, take, give, Print, first, second, Step, by_thr1,
  by_thr2, by_thr3,
}

-- 1 for a thread between lock and unlock
abbrev pub inside : TransferPc → ℕ
inside lock = 0
inside finished = 0
inside _ = 1

abbrev pub print_inside : PrintPc → ℕ
print_inside print_lock = 0
print_inside (printed n) = 0
print_inside _ = 1

abbrev held : Bool → ℕ
held true = 1
held false = 0

abbrev in_flight : ℕ → TransferPc → ℕ
in_flight amount deposit = amount
in_flight amount _ = 0

abbrev Covered : ℕ → TransferPc → ℕ → Type 0
Covered amount withdraw balance = amount ≤ balance
Covered amount _ balance = Unit

-- What `printSum` has read fits what it still has to read.
abbrev Consistent : PrintPc → ℕ → Type 0
Consistent (read_second n) acc1 = n ≡ acc1
Consistent (print_unlock n) acc1 = n ≡ 200
Consistent (printed n) acc1 = n ≡ 200
Consistent _ acc1 = Unit

record Inv (s : State) : Type 0 where
  exclusive : inside s.thr1 + inside s.thr2 + print_inside s.thr3 ≡ held s.locked
  kept : s.acc1 + s.acc2 + in_flight 5 s.thr1 + in_flight 13 s.thr2 ≡ 200
  covered1 : Covered 5 s.thr1 s.acc1
  covered2 : Covered 13 s.thr2 s.acc2
  consistent : Consistent s.thr3 s.acc1

thr1-Inv :
    {s : State} {a b : ℕ} {m : Bool} {p q : TransferPc}
    → s.thr1 ≡ p
    → Inv s
    → Transfer 5 s.acc1 s.acc2 s.locked p a b m q
    → Inv (record s { acc1 = a; acc2 = b; locked = m; thr1 = q })
thr1-Inv e i (Transfer.acquire h) = ground arith
thr1-Inv e i (pass h) = ground arith
thr1-Inv e i (refuse h) = ground arith
thr1-Inv e i take = ground arith
thr1-Inv e i give = ground arith
thr1-Inv e i Transfer.release = ground arith

thr2-Inv :
    {s : State} {a b : ℕ} {m : Bool} {p q : TransferPc}
    → s.thr2 ≡ p
    → Inv s
    → Transfer 13 s.acc2 s.acc1 s.locked p a b m q
    → Inv (record s { acc1 = b; acc2 = a; locked = m; thr2 = q })
thr2-Inv e i (Transfer.acquire h) = ground arith
thr2-Inv e i (pass h) = ground arith
thr2-Inv e i (refuse h) = ground arith
thr2-Inv e i take = ground arith
thr2-Inv e i give = ground arith
thr2-Inv e i Transfer.release = ground arith

thr3-Inv :
    {s : State} {m : Bool} {p q : PrintPc}
    → s.thr3 ≡ p
    → Inv s
    → Print s.acc1 s.acc2 s.locked p m q
    → Inv (record s { locked = m; thr3 = q })
thr3-Inv e i (Print.acquire h) = ground arith
thr3-Inv e i first = ground arith
thr3-Inv e i second = ground arith
thr3-Inv e i Print.release = ground arith

Step-Inv : (s t : State) → Inv s → Step s t → Inv t
Step-Inv s t i (by_thr1 m) = thr1-Inv refl i m
Step-Inv s t i (by_thr2 m) = thr2-Inv refl i m
Step-Inv s t i (by_thr3 m) = thr3-Inv refl i m

init-Inv : Inv init
init-Inv = record { exclusive = refl; kept = refl; covered1 = tt; covered2 = tt; consistent = tt }

-- In every state that the program reaches, at most one thread is between lock and unlock; a sum that
-- has been printed is 200; a thread about to withdraw finds enough in the account; and the balances
-- add up to 200 when both transfers have finished.
pub locked_sums :
    (s : State)
    → Reach Step init s
    → (inside s.thr1 + inside s.thr2 + print_inside s.thr3 ≤ 1)
      × ((n : ℕ) → s.thr3 ≡ printed n → n ≡ 200)
      × (s.thr1 ≡ withdraw → 5 ≤ s.acc1)
      × (s.thr2 ≡ withdraw → 13 ≤ s.acc2)
      × (s.thr1 ≡ finished → s.thr2 ≡ finished → s.acc1 + s.acc2 ≡ 200)
locked_sums s r =
    let i = Reach-invariant Step Inv Step-Inv init-Inv r in
    (
      ground (arith, i.exclusive),
      λ n e. ground (arith, i.consistent),
      λ e. ground (arith, i.covered1),
      λ e. ground (arith, i.covered2),
      λ e e'. ground (arith, i.kept),
    )
