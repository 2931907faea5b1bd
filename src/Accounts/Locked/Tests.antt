-- ===== src/Accounts/Locked/Tests.antt =====
-- The theorem while the first thread is about to withdraw, with the mutex locked.
use cpp20examples.Prelude.{ℕ, ◌+◌, ◌≤◌, ◌≡◌, refl, arith, true}
use cpp20examples.Steps.{Reach, start, later}
use cpp20examples.Accounts.Locked.{
  State, init, Step, by_thr1, Transfer, pass, lock, withdraw, finished, print_lock, printed,
}
use cpp20examples.Accounts.Locked.Sums.{inside, print_inside, locked_sums}

abbrev seen : State
seen = record {
  acc1 = 100;
  acc2 = 100;
  locked = true;
  thr1 = withdraw;
  thr2 = lock;
  thr3 = print_lock;
}

seen-Reach : Reach Step init seen
seen-Reach = later (later start (by_thr1 (Transfer.acquire refl))) (by_thr1 (pass (omega arith)))

locked_sums_example :
    (inside seen.thr1 + inside seen.thr2 + print_inside seen.thr3 ≤ 1)
    × ((n : ℕ) → seen.thr3 ≡ printed n → n ≡ 200)
    × (seen.thr1 ≡ withdraw → 5 ≤ seen.acc1)
    × (seen.thr2 ≡ withdraw → 13 ≤ seen.acc2)
    × (seen.thr1 ≡ finished → seen.thr2 ≡ finished → seen.acc1 + seen.acc2 ≡ 200)
locked_sums_example = locked_sums seen seen-Reach
