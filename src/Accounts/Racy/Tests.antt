-- ===== src/Accounts/Racy/Tests.antt =====
-- The theorem after the first thread has withdrawn, and a run that prints a wrong sum.
use cpp20examples.Prelude.{◌+◌, ◌≤◌, ◌≡◌, refl, arith}
use cpp20examples.Steps.{Reach, start, later}
use cpp20examples.Accounts.Racy.{
  State, init, Step, by_thr1, by_thr2, by_thr3, pass, take, first, second, test, withdraw, deposit,
  finished, read_first, printed,
}
use cpp20examples.Accounts.Racy.Sums.{in_flight, racy_conserved}

abbrev taken : State
taken = record { acc1 = 95; acc2 = 100; thr1 = deposit; thr2 = test; thr3 = read_first }

taken-Reach : Reach Step init taken
taken-Reach = later (later start (by_thr1 (pass (omega arith)))) (by_thr1 take)

racy_conserved_test :
    (taken.acc1 + taken.acc2 + in_flight 5 taken.thr1 + in_flight 13 taken.thr2 ≡ 200)
    × (taken.thr1 ≡ withdraw → 5 ≤ taken.acc1)
    × (taken.thr2 ≡ withdraw → 13 ≤ taken.acc2)
    × (taken.thr1 ≡ finished → taken.thr2 ≡ finished → taken.acc1 + taken.acc2 ≡ 200)
racy_conserved_test = racy_conserved taken taken-Reach

-- The program can print 182 as the sum, while both transfers are between withdrawal and deposit.
prints_182 : (s : State) × Reach Step init s × (s.thr3 ≡ printed 182)
prints_182 = (
  _,
  later
      (later
        (later
          (later (later (later start (by_thr1 (pass (omega arith)))) (by_thr2 (pass (omega arith))))
            (by_thr1 take))
          (by_thr2 take))
        (by_thr3 first))
      (by_thr3 second),
  refl,
)
