-- ===== src/Accounts/Racy/Sums.antt =====
-- No money is lost, but the sum can be printed while some is on its way.
use cpp20examples.Prelude.{ℕ, ◌+◌, ◌≤◌, ◌≡◌, refl, arith}
use cpp20examples.Steps.{Reach, Reach-invariant}
use cpp20examples.Accounts.Racy.{
  TransferPc, withdraw, deposit, finished, State, init, Transfer, pass, refuse, take, give, Step,
  by_thr1, by_thr2, by_thr3,
}

-- What a thread has withdrawn and not deposited.
abbrev pub in_flight : ℕ → TransferPc → ℕ
in_flight amount deposit = amount
in_flight amount _ = 0

-- What a thread knows of the balance that it takes from.
abbrev Covered : ℕ → TransferPc → ℕ → Type 0
Covered amount withdraw balance = amount ≤ balance
Covered amount _ balance = Unit

record Inv (s : State) : Type 0 where
  kept : s.acc1 + s.acc2 + in_flight 5 s.thr1 + in_flight 13 s.thr2 ≡ 200
  covered1 : Covered 5 s.thr1 s.acc1
  covered2 : Covered 13 s.thr2 s.acc2

Covered-mono :
    (amount balance more : ℕ) (p : TransferPc)
    → Covered amount p balance
    → balance ≤ more
    → Covered amount p more
Covered-mono amount balance more withdraw c h = omega arith
Covered-mono amount balance more _ c h = tt

-- What an action of a transfer does.
Transfer-facts :
    {amount origin target a b : ℕ} {p q : TransferPc}
    → Transfer amount origin target p a b q
    → Covered amount p origin
    → (a + b + in_flight amount q ≡ origin + target + in_flight amount p)
      × Covered amount q a
      × (target ≤ b)
Transfer-facts (pass h) c = (refl, h, omega arith)
Transfer-facts (refuse h) c = (refl, tt, omega arith)
Transfer-facts take c = (omega arith, tt, omega arith)
Transfer-facts give c = (omega arith, tt, omega arith)

Step-Inv : (s t : State) → Inv s → Step s t → Inv t
Step-Inv s t i (by_thr1 {a = a} {b = b} m) =
    let f = Transfer-facts m i.covered1 in
    record {
      kept = omega arith;
      covered1 = f.1;
      covered2 = Covered-mono 13 s.acc2 b s.thr2 i.covered2 f.2;
    }
Step-Inv s t i (by_thr2 {a = a} {b = b} m) =
    let f = Transfer-facts m i.covered2 in
    record {
      kept = omega arith;
      covered1 = Covered-mono 5 s.acc1 b s.thr1 i.covered1 f.2;
      covered2 = f.1;
    }
Step-Inv s t i (by_thr3 m) = record { kept = i.kept; covered1 = i.covered1; covered2 = i.covered2 }

init-Inv : Inv init
init-Inv = record { kept = refl; covered1 = tt; covered2 = tt }

-- In every state that the program reaches, the balances and the money that the two threads have
-- withdrawn and not deposited add up to 200, and a thread that is about to withdraw finds enough in
-- the account; so the balances add up to 200 again when both transfers have finished.
pub racy_conserved :
    (s : State)
    → Reach Step init s
    → (s.acc1 + s.acc2 + in_flight 5 s.thr1 + in_flight 13 s.thr2 ≡ 200)
      × (s.thr1 ≡ withdraw → 5 ≤ s.acc1)
      × (s.thr2 ≡ withdraw → 13 ≤ s.acc2)
      × (s.thr1 ≡ finished → s.thr2 ≡ finished → s.acc1 + s.acc2 ≡ 200)
racy_conserved s r =
    let i = Reach-invariant Step Inv Step-Inv init-Inv r in
    (
      i.kept,
      λ e. ground (arith, i.covered1),
      λ e. ground (arith, i.covered2),
      λ e e'. ground (arith, i.kept),
    )
