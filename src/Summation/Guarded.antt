-- ===== src/Summation/Guarded.antt =====
-- Threads whose code takes the lock around every plain addition, or makes atomic additions only, lose
-- none of them: the invariant of the sum and of the lock.
use cpp20examples.Prelude.{
  ℕ, zero, suc, ◌+◌, ◌%◌, ◌^◌, ◌≤◌, ◌<◌, ◌≡◌, refl, arith, Bool, true, false, List, [], ◌∷◌, ap,
  ℕ_discrete, subst, sym,
}
use cpp20examples.Coroutine.{write}
use cpp20examples.Threads.{
  System, pick, total_pc, total_pc-write, le-total_pc, two-le-total_pc, write_self, write_other,
  total_pc-zero,
}
use cpp20examples.Summation.{
  Action, lock, unlock, add, fetch_add, Memory, Pc, before, within, Act, acquire, release, read_sum,
  write_sum, increase, ThreadStep, threads,
}

-- 1 where the code goes on with the lock held.
abbrev pub held : List Action → ℕ
held [] = 0
held (lock ∷ r) = 0
held (unlock ∷ r) = 1
held (add v ∷ r) = 1
held (fetch_add v ∷ r) = 0

-- The lock is taken and given back in turn, plain additions stand between, and atomic ones only where
-- the program has no lock.
abbrev pub Guarded : Bool → List Action → Type 0
Guarded locking [] = Unit
Guarded locking (lock ∷ r) = (locking ≡ true) × (held r ≡ 1) × Guarded locking r
Guarded locking (unlock ∷ r) = (held r ≡ 0) × Guarded locking r
Guarded locking (add v ∷ r) = (held r ≡ 1) × Guarded locking r
Guarded locking (fetch_add v ∷ r) = (locking ≡ false) × (held r ≡ 0) × Guarded locking r

-- What the code still adds.
abbrev pub added : List Action → ℕ
added [] = 0
added (lock ∷ r) = added r
added (unlock ∷ r) = added r
added (add v ∷ r) = v + added r
added (fetch_add v ∷ r) = v + added r

abbrev pub holds : Pc → ℕ
holds (before r) = held r
holds (within read v r) = 1

abbrev pub owed : Pc → ℕ
owed (before r) = added r
owed (within read v r) = v + added r

-- A value that was read is still the one in memory.
abbrev pub Safe : Bool → Memory → Pc → Type 0
Safe locking m (before r) = Guarded locking r
Safe locking m (within read v r) = (read ≡ m.sum) × (held r ≡ 1) × Guarded locking r

abbrev pub set : Bool → ℕ
set true = 1
set false = 0

set_le : (f : Bool) → set f ≤ 1
set_le f = ground arith

pub record Inv (locking : Bool) (n expected : ℕ) (s : System Memory Pc) : Type 0 where
  pub balance : (s.memory.sum + total_pc owed n s.pc) % 2 ^ 64 ≡ expected % 2 ^ 64
  pub small : s.memory.sum < 2 ^ 64
  pub exclusion : total_pc holds n s.pc ≡ set s.memory.locked
  pub mode : set s.memory.locked ≤ set locking
  pub safe : (i : ℕ) → i < n → Safe locking s.memory (s.pc i)

-- What an action does to the balance, the lock and the thread that makes it.
Act-effects :
    (locking : Bool) {m m' : Memory} {p p' : Pc}
    → Act m p m' p'
    → Safe locking m p
    → m.sum < 2 ^ 64
    → holds p ≤ set m.locked
    → set m.locked ≤ set locking
    → ((m'.sum + owed p') % 2 ^ 64 ≡ (m.sum + owed p) % 2 ^ 64)
      × (m'.sum < 2 ^ 64)
      × (holds p' + set m.locked ≡ holds p + set m'.locked)
      × (set m'.locked ≤ set locking)
      × Safe locking m' p'
Act-effects locking (acquire f) (b, h, ok) l e k =
    (refl, l, omega (arith, h, ap set f), omega (arith, ap set b), ok)
Act-effects locking {m = m} release (h, ok) l e k =
    (refl, l, omega (arith, h, e, set_le m.locked), omega arith, ok)
Act-effects locking read_sum (h, ok) l e k = (refl, l, omega arith, k, (refl, h, ok))
Act-effects locking write_sum (e, h, ok) l _ k =
    (omega (arith, e), omega arith, omega (arith, h), k, ok)
Act-effects locking increase (b, h, ok) l e k = (omega arith, omega arith, omega (arith, h), k, ok)

-- A thread that may hold the lock beside the one that acts stays safe.
Act-others :
    (locking : Bool) {m m' : Memory} {p p' : Pc} (q : Pc)
    → Act m p m' p'
    → Safe locking m p
    → holds p + holds q ≤ set m.locked
    → set m.locked ≤ set locking
    → Safe locking m q
    → Safe locking m' q
Act-others locking (before r) act ok e k safe = safe
Act-others locking (within read v r) (acquire f) ok e k safe = safe
Act-others locking (within read v r) release ok e k safe = safe
Act-others locking (within read v r) read_sum ok e k safe = safe
Act-others locking {m = m} (within read v r) write_sum ok e k safe =
    absurd (omega (arith, e, set_le m.locked))
Act-others locking (within read v r) increase (b, h, ok) e k safe =
    absurd (omega (arith, e, k, ap set b))

Step-Safe :
    (locking : Bool) (n expected : ℕ) (s : System Memory Pc)
    → Inv locking n expected s
    → (i : ℕ) → i < n
    → {m' : Memory} {p' : Pc} → Act s.memory (s.pc i) m' p'
    → Safe locking m' p'
    → (k : ℕ) → k < n
    → Safe locking m' (write s.pc i p' k)
Step-Safe locking n expected s inv i l {m'} {p'} act ok k l' = elim (ℕ_discrete i k) [
  | yes e ↦ subst (Safe locking m') (sym (write_self s.pc i k p' e)) ok
  | no d ↦ subst (Safe locking m') (sym (write_other s.pc i k p' d)) (
      Act-others locking (s.pc k) act (inv.safe i l)
        (omega (arith, inv.exclusion, two-le-total_pc holds n i k s.pc l l' d)) inv.mode
        (inv.safe k l'))
]

pub Step-Inv :
    (locking : Bool) (n expected : ℕ) (s t : System Memory Pc)
    → Inv locking n expected s
    → ThreadStep n s t
    → Inv locking n expected t
Step-Inv locking n expected s t inv (pick i l {m = m'} {p = p'} act) =
    let (balance, small, exclusion, mode, safe) =
      Act-effects locking act (inv.safe i l) inv.small
        (omega (arith, inv.exclusion, le-total_pc holds n i s.pc l)) inv.mode in
    record {
      balance = omega (arith, balance, inv.balance, total_pc-write owed n i s.pc p' l);
      small = small;
      exclusion = omega (arith, exclusion, inv.exclusion, total_pc-write holds n i s.pc p' l);
      mode = mode;
      safe = Step-Safe locking n expected s inv i l act safe;
    }

owed_threads :
    (n : ℕ) (code : ℕ → List Action)
    → total_pc owed n (λ i. before (code i)) ≡ total_pc added n code
owed_threads zero code = refl
owed_threads (suc n) code = ap (λ (x : ℕ). added (code n) + x) (owed_threads n code)

-- Threads with guarded code start in the invariant.
pub threads-Inv :
    (locking : Bool) (n : ℕ) (code : ℕ → List Action)
    → ((i : ℕ) → i < n → (held (code i) ≡ 0) × Guarded locking (code i))
    → Inv locking n (total_pc added n code) (threads code)
threads-Inv locking n code ok = record {
  balance = omega (arith, owed_threads n code);
  small = omega arith;
  exclusion = total_pc-zero holds n (λ i. before (code i)) (λ i l. (ok i l).0);
  mode = omega arith;
  safe = λ i l. (ok i l).1;
}
