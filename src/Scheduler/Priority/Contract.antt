-- ===== src/Scheduler/Priority/Contract.antt =====
-- What is documented of `std::priority_queue`: its comparator has to be a strict weak order, and `top` is a
-- job that no other goes before. Which of several such jobs it is, is not said.
use cpp20examples.Prelude.{
  ap, ℕ, ◌+◌, ◌≡◌, refl, Bool, true, false, List, [], ◌∷◌, map, none, some, arith, total,
}
use cpp20examples.Scheduler.Loop.{Container}
use cpp20examples.Scheduler.Loop.Complete.{IsContainer}
use cpp20examples.Scheduler.Priority.{Job}

-- What `std::priority_queue` asks of its comparator: a strict weak order.
pub record IsStrictOrder (comparator : Job → Job → Bool) : Type 0 where
  pub asym : (a b : Job) → comparator a b ≡ true → comparator b a ≡ false
  pub neg_trans :
      (a b c : Job) → comparator a b ≡ false → comparator b c ≡ false → comparator a c ≡ false

-- No job of the list goes before `j`.
abbrev pub Bounds : (Job → Job → Bool) → Job → List Job → Type 0
Bounds comparator j [] = Unit
Bounds comparator j (k ∷ q) = (comparator j k ≡ false) × Bounds comparator j q

-- The sum of a weight over a list of jobs: lists with the same sums for all weights have the same
-- jobs, each as often.
abbrev pub weight : (Job → ℕ) → List Job → ℕ
weight w [] = 0
weight w (j ∷ js) = w j + weight w js

-- A priority queue with a comparator: its jobs, in any order, and what its operations do.
pub record IsPriorityQueue {Q : Type 0} (comparator : Job → Job → Bool) (c : Container Job Q)
    : Type 0 where
  pub jobs : Q → List Job
  pub handle_lem : (j : Job) → c.handle j ≡ j.handle
  pub pop_none : (q : Q) → c.pop q ≡ none → jobs q ≡ []
  pub pop_some :
      (w : Job → ℕ) (q q' : Q) (j : Job)
      → c.pop q ≡ some (j, q')
      → weight w (jobs q) ≡ w j + weight w (jobs q')
  pub pop_top : (q q' : Q) (j : Job) → c.pop q ≡ some (j, q') → Bounds comparator j (jobs q')
  pub push_lem :
      (w : Job → ℕ) (q : Q) (j : Job) → weight w (jobs (c.push j q)) ≡ w j + weight w (jobs q)

abbrev pub handles : List Job → List ℕ
handles = map (λ (j : Job). j.handle)

pub total-handles : (w : ℕ → ℕ) (js : List Job) → total w (handles js) ≡ weight (λ j. w j.handle) js
total-handles w [] = refl
total-handles w (j ∷ js) = omega (arith, total-handles w js)

-- A priority queue loses no job and makes none up.
module _ {Q : Type 0} {comparator : Job → Job → Bool} {c : Container Job Q}
    (law : IsPriorityQueue comparator c) where
  open law use {jobs}

  unfoldable pub IsPriorityQueue-IsContainer : IsContainer c
  IsPriorityQueue-IsContainer = record {
    contents = λ q. handles (jobs q);
    pop_none = λ q e. rw (law.pop_none q e) refl;
    pop_some = λ w q q' j e. omega (
      arith,
      law.pop_some (λ k. w k.handle) q q' j e,
      ap w (law.handle_lem j),
      total-handles w (jobs q),
      total-handles w (jobs q'),
    );
    push_total = λ w q j. omega (
      arith,
      law.push_lem (λ k. w k.handle) q j,
      ap w (law.handle_lem j),
      total-handles w (jobs (c.push j q)),
      total-handles w (jobs q),
    );
  }
