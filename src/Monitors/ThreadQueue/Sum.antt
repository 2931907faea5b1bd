-- ===== src/Monitors/ThreadQueue/Sum.antt =====
-- The sum that `main` checks at the end.
pub mod Weights
use cpp20examples.Prelude.{
  ℕ, zero, suc, ◌+◌, ◌-◌, ◌≤◌, ◌<◌, ◌≡◌, ◌≢◌, refl, arith, Bool, true, false, List, [], ◌∷◌, ◌++◌,
  length, length-append, total, total-append, ◌⊎◌, inl, inr, sym, ap, ◌∙◌, subst, ltb,
  if◌then◌else◌,
}
use cpp20examples.Coroutine.{write}
use cpp20examples.Steps.{Reach, Reach-invariant}
use cpp20examples.Threads.{
  System, Step, pick, total_pc, total_pc-write, total_pc-congr, total_pc-zero,
}
use cpp20examples.Monitors.ThreadQueue.{
  Pc, remove_lock, test, asleep, front, pop, remove_unlock, add_to_sum, removed, crashed, count,
  add_lock, push, add_unlock, notify, added, Memory, is_empty, Act, lock_remove, found, sleep, wake,
  read_front, no_front, pop_front, no_pop, unlock_remove, sum, increment, lock_add, push_back,
  unlock_add, notify_one, init, MainStep,
}
use cpp20examples.Monitors.ThreadQueue.Order.{Inv, Knows, Step-Inv, init-Inv, add_to_sum-Free}
use cpp20examples.Monitors.ThreadQueue.Sum.Weights.{
  carried, has_counted, has_pushed, has_popped, adds, removes, sum_of, triangle, Act-sum,
  Act-counted, Act-moved, Act-adds, Act-removes,
}

record SumInv (k n : ℕ) (s : System Memory Pc) : Type 0 where
  order : Inv n s
  kept :
      total_pc carried n s.pc + sum_of s.memory.queue + s.memory.shared_sum
      ≡ triangle s.memory.shared_counter
  counted : total_pc has_counted n s.pc ≡ s.memory.shared_counter
  moved : total_pc has_pushed n s.pc ≡ total_pc has_popped n s.pc + length s.memory.queue
  adders : total_pc adds n s.pc ≡ n - k
  removers : total_pc removes n s.pc ≡ n - (n - k)

Step-SumInv :
    (k n : ℕ) (s t : System Memory Pc) → SumInv k n s → Step n (Act add_to_sum) s t → SumInv k n t
Step-SumInv k n s t inv (pick i h {m} {p} a) =
    let knows = inv.order.knows i h in
    record {
      order = Step-Inv add_to_sum-Free n s t inv.order (pick i h a);
      kept = omega (arith, inv.kept, total_pc-write carried n i s.pc p h, Act-sum a knows);
      counted = omega (arith, inv.counted, total_pc-write has_counted n i s.pc p h, Act-counted a);
      moved = omega (
        arith,
        inv.moved,
        total_pc-write has_pushed n i s.pc p h,
        total_pc-write has_popped n i s.pc p h,
        Act-moved a knows,
      );
      adders = omega (arith, inv.adders, total_pc-write adds n i s.pc p h, Act-adds a);
      removers = omega (arith, inv.removers, total_pc-write removes n i s.pc p h, Act-removes a);
    }

module _ (k : ℕ) where
  init-carried : (n : ℕ) → total_pc carried n (init k).pc ≡ 0
  init-carried zero = refl
  init-carried (suc n) = ground (arith, init-carried n)

  init-counted : (n : ℕ) → total_pc has_counted n (init k).pc ≡ 0
  init-counted zero = refl
  init-counted (suc n) = ground (arith, init-counted n)

  init-pushed : (n : ℕ) → total_pc has_pushed n (init k).pc ≡ 0
  init-pushed zero = refl
  init-pushed (suc n) = ground (arith, init-pushed n)

  init-popped : (n : ℕ) → total_pc has_popped n (init k).pc ≡ 0
  init-popped zero = refl
  init-popped (suc n) = ground (arith, init-popped n)

  init-adds : (n : ℕ) → total_pc adds n (init k).pc ≡ n - k
  init-adds zero = omega arith
  init-adds (suc n) = ground (arith, init-adds n)

  init-removes : (n : ℕ) → total_pc removes n (init k).pc ≡ n - (n - k)
  init-removes zero = omega arith
  init-removes (suc n) = ground (arith, init-removes n)

  init-SumInv : (n : ℕ) → SumInv k n (init k)
  unfolding triangle
  init-SumInv n = record {
    order = init-Inv k n;
    kept = omega (arith, init-carried n);
    counted = init-counted n;
    moved = omega (arith, init-pushed n, init-popped n);
    adders = init-adds n;
    removers = init-removes n;
  }

-- A thread at its end.
abbrev pub Ended : Pc → Type 0
Ended p = (p ≡ removed) ⊎ (p ≡ added)

Ended-weights :
    (p : Pc)
    → Ended p
    → (carried p ≡ 0)
      × (has_counted p ≡ adds p)
      × (has_pushed p ≡ adds p)
      × (has_popped p ≡ removes p)
Ended-weights p (inl e) = rw e (refl, refl, refl, refl)
Ended-weights p (inr e) = rw e (refl, refl, refl, refl)

length-zero : (q : List ℕ) → length q ≡ 0 → q ≡ []
length-zero [] e = refl
length-zero (x ∷ q) e = absurd (omega arith)

-- With as many threads that add as threads that remove, whichever way they are interleaved: when all
-- have ended, `sharedCounter` is their number `k`, the queue is empty, and `sharedSum` is 1 + ... + k,
-- so `main` does not throw for k = 100.
pub thread_queue_sum :
    (k : ℕ) (s : System Memory Pc)
    → Reach (MainStep k) (init k) s
    → ((i : ℕ) → i < k + k → Ended (s.pc i))
    → (s.memory.shared_counter ≡ k) × (s.memory.queue ≡ []) × (s.memory.shared_sum ≡ triangle k)
thread_queue_sum k s r ended =
    let inv =
      Reach-invariant (MainStep k) (SumInv k (k + k)) (Step-SumInv k (k + k))
        (init-SumInv k (k + k)) r in
    let none_carried : total_pc carried (k + k) s.pc ≡ 0 =
      total_pc-zero carried (k + k) s.pc (λ i h. (Ended-weights (s.pc i) (ended i h)).0) in
    let counter : s.memory.shared_counter ≡ k = omega (
      arith,
      inv.counted,
      inv.adders,
      total_pc-congr has_counted adds (k + k) s.pc (λ i h. (Ended-weights (s.pc i) (ended i h)).1),
    ) in
    let empty : s.memory.queue ≡ [] = length-zero s.memory.queue (
      omega (
        arith,
        inv.moved,
        inv.adders,
        inv.removers,
        total_pc-congr has_pushed adds (k + k) s.pc (λ i h. (Ended-weights (s.pc i) (ended i h)).2),
        total_pc-congr has_popped removes (k + k) s.pc
            (λ i h. (Ended-weights (s.pc i) (ended i h)).3),
      )) in
    (counter, empty, omega (arith, inv.kept, none_carried, ap sum_of empty, ap triangle counter))
