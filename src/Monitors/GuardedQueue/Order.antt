-- ===== src/Monitors/GuardedQueue/Order.antt =====
-- The three thread-safe queues keep the order of their numbers, and are never read when empty.
mod Tests
use cpp20examples.Prelude.{
  ℕ, zero, suc, ◌+◌, ◌≤◌, ◌<◌, ◌≡◌, ◌≢◌, refl, arith, Bool, true, false, List, ◌∷◌, ◌++◌, ◌⊎◌, inl,
  inr, ℕ_discrete, append_assoc, sym, subst,
}
use cpp20examples.Steps.{Reach, Reach-invariant}
use cpp20examples.Threads.{
  System, Step, pick, total_pc, total_pc-write, le-total_pc, two-le-total_pc, write_self,
  write_other,
}
use cpp20examples.Monitors.ThreadQueue.{
  Pc, remove_lock, test, asleep, front, pop, remove_unlock, add_to_sum, removed, crashed, count,
  add_lock, push, add_unlock, notify, added, Memory, is_empty, Act, lock_remove, found, sleep, wake,
  read_front, no_front, pop_front, no_pop, unlock_remove, sum, increment, lock_add, push_back,
  unlock_add, notify_one, init, MainStep,
}
use cpp20examples.Monitors.ThreadQueue.Order.{
  inside, held, Knows, Free, add_to_sum-Free, Inv, Step-Inv, init-Inv,
}
use cpp20examples.Monitors.GuardedQueue.{
  discard, init_guard, GuardStep, init_combined, CombinedStep,
}

-- The programs: with a sum, with guards, with a lock that notifies.
pub data Program : Type 0 where
  summed guarded combined : Program

abbrev pub StepOf : Program → ℕ → System Memory Pc → System Memory Pc → Type 0
StepOf summed = MainStep
StepOf guarded = GuardStep
StepOf combined = CombinedStep

abbrev pub init_of : Program → (ℕ → ℕ) → ℕ → System Memory Pc
init_of summed dice = init
init_of guarded dice = init_guard dice
init_of combined dice = init_combined dice

discard-Free : Free discard
discard-Free = record { outside = λ v. refl; no_crash = λ v q. tt }

init_guard-outside : (dice : ℕ → ℕ) (k n : ℕ) → total_pc inside n (init_guard dice k).pc ≡ 0
init_guard-outside dice k zero = refl
init_guard-outside dice k (suc n) = ground (arith, init_guard-outside dice k n)

init_guard-Inv : (dice : ℕ → ℕ) (k n : ℕ) → Inv n (init_guard dice k)
init_guard-Inv dice k n = record {
  exclusive = init_guard-outside dice k n;
  knows = λ i h. ground arith;
  fifo = refl;
}

Reach-Inv :
    (v : Program) (dice : ℕ → ℕ) (k : ℕ) {s : System Memory Pc}
    → Reach (StepOf v k) (init_of v dice k) s
    → Inv (k + k) s
Reach-Inv summed dice k r =
    Reach-invariant (MainStep k) (Inv (k + k)) (Step-Inv add_to_sum-Free (k + k))
      (init-Inv k (k + k)) r
Reach-Inv guarded dice k r =
    Reach-invariant (GuardStep k) (Inv (k + k)) (Step-Inv discard-Free (k + k))
      (init_guard-Inv dice k (k + k)) r
Reach-Inv combined dice k r =
    Reach-invariant (CombinedStep k) (Inv (k + k)) (Step-Inv discard-Free (k + k))
      (init_guard-Inv dice k (k + k)) r

-- In each of the programs, whatever the number of threads is and however they are interleaved: no two
-- threads are between lock and unlock at once, no thread calls `front` or `pop_front` on the empty queue,
-- and the numbers pushed are, in their order, those popped and then those in the queue.
pub thread_queue_order :
    (v : Program) (dice : ℕ → ℕ) (k : ℕ) (s : System Memory Pc)
    → Reach (StepOf v k) (init_of v dice k) s
    → ((i j : ℕ) → i < k + k → j < k + k → i ≢ j → inside (s.pc i) ≡ 1 → inside (s.pc j) ≡ 0)
      × ((i : ℕ) → i < k + k → s.pc i ≢ crashed)
      × (s.memory.pushed ≡ s.memory.popped ++ s.memory.queue)
thread_queue_order v dice k s r =
    let inv = Reach-Inv v dice k r in
    (
      λ i j h h' d e. ground (arith, inv.exclusive, two-le-total_pc inside (k + k) i j s.pc h h' d),
      λ i h e. subst (λ (x : Pc). Knows x s.memory.queue) e (inv.knows i h),
      inv.fifo,
    )
