-- ===== src/Scheduler/Stack/Order.antt =====
-- The stack runs every coroutine to its end, the one emplaced last first.
use cpp20examples.Prelude.{
  ℕ, ◌+◌, ◌<◌, ◌≡◌, refl, ◌==◌, if◌then◌else◌, List, [], ◌∷◌, none, some, arith, length, total,
  count,
}
use cpp20examples.Prelude.Exec.{ok}
use cpp20examples.Coroutine.{Store, script}
use cpp20examples.Scheduler.Loop.Complete.{IsContainer, IsRunnable}
use cpp20examples.Scheduler.Loop.RunToEnd.{Drains, drained, drain, one_by_one, schedule-runs_to_end}
use cpp20examples.Scheduler.Stack.{tasks, schedule}

pop_none : (q : List ℕ) → tasks.pop q ≡ none → q ≡ []
pop_none [] e = refl
pop_none (x ∷ q) e = cc

pop_some :
    (w : ℕ → ℕ) (q q' : List ℕ) (j : ℕ) → tasks.pop q ≡ some (j, q') → total w q ≡ w j + total w q'
pop_some w [] q' j e = cc
pop_some w (x ∷ q) q' j e = ground arith

tasks-IsContainer : IsContainer tasks
tasks-IsContainer = record {
  contents = λ q. q;
  pop_none = pop_none;
  pop_some = pop_some;
  push_total = λ w q h. refl;
}

pop-emplace :
    (q q' : List ℕ) (h : ℕ)
    → Unit {0}
    → tasks.pop q ≡ some (h, q')
    → (tasks.push h q' ≡ q) × Unit {0}
pop-emplace [] q' h o e = cc
pop-emplace (x ∷ q) q' h o e = (cc, tt)

tasks-Drains : (q : List ℕ) → Drains tasks q q
tasks-Drains [] = drained refl
tasks-Drains (h ∷ q) = drain refl (tasks-Drains q)

-- If every handle on the stack is that of one coroutine suspended inside its body, and the fuel is
-- more than the number of times that these have to be resumed, `schedule` meets no undefined
-- behaviour; the output is that of the coroutines one after the other, from the top of the stack,
-- each complete; and it frees exactly their frames.
pub stack_schedule_lem :
    (q : List ℕ) (σ : Store (Unit {0})) (fuel : ℕ)
    → IsRunnable q σ
    → total (λ h. length (script σ h)) q < fuel
    → (τ : Store (Unit {0})) × (schedule fuel q σ ≡ ok (one_by_one σ q, τ))
      × ((h : ℕ) → τ h ≡ (if count h q == 0 then σ h else none))
unfolding schedule tasks-IsContainer
stack_schedule_lem q σ fuel ready m =
    schedule-runs_to_end tasks tasks-IsContainer (λ _. Unit {0}) pop-emplace (tasks-Drains q) tt
      fuel σ ready m
