-- ===== src/Scheduler/Priority/Plain.antt =====
-- concurrency/problems/priority_queueScheduler.cpp: the class `Scheduler` with the default order.
use cpp20examples.Prelude.{ℕ, [], ◌∷◌, none}
use cpp20examples.Prelude.Int.{ℤ}
use cpp20examples.Prelude.Exec.{Exec}
use cpp20examples.Coroutine.{Body, text, finish, await, Store, create}
use cpp20examples.Scheduler.Loop.{Trace, Container}
use cpp20examples.Scheduler.Loop
use cpp20examples.Scheduler.Priority.{Job}

-- `Task` with its promise type: created at its initial suspend point.
pub task : ℕ → Body (Unit {0}) → Store (Unit {0}) → Store (Unit {0})
unfolding create
task = create

-- `emplace`
unfoldable pub emplace : {Q : Type 0} → Container Job Q → ℤ → ℕ → Q → Q
emplace c prio h q = c.push (record { prio = prio; handle = h }) q

-- `schedule`; the fuel bounds the rounds of its loop.
unfoldable pub schedule :
    {Q : Type 0} → Container Job Q → ℕ → Q → Store (Unit {0}) → Exec (Trace × Store (Unit {0}))
unfolding Loop.schedule
schedule c = Loop.schedule c (λ j. j)

-- `TaskA`
abbrev pub task_a : Body (Unit {0})
task_a =
    await (text "Hello from TaskA" ∷ []) tt
      (await (text "Executing the TaskA" ∷ []) tt (finish (text "TaskA is finished" ∷ [])))

-- `TaskB`
abbrev pub task_b : Body (Unit {0})
task_b =
    await (text "Hello from TaskB" ∷ []) tt
      (await (text "Executing the TaskB" ∷ []) tt (finish (text "TaskB is finished" ∷ [])))

-- One scheduler of `main`, with its priority queue, empty at first, the priorities of its two tasks and
-- the addresses of their frames.
unfoldable pub run_main :
    {Q : Type 0} → Container Job Q → Q → ℤ → ℤ → ℕ → ℕ → Exec (Trace × Store (Unit {0}))
unfolding task emplace schedule
run_main c empty p_a p_b a b =
    schedule c 7 (emplace c p_b b (emplace c p_a a empty))
      (task b task_b (task a task_a (λ h. none)))
