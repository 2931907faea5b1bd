-- ===== src/Scheduler/Stack.antt =====
-- concurrency/stackScheduler.cpp: the class `Scheduler` over a `std::stack`, its coroutines and `main`.
pub mod Order
mod Tests
use cpp20examples.Prelude.{ℕ, String, List, [], ◌∷◌, ◌++◌, Option, none, some}
use cpp20examples.Prelude.Exec.{Exec}
use cpp20examples.Coroutine.{Body, text, finish, await, Store, create}
use cpp20examples.Scheduler.Loop.{Container, Trace}
use cpp20examples.Scheduler.Loop

-- `Task` with its promise type: the coroutine is created at its initial suspend point, and
-- `get_handle` is the address of its frame. The operand of `co_await` is always `suspend()`.
pub task : ℕ → Body (Unit {0}) → Store (Unit {0}) → Store (Unit {0})
unfolding create
task = create

-- `emplace`
abbrev pub emplace : ℕ → List ℕ → List ℕ
emplace h q = h ∷ q

-- the top and `pop`
abbrev pop_task : List ℕ → Option (ℕ × List ℕ)
pop_task [] = none
pop_task (h ∷ q) = some (h, q)

-- `_tasks`, with the top of the container first
abbrev pub tasks : Container ℕ (List ℕ)
tasks = record { push = emplace; pop = pop_task; handle = λ h. h }

-- `schedule`; the fuel bounds the rounds of its loop.
pub schedule : ℕ → List ℕ → Store (Unit {0}) → Exec (Trace × Store (Unit {0}))
unfolding Loop.schedule
schedule = Loop.schedule tasks (λ h. h)

-- `TaskA`
abbrev pub task_a : Body (Unit {0})
task_a =
    await (text "Hello from TaskA" ∷ []) tt
      (await (text "Executing the TaskA" ∷ []) tt (finish (text "TaskA is finished" ∷ [])))

-- `TaskB`
abbrev pub task_b : Body (Unit {0})
task_b =
    await (text "Hello from TaskB" ∷ []) tt
      (await (text "Executing the TaskB" ∷ []) tt (finish (text "TaskB is finished" ∷ [])))

-- `main`, with the addresses of the two frames.
pub main : ℕ → ℕ → Exec (Trace × Store (Unit {0}))
unfolding task schedule
main a b = schedule 7 (emplace b (emplace a [])) (task b task_b (task a task_a (λ h. none)))
