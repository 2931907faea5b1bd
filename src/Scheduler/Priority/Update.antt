-- ===== src/Scheduler/Priority/Update.antt =====
-- concurrency/problems/solutions/priority_queueSchedulerUpdatePriority.cpp: the priority of a task
-- that is not done is updated before it goes back into the queue.
use cpp20examples.Prelude.{ℕ, zero, suc, [], ◌∷◌, none, String, Option}
use cpp20examples.Prelude.Int.{ℤ, pos, ◌-ℤ◌}
use cpp20examples.Prelude.Exec.{Exec}
use cpp20examples.Coroutine.{Body, text, num, finish, await, Store, create}
use cpp20examples.Scheduler.Loop.{Trace, Container}
use cpp20examples.Scheduler.Loop
use cpp20examples.Scheduler.Priority.{Job, reading_by_reference, created_by_reference, dead_name}

-- `Task` with its promise type: created at its initial suspend point.
pub task : ℕ → Option (Body (Unit {0})) → Store (Unit {0}) → Store (Unit {0})
unfolding create
task = created_by_reference

-- `emplace`
unfoldable pub emplace : {Q : Type 0} → Container Job Q → ℤ → ℕ → Q → Q
emplace c prio h q = c.push (record { prio = prio; handle = h }) q

-- The job that goes back: `std::make_pair(upd(prio), task)`
abbrev pub updated : (ℤ → ℤ) → Job → Job
updated upd j = record { prio = upd j.prio; handle = j.handle }

-- `schedule`; the fuel bounds the rounds of its loop.
unfoldable pub schedule :
    {Q : Type 0}
    → (ℤ → ℤ)
    → Container Job Q
    → ℕ
    → Q
    → Store (Unit {0})
    → Exec (Trace × Store (Unit {0}))
unfolding Loop.schedule
schedule upd c = Loop.schedule c (updated upd)

-- The loop of `createTask` from `i` on, with the rounds that are left, and what follows it.
execute : String → ℕ → ℕ → Body (Unit {0})
execute name i zero = await [] tt (finish (text name ∷ text " finish" ∷ []))
execute name i (suc n) =
    await (text name ∷ text " execute " ∷ num (pos i) ∷ []) tt (execute name (suc i) n)

-- `createTask`, whose `name` is a reference.
unfoldable pub create_task : Option String → Option (Body (Unit {0}))
unfolding execute
create_task =
    reading_by_reference (λ name. await (text name ∷ text " start" ∷ []) tt (execute name 0 4))

-- A scheduler of `main` by its updater, with its priority queue, empty at first, the three names and the
-- addresses of the three frames.
unfoldable pub run_with :
    {Q : Type 0}
    → (ℤ → ℤ)
    → Container Job Q
    → Q
    → (ℕ → Option String)
    → ℕ
    → ℕ
    → ℕ
    → Exec (Trace × Store (Unit {0}))
unfolding task emplace schedule create_task
run_with upd c empty name f_a f_b f_c =
    schedule upd c 22 (emplace c (pos 2) f_c (emplace c (pos 1) f_b (emplace c (pos 0) f_a empty)))
      (task f_c (create_task (name 2))
        (task f_b (create_task (name 1)) (task f_a (create_task (name 0)) (λ h. none))))

-- A scheduler of `main`: the temporaries "TaskA", "  TaskB" and "    TaskC" are destroyed before
-- `schedule`.
unfoldable pub run_main :
    {Q : Type 0} → (ℤ → ℤ) → Container Job Q → Q → ℕ → ℕ → ℕ → Exec (Trace × Store (Unit {0}))
unfolding run_with
run_main upd c empty = run_with upd c empty (λ i. dead_name)

-- The updater of the second scheduler.
unfoldable pub decrement : ℤ → ℤ
unfolding ◌-ℤ◌
decrement a = a -ℤ pos 1
