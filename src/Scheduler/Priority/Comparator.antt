-- ===== src/Scheduler/Priority/Comparator.antt =====
-- concurrency/problems/solutions/priority_queueSchedulerComperator.cpp: the order of the jobs is a
-- template parameter. With the default order it is concurrency/problems/priority_queueSchedulerSimplified.cpp.
use cpp20examples.Prelude.{ℕ, [], ◌∷◌, none, String, Option}
use cpp20examples.Prelude.Int.{ℤ, pos}
use cpp20examples.Prelude.Exec.{Exec}
use cpp20examples.Coroutine.{Body, text, finish, await, Store, create}
use cpp20examples.Scheduler.Loop.{Trace, Container}
use cpp20examples.Scheduler.Loop
use cpp20examples.Scheduler.Priority.{Job, reading_by_reference, created_by_reference, dead_name}

-- `Task` with its promise type: created at its initial suspend point.
pub task : ℕ → Option (Body (Unit {0})) → Store (Unit {0}) → Store (Unit {0})
unfolding create
task = created_by_reference

-- `emplace`
unfoldable pub emplace : {Q : Type 0} → Container Job Q → ℤ → ℕ → Q → Q
emplace c prio h q = c.push (record { prio = prio; handle = h }) q

-- `schedule`; the fuel bounds the rounds of its loop.
unfoldable pub schedule :
    {Q : Type 0} → Container Job Q → ℕ → Q → Store (Unit {0}) → Exec (Trace × Store (Unit {0}))
unfolding Loop.schedule
schedule c = Loop.schedule c (λ j. j)

-- `createTask`, whose `name` is a reference.
abbrev pub create_task : Option String → Option (Body (Unit {0}))
create_task = reading_by_reference (λ name.
    await (text name ∷ text " start" ∷ []) tt
      (await (text name ∷ text " execute" ∷ []) tt (finish (text name ∷ text " finish" ∷ []))))

-- A scheduler of `main`, with its priority queue, empty at first, the two names and the addresses of the
-- two frames.
unfoldable pub run_with :
    {Q : Type 0}
    → Container Job Q
    → Q
    → Option String
    → Option String
    → ℕ
    → ℕ
    → Exec (Trace × Store (Unit {0}))
unfolding task emplace schedule
run_with c empty name_a name_b a b =
    schedule c 7 (emplace c (pos 1) b (emplace c (pos 0) a empty))
      (task b (create_task name_b) (task a (create_task name_a) (λ h. none)))

-- A scheduler of `main`: the temporaries "TaskA" and "  TaskB" are destroyed before `schedule`.
unfoldable pub run_main :
    {Q : Type 0} → Container Job Q → Q → ℕ → ℕ → Exec (Trace × Store (Unit {0}))
unfolding run_with
run_main c empty = run_with c empty dead_name dead_name

-- The class of priority_queueSchedulerSimplified.cpp, and its two schedulers of `main` by the priorities
-- of their tasks.
unfoldable pub simplified_emplace : {Q : Type 0} → Container Job Q → ℤ → ℕ → Q → Q
unfolding emplace
simplified_emplace = emplace

unfoldable pub simplified_schedule :
    {Q : Type 0} → Container Job Q → ℕ → Q → Store (Unit {0}) → Exec (Trace × Store (Unit {0}))
unfolding schedule
simplified_schedule = schedule

unfoldable pub simplified_with :
    {Q : Type 0}
    → Container Job Q
    → Q
    → Option String
    → Option String
    → ℤ
    → ℤ
    → ℕ
    → ℕ
    → Exec (Trace × Store (Unit {0}))
unfolding task simplified_emplace simplified_schedule
simplified_with c empty name_a name_b p_a p_b a b =
    simplified_schedule c 7 (simplified_emplace c p_b b (simplified_emplace c p_a a empty))
      (task b (create_task name_b) (task a (create_task name_a) (λ h. none)))

unfoldable pub simplified_main :
    {Q : Type 0} → Container Job Q → Q → ℤ → ℤ → ℕ → ℕ → Exec (Trace × Store (Unit {0}))
unfolding simplified_with
simplified_main c empty = simplified_with c empty dead_name dead_name
