-- ===== src/Scheduler/TaskScheduler.antt =====
-- coroutines/task_scheduler/main.cpp: coroutines that start at once and free their frames when they
-- end, and a `schedule` that makes one turn.
pub mod Refine
mod Tests
use cpp20examples.Prelude.{
  ℕ, zero, suc, Bool, true, false, not, if◌then◌else◌, List, [], ◌∷◌, ◌++◌, Option, none, some,
}
use cpp20examples.Prelude.Exec.{Exec, ok, undefined, out_of_fuel, ◌>>=◌}
use cpp20examples.Coroutine.{
  Item, Body, text, finish, await, suspend_never, Store, Resumed, run_body, resume, done,
}
use cpp20examples.Scheduler.Loop.{Trace}

-- `suspend()`: where a coroutine has stopped at its awaiter, `await_suspend` puts it back.
abbrev pub suspend : Option (Unit {0}) → ℕ → List ℕ → List ℕ
suspend none h q = q
suspend (some tt) h q = q ++ h ∷ []

-- What a turn comes to: the line printed, `_tasks` and the frames, and the result of `schedule`.
pub record Turn : Type 0 where
  pub line : ℕ × List Item
  pub tasks : List ℕ
  pub store : Store (Unit {0})
  pub more : Bool

-- `_tasks.empty()`
abbrev pub is_empty : List ℕ → Bool
is_empty [] = true
is_empty (h ∷ q) = false

abbrev unchanged : Store (Unit {0}) → Resumed (Unit {0})
unchanged σ = record { printed = []; stopped_at = none; store = σ }

-- `schedule()`; the front of an empty list is undefined.
unfoldable pub schedule : List ℕ → Store (Unit {0}) → Exec Turn
unfolding resume done
schedule [] σ = undefined
schedule (h ∷ q) σ = do
  finished ← done h σ
  let resumed = resume suspend_never h σ
  r ← if not finished then resumed else ok (unchanged σ)
  let q' = suspend r.stopped_at h q
  ok (record { line = (h, r.printed); tasks = q'; store = r.store; more = not (is_empty q') })

-- The loop of `main`, `while (scheduler.schedule()) {}`
unfoldable pub schedule_all : ℕ → List ℕ → Store (Unit {0}) → Exec (Trace × Store (Unit {0}))
unfolding schedule
schedule_all zero q σ = out_of_fuel
schedule_all (suc fuel) q σ = do
  turn ← schedule q σ
  let rest = schedule_all fuel turn.tasks turn.store >>= λ (t, σ'). ok (turn.line ∷ t, σ')
  if turn.more then rest else ok (turn.line ∷ [], turn.store)

-- The call of a coroutine, which runs up to its first `co_await`, as a turn.
abbrev pub call : ℕ → Body (Unit {0}) → List ℕ → Store (Unit {0}) → Turn
call h b q σ =
    let r = run_body suspend_never h b σ in
    let q' = suspend r.stopped_at h q in
    record { line = (h, r.printed); tasks = q'; store = r.store; more = not (is_empty q') }

-- `taskA`
abbrev pub task_a : Body (Unit {0})
task_a =
    await (text "Hello, from task A" ∷ []) tt
      (await (text "a is back doing work" ∷ []) tt (finish (text "a is back doing more work" ∷ [])))

-- `taskB`
abbrev pub task_b : Body (Unit {0})
task_b =
    await (text "Hello, from task B" ∷ []) tt
      (await (text "b is back doing work" ∷ []) tt (finish (text "b is back doing more work" ∷ [])))

-- `main`, with the addresses of the two frames
unfoldable pub main : ℕ → ℕ → Exec (Trace × Store (Unit {0}))
unfolding schedule_all
main a b =
    let c = call a task_a [] (λ h. none) in
    let d = call b task_b c.tasks c.store in
    schedule_all 4 d.tasks d.store >>= λ (t, σ). ok (c.line ∷ d.line ∷ t, σ)
