-- ===== src/Scheduler/Cooperative.antt =====
-- coroutines/utils/cooperative_tasks/main.cpp: a coroutine puts itself back into the queue of the
-- scheduler when it waits, in `await_suspend`.
pub mod Refine
mod Tests
use cpp20examples.Prelude.{
  ℕ, zero, suc, if◌then◌else◌, List, [], ◌∷◌, ◌++◌, Option, none, some, String,
}
use cpp20examples.Prelude.Exec.{Exec, ok, out_of_fuel, ◌>>=◌}
use cpp20examples.Coroutine.{
  Item, Body, text, finish, await, suspend_always, Store, create, resume, done, destroy,
}
use cpp20examples.Scheduler.Loop.{Trace}

-- `Task` with its promise type; the operand of `co_await` is always `wake_up()`.
unfoldable pub task : ℕ → Body (Unit {0}) → Store (Unit {0}) → Store (Unit {0})
unfolding create
task = create

-- `enqueue`
abbrev pub enqueue : ℕ → List ℕ → List ℕ
enqueue h q = q ++ h ∷ []

-- `WakeupAwaitable`: where the coroutine has stopped at a `co_await` it is put back.
abbrev pub wake_up : Option (Unit {0}) → ℕ → List ℕ → List ℕ
wake_up none h q = q
wake_up (some tt) h q = enqueue h q

-- The body of the loop of `run` behind `pop_front`.
unfoldable pub turn : ℕ → List ℕ → Store (Unit {0}) → Exec (List Item × List ℕ × Store (Unit {0}))
unfolding resume done destroy
turn h q σ = do
  r ← resume suspend_always h σ
  let q' = wake_up r.stopped_at h q
  finished ← done h r.store
  let destroyed = destroy h r.store >>= λ σ'. ok (r.printed, q', σ')
  if finished then destroyed else ok (r.printed, q', r.store)

-- `run`, over `coroutines_`
unfoldable pub run : ℕ → List ℕ → Store (Unit {0}) → Exec (Trace × Store (Unit {0}))
unfolding turn
run zero q σ = out_of_fuel
run (suc fuel) [] σ = ok ([], σ)
run (suc fuel) (h ∷ q) σ = do
  (out, q', σ') ← turn h q σ
  (t, σ'') ← run fuel q' σ'
  ok ((h, out) ∷ t, σ'')

-- `coro`
abbrev pub coro : Body (Unit {0})
coro =
    await (text "stage one" ∷ []) tt
      (await (text "stage two" ∷ []) tt (finish (text "stage three" ∷ [])))

-- `main`, with the addresses of the three frames; `detach` hands them to the scheduler.
unfoldable pub main : ℕ → ℕ → ℕ → Exec (Trace × Store (Unit {0}))
unfolding task run
main a b c =
    run 10 (enqueue c (enqueue b (enqueue a [])))
      (task c coro (task b coro (task a coro (λ h. none))))
