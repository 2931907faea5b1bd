-- ===== src/Scheduler/TaskScheduler/Tests.antt =====
-- The output of `main`, and an instance of the theorem.
use cpp20examples.Prelude.{
  ◌≢◌, ◌≡◌, ◌==◌, ℕ, refl, arith, if◌then◌else◌, map, count, List, [], ◌∷◌, none, some,
}
use cpp20examples.Prelude.Exec.{Exec, ok}
use cpp20examples.Coroutine.{text, Store, write, script, suspended}
use cpp20examples.Scheduler.Loop.{Trace}
use cpp20examples.Scheduler.Loop.Complete.{IsRunnable}
use cpp20examples.Scheduler.Queue.Rounds.{round_robin}
use cpp20examples.Scheduler.TaskScheduler.{task_a, task_b, main, schedule_all}
use cpp20examples.Scheduler.TaskScheduler.Refine.{task_scheduler_lem}

abbrev trace_of : {S : Type 0} → Exec (Trace × S) → Trace
trace_of (ok (t, s)) = t
trace_of _ = []

main_output :
    trace_of (main 1 2)
    ≡ (1, text "Hello, from task A" ∷ [])
      ∷ (2, text "Hello, from task B" ∷ [])
      ∷ (1, text "a is back doing work" ∷ [])
      ∷ (2, text "b is back doing work" ∷ [])
      ∷ (1, text "a is back doing more work" ∷ [])
      ∷ (2, text "b is back doing more work" ∷ [])
      ∷ []
unfolding main
main_output = refl

abbrev tasks_ab : List ℕ
tasks_ab = 100 ∷ 200 ∷ []

tasks_remain : tasks_ab ≢ []
tasks_remain = cc

abbrev started : Store (Unit {0})
started = write (write (λ h. none) 100 (some (suspended task_a))) 200 (some (suspended task_b))

started-IsRunnable : IsRunnable tasks_ab started
started-IsRunnable = record { once = λ h. ground arith; live = λ h. ground arith }

task_scheduler_lem_example :
    (τ : Store (Unit {0})) × (schedule_all 6 tasks_ab started
      ≡ ok (round_robin 7 (map (λ h. (h, script started h)) tasks_ab), τ))
    × ((h : ℕ) → τ h ≡ (if count h tasks_ab == 0 then started h else none))
task_scheduler_lem_example =
    task_scheduler_lem tasks_ab started 6 tasks_remain started-IsRunnable (omega arith)
