-- ===== src/Scheduler/Queue/Tests.antt =====
-- The output of `main`, and an instance of each theorem.
use cpp20examples.Prelude.{
  ◌==◌, count, if◌then◌else◌, ℕ, some, none, map, arith, List, ◌≡◌, refl, [], ◌∷◌,
}
use cpp20examples.Coroutine.{text, Store, script, write, suspended}
use cpp20examples.Prelude.Exec.{Exec, ok}
use cpp20examples.Scheduler.Queue.{main, task_a, task_b, schedule}
use cpp20examples.Scheduler.Queue.Order.{queue_schedule_lem}
use cpp20examples.Scheduler.Loop.Complete.{IsRunnable}
use cpp20examples.Scheduler.Queue.Rounds.{round_robin}
use cpp20examples.Scheduler.Loop.{Trace}

abbrev trace_of : {S : Type 0} → Exec (Trace × S) → Trace
trace_of (ok (t, s)) = t
trace_of _ = []

main_output :
    trace_of (main 100 200)
    ≡ (100, text "Hello from TaskA" ∷ [])
      ∷ (200, text "Hello from TaskB" ∷ [])
      ∷ (100, text "Executing the TaskA" ∷ [])
      ∷ (200, text "Executing the TaskB" ∷ [])
      ∷ (100, text "TaskA is finished" ∷ [])
      ∷ (200, text "TaskB is finished" ∷ [])
      ∷ []
unfolding main
main_output = refl

abbrev tasks_ab : List ℕ
tasks_ab = 100 ∷ 200 ∷ []

abbrev started : Store (Unit {0})
started = write (write (λ h. none) 100 (some (suspended task_a))) 200 (some (suspended task_b))

started-IsRunnable : IsRunnable tasks_ab started
started-IsRunnable = record { once = λ h. ground arith; live = λ h. ground arith }

queue_schedule_lem_example :
    (τ : Store (Unit {0})) × (schedule 7 tasks_ab started
      ≡ ok (round_robin 7 (map (λ h. (h, script started h)) tasks_ab), τ))
    × ((h : ℕ) → τ h ≡ (if count h tasks_ab == 0 then started h else none))
queue_schedule_lem_example = queue_schedule_lem tasks_ab started 7 started-IsRunnable (omega arith)
