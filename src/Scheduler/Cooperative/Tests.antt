-- ===== src/Scheduler/Cooperative/Tests.antt =====
-- The output of `main`, and an instance of the theorem.
use cpp20examples.Prelude.{◌≡◌, refl, [], ◌∷◌, none, some}
use cpp20examples.Prelude.Exec.{Exec, ok}
use cpp20examples.Coroutine.{text, Store, write, suspended}
use cpp20examples.Scheduler.Loop.{Trace}
use cpp20examples.Scheduler.Queue.{schedule}
use cpp20examples.Scheduler.Cooperative.{coro, main, run}
use cpp20examples.Scheduler.Cooperative.Refine.{run-schedule}

abbrev trace_of : {S : Type 0} → Exec (Trace × S) → Trace
trace_of (ok (t, s)) = t
trace_of _ = []

main_output :
    trace_of (main 1 2 3)
    ≡ (1, text "stage one" ∷ [])
      ∷ (2, text "stage one" ∷ [])
      ∷ (3, text "stage one" ∷ [])
      ∷ (1, text "stage two" ∷ [])
      ∷ (2, text "stage two" ∷ [])
      ∷ (3, text "stage two" ∷ [])
      ∷ (1, text "stage three" ∷ [])
      ∷ (2, text "stage three" ∷ [])
      ∷ (3, text "stage three" ∷ [])
      ∷ []
unfolding main
main_output = refl

abbrev started : Store (Unit {0})
started = write (write (λ h. none) 1 (some (suspended coro))) 2 (some (suspended coro))

run-schedule_example : run 7 (1 ∷ 2 ∷ []) started ≡ schedule 7 (1 ∷ 2 ∷ []) started
run-schedule_example = run-schedule 7 (1 ∷ 2 ∷ []) started
