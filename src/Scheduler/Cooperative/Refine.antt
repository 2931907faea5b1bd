-- ===== src/Scheduler/Cooperative/Refine.antt =====
-- The coroutines that put themselves back run as those that the scheduler puts back.
use cpp20examples.Prelude.{
  ℕ, zero, suc, ◌≡◌, refl, arith, fun_ext, List, [], ◌∷◌, Option, none, some,
}
use cpp20examples.Coroutine.{
  finish, await, Frame, suspended, final_suspended, Store, resume, done, destroy,
}
use cpp20examples.Scheduler.Loop.{Trace}
use cpp20examples.Scheduler.Loop
use cpp20examples.Scheduler.Queue.{tasks, schedule}
use cpp20examples.Scheduler.Cooperative.{turn, run}

turn_at :
    (h : ℕ) (q : List ℕ) (σ : Store (Unit {0})) (f : Option (Frame (Unit {0})))
    → σ h ≡ f
    → turn h q σ ≡ Loop.turn tasks (λ i. i) h q σ
unfolding turn Loop.turn resume done destroy
turn_at h q σ none e = rw e refl
turn_at h q σ (some final_suspended) e = rw e refl
turn_at h q σ (some (suspended (finish out))) e = rw e (ground arith)
turn_at h q σ (some (suspended (await out tt b))) e = rw e (ground arith)

-- For all frames and every queue, `run` does what `schedule` of concurrency/queueScheduler.cpp does:
-- it prints the same, frees the same frames, and is undefined, or out of fuel, in the same cases.
pub run-schedule : (fuel : ℕ) (q : List ℕ) (σ : Store (Unit {0})) → run fuel q σ ≡ schedule fuel q σ
unfolding run schedule Loop.schedule
run-schedule zero q σ = refl
run-schedule (suc fuel) [] σ = refl
run-schedule (suc fuel) (h ∷ q) σ =
    rw (turn_at h q σ (σ h) refl, fun_ext λ q'. fun_ext λ σ'. run-schedule fuel q' σ') refl
