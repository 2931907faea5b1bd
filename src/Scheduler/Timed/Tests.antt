-- ===== src/Scheduler/Timed/Tests.antt =====
-- `main` with a clock that advances by one, and the theorem for its coroutines.
use cpp20examples.Prelude.{ℕ, ◌≡◌, refl, arith, [], ◌∷◌}
use cpp20examples.Prelude.Exec.{ok, ◌>>=◌}
use cpp20examples.Scheduler.Timed.{Clock, State, coro, detach_all, run, main}
use cpp20examples.Scheduler.Timed.Round.{Awaits}
use cpp20examples.Scheduler.Timed.Ends.{AllEnded, timed_run_lem}

abbrev ticking : Clock
ticking = record { reading = 1000; passing = λ k. 1 }

main_run :
    main 7 ticking >>= (λ s. ok s.printed) ≡ ok (1005 ∷ 1008 ∷ 1206 ∷ 1208 ∷ 1406 ∷ 1408 ∷ [])
unfolding main
main_run = refl

coro-Awaits : (i : ℕ) → Awaits 2 coro
unfolding coro
coro-Awaits i = λ t. tt

timed_run_lem_example : (s : State) × (run 7 (detach_all (λ i. coro) 2 ticking) ≡ ok s) × AllEnded s
timed_run_lem_example = timed_run_lem (λ i. 2) (λ i. coro) ticking 2 7 coro-Awaits (omega arith)
