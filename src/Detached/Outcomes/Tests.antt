-- ===== src/Detached/Outcomes/Tests.antt =====
-- Runs of the programs with their delay, and one without a delay.
use cpp20examples.Prelude.{◌<◌, ◌≡◌, ◌⊎◌, refl, arith, true, false, some}
use cpp20examples.Steps.{Reach, start, later}
use cpp20examples.Detached.{
  ℕ, resumed, final, destroyed, no_thread, running, ended, undefined_resume, destroy, finished,
  undefined_destroy, state, init, Step, ExternalStep, TransformStep, call_ready, call_suspend,
  timer_wakes, resume, resume_destroyed, return_value, main_wakes, get_returned_value,
  destroy_resumed, destroy_suspended, destroy_final, suspended, before_resume,
}
use cpp20examples.Detached.Outcomes.{Defined, Doomed, detached_outcome}

abbrev none_at_all : ℕ
none_at_all = 0

abbrev one_second : ℕ
one_second = 1000

-- Without a delay the coroutine ends before `f()` returns.
no_delay : Reach (Step false 0) init (state final no_thread destroy 42 (some 42) false)
no_delay = later (later (later start (call_ready refl)) main_wakes) get_returned_value

abbrev woken :
    Reach (ExternalStep 1000) init (state suspended before_resume destroy 0 (some 0) false)
woken =
    later (later (later (later start (call_suspend (omega arith))) timer_wakes) main_wakes)
      get_returned_value

-- The thread resumes a destroyed frame; `main` destroys a frame that runs.
resumed_late :
    Reach (ExternalStep 1000) init (state destroyed undefined_resume finished 0 (some 0) false)
resumed_late = later (later woken destroy_suspended) resume_destroyed

destroyed_early :
    Reach (ExternalStep 1000) init (state resumed running undefined_destroy 0 (some 0) false)
destroyed_early = later (later woken resume) destroy_resumed

-- The run that is meant, up to the output: it races where the value is not atomic.
abbrev external_printed :
    Reach (ExternalStep 1000) init (state final ended destroy 42 (some 42) true)
external_printed =
    later
      (later
        (later (later (later (later start (call_suspend (omega arith))) timer_wakes) resume)
          return_value)
        main_wakes)
      get_returned_value

abbrev transform_printed :
    Reach (TransformStep 1000) init (state final ended destroy 42 (some 42) false)
transform_printed =
    later
      (later
        (later (later (later (later start (call_suspend (omega arith))) timer_wakes) resume)
          return_value)
        main_wakes)
      get_returned_value

-- The destructor of `task` races with the final suspend point in both programs.
transform_finished :
    Reach (TransformStep 1000) init (state destroyed ended finished 42 (some 42) true)
transform_finished = later transform_printed destroy_final

no_delay_test :
    ((none_at_all ≡ 0) × Defined (state final no_thread destroy 42 (some 42) false))
    ⊎ ((0 < none_at_all) × Doomed false 0 (state final no_thread destroy 42 (some 42) false))
no_delay_test = detached_outcome false 0 no_delay
