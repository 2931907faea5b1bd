-- ===== src/Logged/Tests.antt =====
-- Runs of the programs, and the theorems at the arguments that they use.
use cpp20examples.Prelude.{◌≡◌, refl, true, false, arith, List, [], ◌∷◌, ◌++◌}
use cpp20examples.Prelude.Exec.{Exec, ok, undefined, ◌>>=◌}
use cpp20examples.Prelude.Int.{ℤ, pos, negsuc}
use cpp20examples.Logged.{ℕ, Log, numbers}
use cpp20examples.Logged.Task.{Frame, stack, resource}
use cpp20examples.Logged.Allocated.{f, fibonacci_main}
use cpp20examples.Logged.Programs.{
  yields, value_main, simple_main, suspended_main, unsuspended_main, await_main, await_instant_main,
  never_main, custom_main, exception_main,
}
use cpp20examples.Logged.Yields.{same_values}

-- The indent at the end and the numbers that are printed.
abbrev shown : Exec Log → Exec (ℕ × List ℤ)
shown e = e >>= λ l. ok (l.indent, numbers l)

abbrev log_of : Frame × Log → Exec Log
log_of (frame, l) = ok l

abbrev three : List ℤ
three = pos 1 ∷ pos 2 ∷ pos 3 ∷ []

simple_run : shown (simple_main (yields (pos 1 ∷ []) (pos 42))) ≡ ok (0, pos 1 ∷ pos 42 ∷ [])
unfolding simple_main
simple_run = refl

await_run : shown (await_main (pos 7)) ≡ ok (0, pos 7 ∷ pos 42 ∷ [])
unfolding await_main
await_run = refl

-- `await_resume` has no handle, and the value that `main` sets comes too late.
instant_run : shown (await_instant_main (pos 7)) ≡ ok (0, negsuc 0 ∷ pos 42 ∷ [])
unfolding await_instant_main
instant_run = refl

custom_run : shown (custom_main (pos 72)) ≡ ok (0, pos 72 ∷ [])
unfolding custom_main
custom_run = refl

value_run : value_main >>= (λ l. ok l.indent) ≡ ok 0
unfolding value_main
value_run = refl

never_run : shown never_main ≡ ok (0, [])
unfolding never_main
never_run = refl

-- The frame is not freed.
exception_run : shown (exception_main >>= log_of) ≡ ok (0, pos 0 ∷ [])
unfolding exception_main
exception_run = refl

-- A frame that does not fit into the buffer of 200 bytes.
small_buffer : fibonacci_main (stack (pos 5) (pos 1)) 201 7 (f 5 1) ≡ undefined
unfolding fibonacci_main f
small_buffer = refl

unset_resource : fibonacci_main (resource false) 100 7 (f 5 1) ≡ undefined
unfolding fibonacci_main f
unset_resource = refl

-- The 47th Fibonacci number is too large.
beyond_int : fibonacci_main (resource true) 100 60 (f 46 1) ≡ undefined
unfolding fibonacci_main f
beyond_int = refl

same_values_example :
    ((l : Log) × (suspended_main 3 (yields three (pos 42)) ≡ ok l)
      × (l.indent ≡ 0)
      × (numbers l ≡ three ++ pos 42 ∷ []))
    × ((l : Log) × (unsuspended_main 3 (yields three (pos 42)) ≡ ok l)
        × (l.indent ≡ 0)
        × (numbers l ≡ pos 3 ∷ three ++ pos 42 ∷ []))
same_values_example = same_values (pos 1) (pos 42) (pos 2 ∷ pos 3 ∷ []) 3 (omega arith)
