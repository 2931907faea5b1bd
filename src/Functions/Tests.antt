-- ===== src/Functions/Tests.antt =====
-- Runs of the programs.
use cpp20examples.Prelude.{◌≡◌, refl, List, [], ◌∷◌}
use cpp20examples.Prelude.Exec.{ok, undefined}
use cpp20examples.Prelude.Int.{pos}
use cpp20examples.Coroutine.{Item, text, num}
use cpp20examples.Functions.{
  Body, puts, throw, co_return, routine, function, convert, thrown, returned, suspended, gets,
}
use cpp20examples.Functions.Awaitable.{main}

abbrev running : List Item
running = text "Running..." ∷ []

routine_run : routine (puts running Body.co_return_void) ≡ running
routine_run = refl

function_throws : convert (function (puts running throw)).1 ≡ ok thrown
function_throws = refl

function_returns : convert (function (puts running (co_return (pos 42)))).1 ≡ ok (returned (pos 42))
function_returns = refl

-- The body runs once, at the first `get`.
lazy_run :
    gets 2 (suspended (puts running (co_return (pos 42)))) ≡ ok (running, pos 42 ∷ pos 42 ∷ [])
unfolding gets
lazy_run = refl

-- An exception is dropped, and `get` reads a result that has not been set.
lazy_throws : gets 1 (suspended (puts running throw)) ≡ undefined
unfolding gets
lazy_throws = refl

awaitable_run : main 5 ≡ ok (text "Child returned: " ∷ num (pos 42) ∷ [])
unfolding main
awaitable_run = refl
