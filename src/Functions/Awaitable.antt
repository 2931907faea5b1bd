-- ===== src/Functions/Awaitable.antt =====
-- coroutines/utils/awaitable_coroutines/main.cpp: coroutines that start the coroutine that they await
-- and go on when it has ended, by the handles in `continuation_`.
use cpp20examples.Prelude.{ℕ, zero, suc, List, [], ◌∷◌, ◌++◌}
use cpp20examples.Prelude.Exec.{Exec, ok, undefined, out_of_fuel, ◌>>=◌}
use cpp20examples.Prelude.Int.{ℤ, pos}
use cpp20examples.Coroutine.{Item, text, num}

-- What a coroutine does from a suspend point on: `printf`, `co_await` of an `AwaitableTask` or an
-- `AwaitableFunction`, and the end, with a value for an `AwaitableFunction`.
pub data Code : Type 0 where
  printf : List Item → Code → Code
  await_task : Code → Code → Code
  await_function : Code → (ℤ → Code) → Code
  return_void : Code
  return_value : ℤ → Code

-- How a coroutine that waits goes on behind `await_resume`.
pub data Caller : Type 0 where
  for_task : Code → Caller
  for_function : (ℤ → Code) → Caller

abbrev printed_before : List Item → Exec (List Item) → Exec (List Item)
printed_before out r = r >>= λ out'. ok (out ++ out')

-- A coroutine runs; those that wait for it stand behind it, the innermost first, each the
-- `continuation_` of the one before, and the last one has the coroutine that does nothing. At the
-- end of a coroutine, `ContinuationAwaitable` goes on with the next; a value that is not set is
-- undefined.
unfoldable pub resume : ℕ → Code → List Caller → Exec (List Item)
resume zero c waiting = out_of_fuel
resume (suc fuel) (printf out c) waiting = printed_before out (resume fuel c waiting)
resume (suc fuel) (await_task child c) waiting = resume fuel child (for_task c ∷ waiting)
resume (suc fuel) (await_function child k) waiting = resume fuel child (for_function k ∷ waiting)
resume (suc fuel) return_void [] = ok []
resume (suc fuel) return_void (for_task c ∷ waiting) = resume fuel c waiting
resume (suc fuel) return_void (for_function k ∷ waiting) = undefined
resume (suc fuel) (return_value v) [] = ok []
resume (suc fuel) (return_value v) (for_task c ∷ waiting) = resume fuel c waiting
resume (suc fuel) (return_value v) (for_function k ∷ waiting) = resume fuel (k v) waiting

-- `run_until_completion` of a new coroutine: its loop resumes once, since nothing suspends but to
-- hand over.
unfoldable pub run_until_completion : ℕ → Code → Exec (List Item)
unfolding resume
run_until_completion fuel c = resume fuel c []

-- The four coroutines of the program.
abbrev pub child : Code
child = return_void

abbrev pub parent : Code
parent = await_task child return_void

abbrev pub child_func : Code
child_func = return_value (pos 42)

abbrev pub other_parent : Code
other_parent =
    await_function child_func λ v. printf (text "Child returned: " ∷ num v ∷ []) return_void

-- `main`
unfoldable pub main : ℕ → Exec (List Item)
unfolding run_until_completion
main fuel = run_until_completion fuel parent >>= λ out.
    run_until_completion fuel other_parent >>= λ out'. ok (out ++ out')
