-- ===== src/Nested/Async/Tests.antt =====
-- The functions of the program with all their arguments, and the output of `main`.
use cpp20examples.Prelude.{◌≡◌, refl, arith, List, [], ◌∷◌}
use cpp20examples.Prelude.Exec.{ok, ◌>>=◌}
use cpp20examples.Prelude.Int.{ℤ, pos, ◌+ℤ◌, ◌*ℤ◌}
use cpp20examples.Coroutine.{Item, text, num}
use cpp20examples.Nested.Async.{outer_function, spawn_task, feed, main}
use cpp20examples.Nested.Async.Meaning.{Evals, prints, reads, looks, calls, returns}
use cpp20examples.Nested.Async.Calls.{async_lem}

-- What `outer_function(i)` prints when the datum is `j`.
abbrev lines : ℤ → ℤ → List Item
lines i j =
    text "In outer"
    ∷ text "In middle"
    ∷ text "In inner"
    ∷ text "GetData returned "
    ∷ num j
    ∷ text "inner returned "
    ∷ num (i +ℤ j)
    ∷ text "middle returned "
    ∷ num ((i +ℤ j) *ℤ pos 3)
    ∷ []

outer_function-Evals :
    (i j : ℤ) → Evals (outer_function i) (j ∷ []) (lines i j) ((i +ℤ j) *ℤ pos 3 +ℤ pos 3) 15
unfolding outer_function
outer_function-Evals i j = prints (
    calls
      (prints (calls (prints (reads (looks (prints returns)))) (prints (calls returns returns))))
      (prints returns))

async_lem_example :
    (spawn_task 30 (outer_function (pos 11)) >>= λ o. feed 30 o (pos 2 ∷ []))
    ≡ ok (lines (pos 11) (pos 2), (pos 11 +ℤ pos 2) *ℤ pos 3 +ℤ pos 3)
async_lem_example = async_lem 30 (outer_function-Evals (pos 11) (pos 2)) (omega arith)

main_output : main ≡ ok (lines (pos 11) (pos 2), pos 42)
unfolding main ◌+ℤ◌ ◌*ℤ◌
main_output = refl
