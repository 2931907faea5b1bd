-- ===== src/Nested/Recursion/Tests.antt =====
-- An instance of the theorem, and the run of a short call.
use cpp20examples.Prelude.{ℕ, ◌≤◌, ◌≡◌, refl, List, [], ◌∷◌}
use cpp20examples.Prelude.Exec.{ok}
use cpp20examples.Prelude.Int.{pos, negsuc}
use cpp20examples.Coroutine.{Item, text, num}
use cpp20examples.Nested.Recursion.{fun1, fun3, body3, body_of, run_machine}
use cpp20examples.Nested.Recursion.Calls.{Prints, step_line, run_machine_lem}

short_run :
    run_machine 4 (body_of (fun3 (pos 1)) ∷ [])
    ≡ ok (
        text "State 3 "
        ∷ num (pos 1)
        ∷ step_line
        ∷ text "State 3 "
        ∷ num (negsuc 0)
        ∷ text "State 3 END"
        ∷ step_line
        ∷ text "State 3 END"
        ∷ [])
unfolding run_machine body3
short_run = refl

run_machine_lem_example :
    (l : List Item) × (n : ℕ) × Prints (body_of (fun1 (pos 10))) l n
    × ((fuel : ℕ) → n ≤ fuel → run_machine fuel (body_of (fun1 (pos 10)) ∷ []) ≡ ok l)
run_machine_lem_example = run_machine_lem (fun1 (pos 10))
