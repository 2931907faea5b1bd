-- ===== src/Nested/StateMachine/Tests.antt =====
-- The output of `main`, and an instance of each theorem.
use cpp20examples.Prelude.{arith, ℕ, ◌≤◌, ◌≡◌, refl, zero, suc, false, List, [], ◌∷◌}
use cpp20examples.Prelude.Exec.{ok}
use cpp20examples.Prelude.Int.{pos, negsuc}
use cpp20examples.Coroutine.{await, finish, Body, Item, text, num}
use cpp20examples.Nested.StateMachine.{state1, body_of, start, main, suspended, done}
use cpp20examples.Nested.StateMachine.Calls.{at_end, calls_start, at_call, Prints, start_lem}

main_output :
    main
    ≡ ok (
      text "State 1 "
          ∷ num (pos 10)
          ∷ text "State 2 "
          ∷ num (pos 7)
          ∷ text "State 1 "
          ∷ num (pos 5)
          ∷ text "State 2 "
          ∷ num (pos 2)
          ∷ text "State 1 "
          ∷ num (pos 0)
          ∷ text "State 3 "
          ∷ num (pos 7)
          ∷ text "State 3 "
          ∷ num (pos 5)
          ∷ text "State 3 "
          ∷ num (pos 3)
          ∷ text "State 3 "
          ∷ num (pos 1)
          ∷ text "State 3 "
          ∷ num (negsuc 0)
          ∷ [],
      false,
      done,
    )
unfolding main
main_output = refl

-- A coroutine that prints around each `co_await` of the one with the next smaller number.
abbrev counting : ℕ → Body ℕ
counting zero = finish (text "0" ∷ [])
counting (suc n) = await (text "in" ∷ []) n (finish (text "out" ∷ []))

abbrev around : List Item
around = text "in" ∷ text "in" ∷ text "0" ∷ text "out" ∷ text "out" ∷ []

start_lem_example : start counting 5 (suspended (counting 2)) ≡ ok (around, false, done)
start_lem_example =
    start_lem counting (counting 2) around 5 5 (at_call (at_call at_end at_end) at_end)
      (omega arith)

calls_start_test :
    (l : List Item) × (n : ℕ) × Prints body_of (body_of (state1 (pos 10))) l n
    × ((fuel : ℕ)
        → n ≤ fuel
        → start body_of fuel (suspended (body_of (state1 (pos 10)))) ≡ ok (l, false, done))
calls_start_test = calls_start (state1 (pos 10))
