-- ===== src/Nested/Recursion.antt =====
-- coroutines/recursion/main.cpp: `nextStep` resumes the deepest coroutine that is not done. The frames
-- that are not done form a chain by `nextHandle`, here a list with the deepest first; a coroutine that
-- ends leaves the chain, since `nextStep` does not go on to one that is done. Numbers are mathematical
-- integers, since the program only subtracts from 10 and 7.
pub mod Calls
mod Tests
use cpp20examples.Prelude.{ℕ, zero, suc, Bool, true, false, if◌then◌else◌, List, [], ◌∷◌, ◌++◌}
use cpp20examples.Prelude.Exec.{Exec, ok, out_of_fuel, ◌>>=◌}
use cpp20examples.Prelude.Int.{ℤ, pos, ◌-ℤ◌, ltb_ℤ}
use cpp20examples.Coroutine.{Item, text, num, Body, finish, await}

-- A call of one of the three coroutines.
pub data Call : Type 0 where
  fun1 fun2 fun3 : ℤ → Call

-- `fun1`
unfoldable pub body1 : ℤ → Body Call
unfolding ◌-ℤ◌
body1 n =
    let last = finish (text "State 1: END" ∷ []) in
    if ltb_ℤ (pos 3) n
    then await (text " State 1 " ∷ num n ∷ []) (fun2 (n -ℤ pos 3)) last
    else await (text " State 1 " ∷ num n ∷ []) (fun3 (pos 7)) last

-- `fun2`
unfoldable pub body2 : ℤ → Body Call
unfolding ◌-ℤ◌
body2 n =
    await (text "State 2 " ∷ num n ∷ []) (fun1 (n -ℤ pos 2))
      (await (text "State 2 again ..." ∷ []) (fun3 n) (finish (text "State 2: END" ∷ [])))

-- `fun3`
unfoldable pub body3 : ℤ → Body Call
unfolding ◌-ℤ◌
body3 n =
    if ltb_ℤ (pos 0) n
    then await (text "State 3 " ∷ num n ∷ []) (fun3 (n -ℤ pos 2)) (finish (text "State 3 END" ∷ []))
    else finish (text "State 3 " ∷ num n ∷ text "State 3 END" ∷ [])

-- The coroutine of a call, at its initial suspend point.
abbrev pub body_of : Call → Body Call
body_of (fun1 n) = body1 n
body_of (fun2 n) = body2 n
body_of (fun3 n) = body3 n

abbrev not_done : List (Body Call) → Bool
not_done [] = false
not_done (b ∷ chain) = true

-- `nextStep()`: what is printed, the chain after it, and the result. A `co_await` stores the callee,
-- which has run nothing yet, as the new end of the chain.
unfoldable pub next_step : List (Body Call) → List Item × List (Body Call) × Bool
unfolding body1 body2 body3
next_step [] = ([], [], false)
next_step (finish out ∷ chain) = (out, chain, not_done chain)
next_step (await out c k ∷ chain) = (out, body_of c ∷ k ∷ chain, true)

-- The loop of `main`
unfoldable pub run_machine : ℕ → List (Body Call) → Exec (List Item)
unfolding next_step
run_machine zero chain = out_of_fuel
run_machine (suc fuel) chain =
    let (out, chain', more) = next_step chain in
    let rest = run_machine fuel chain' >>= λ l. ok (out ++ text "Next step in the SM" ∷ l) in
    if more then rest else ok out

-- `main`
unfoldable pub main : Exec (List Item)
unfolding run_machine
main = run_machine 60 (body_of (fun1 (pos 10)) ∷ [])
