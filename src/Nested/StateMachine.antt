-- ===== src/Nested/StateMachine.antt =====
-- coroutines/crsm/main.cpp: `co_await` of a coroutine transfers control to it, and its end transfers
-- control back to the coroutine that `nextHandle` names. The frames that wait are a list: each was
-- resumed from the next, which its `nextHandle` names. Numbers are mathematical integers, since the
-- program only subtracts from 10 and 7.
pub mod Calls
mod Tests
use cpp20examples.Prelude.{not, ℕ, zero, suc, Bool, true, false, if◌then◌else◌, List, [], ◌∷◌, ◌++◌}
use cpp20examples.Prelude.Exec.{Exec, ok, out_of_fuel, ◌>>=◌}
use cpp20examples.Prelude.Int.{ℤ, pos, ◌-ℤ◌, ltb_ℤ}
use cpp20examples.Coroutine.{Item, text, num, Body, finish, await}

-- A call of one of the three coroutines.
pub data Call : Type 0 where
  state1 state2 state3 : ℤ → Call

-- `state1`
unfoldable pub body1 : ℤ → Body Call
unfolding ◌-ℤ◌
body1 n =
    if ltb_ℤ (pos 3) n
    then await (text "State 1 " ∷ num n ∷ []) (state2 (n -ℤ pos 3)) (finish [])
    else await (text "State 1 " ∷ num n ∷ []) (state3 (pos 7)) (finish [])

-- `state2`
unfoldable pub body2 : ℤ → Body Call
unfolding ◌-ℤ◌
body2 n = await (text "State 2 " ∷ num n ∷ []) (state1 (n -ℤ pos 2)) (finish [])

-- `state3`
unfoldable pub body3 : ℤ → Body Call
unfolding ◌-ℤ◌
body3 n =
    if ltb_ℤ (pos 0) n
    then await (text "State 3 " ∷ num n ∷ []) (state3 (n -ℤ pos 2)) (finish [])
    else finish (text "State 3 " ∷ num n ∷ [])

-- The coroutine of a call, at its initial suspend point.
abbrev pub body_of : Call → Body Call
body_of (state1 n) = body1 n
body_of (state2 n) = body2 n
body_of (state3 n) = body3 n

-- A result, with what was printed before it.
abbrev pub after : {W : Type 0} → List Item → List Item × W → Exec (List Item × W)
after out (l, w) = ok (out ++ l, w)

-- `resume()` of a frame with the frames that wait, up to `noop_coroutine`: what is printed, and the
-- frames that still wait after it, that of the first coroutine last. `await_suspend` of `CoState` stores
-- the caller and resumes the callee; that of `FinalAwaiter` resumes the caller. `program` gives the
-- coroutine of a call.
unfoldable pub resume :
    {C : Type 0} → (C → Body C) → ℕ → Body C → List (Body C) → Exec (List Item × List (Body C))
resume program zero b callers = out_of_fuel
resume program (suc fuel) (finish out) [] = ok (out, [])
resume program (suc fuel) (finish out) (k ∷ callers) = resume program fuel k callers >>= after out
resume program (suc fuel) (await out c k) callers =
    resume program fuel (program c) (k ∷ callers) >>= after out

-- `CoState`: its handle is null, or its coroutine is suspended, or that is done.
pub data Machine (C : Type 0) : Type 0 where
  no_handle done : Machine C
  suspended : Body C → Machine C

-- The coroutine of the object after `resume()`, with the frames that still wait.
abbrev pub resumed : {C : Type 0} → List (Body C) → Machine C
resumed [] = done
resumed (k ∷ []) = suspended k
resumed (k ∷ k' ∷ callers) = resumed (k' ∷ callers)

-- `hnd.done()`
abbrev pub is_done : {C : Type 0} → Machine C → Bool
is_done done = true
is_done _ = false

-- `start()`: what is printed, the value returned, and the object after it.
unfoldable pub start :
    {C : Type 0} → (C → Body C) → ℕ → Machine C → Exec (List Item × Bool × Machine C)
unfolding resume
start program fuel no_handle = ok ([], false, no_handle)
start program fuel done = ok ([], false, done)
start program fuel (suspended b) =
    resume program fuel b [] >>= λ r. ok (r.0, not (is_done (resumed r.1)), resumed r.1)

-- `main`
unfoldable pub main : Exec (List Item × Bool × Machine Call)
unfolding start body1 body2 body3
main = start body_of 40 (suspended (body_of (state1 (pos 10))))
