-- ===== src/Nested/Async.antt =====
-- coroutines/nested/main.cpp: coroutines that wait for coroutines, and one that waits for data of a
-- scheduler. The promises of the coroutines that wait for each other, linked by `parent` and `child`,
-- are a list with the innermost first, up to the task that `spawn_task` has been given; its own
-- coroutine waits for that one, has no scheduler, and returns the value as it is. Numbers are mathematical integers: the program stays far from
-- the limits of `int`.
pub mod Meaning
pub mod Calls
mod Tests
use cpp20examples.Prelude.{
  ℕ, zero, suc, Bool, true, false, if◌then◌else◌, List, [], ◌∷◌, ◌++◌, Option, none, some,
}
use cpp20examples.Prelude.Exec.{Exec, ok, undefined, out_of_fuel, ◌>>=◌}
use cpp20examples.Prelude.Int.{ℤ, pos, negsuc, ◌+ℤ◌, ◌*ℤ◌}
use cpp20examples.Coroutine.{Item, text, num}

-- What an `Async` coroutine does from a suspend point on: print, `co_await GetData{}`,
-- `co_await GetCallStack{}`, `co_await` of another `Async` coroutine, `co_return`.
pub data Code : Type 0 where
  println : List Item → Code → Code
  get_data : (ℤ → Code) → Code
  get_call_stack : Code → Code
  co_await : Code → (ℤ → Code) → Code
  co_return : ℤ → Code

-- The other fields of a promise, as far as assertions look at them: whether `parent` and `child` are set,
-- and whether `opt_return_value` has a value.
pub record Links : Type 0 where
  pub parent : Bool
  pub child : Bool
  pub has_value : Bool

-- A new promise.
abbrev pub new_links : Links
new_links = record { parent = false; child = false; has_value = false }

-- `Async::await_suspend`, with the promises of the task and of the coroutine that awaits it: none where an
-- assertion fails.
abbrev pub linked : Links → Links → Option (Links × Links)
linked self other =
    if self.parent
    then none
    else if other.child
    then none
    else some (record self { parent = true }, record other { child = true })

-- `Async::await_resume`, for the promise of the coroutine that has awaited the task.
abbrev pub unlinked : Links → Links
unlinked other = record other { child = false }

-- A coroutine that waits: whether `scheduler` of its promise is set, its links, and how it goes on with
-- the value that its `await_resume` returns.
pub record Promise : Type 0 where
  pub scheduler : Bool
  pub links : Links
  pub goes_on : ℤ → Code

-- `GetData::await_suspend`: whether the promise or one on the way to the root has a scheduler, and the
-- chain after it has been given to those below.
abbrev pub has_scheduler : List Promise → Bool
has_scheduler [] = false
has_scheduler (p ∷ parents) = if p.scheduler then true else has_scheduler parents

abbrev pub propagate : List Promise → List Promise
propagate [] = []
propagate (p ∷ parents) =
    if p.scheduler then p ∷ parents else record p { scheduler = true } ∷ propagate parents

-- How a resumed coroutine comes back: all have ended and `AsyncResult` has its value, or the
-- innermost waits in `Scheduler::to_resume`; with what is printed.
pub data Outcome : Type 0 where
  finished : List Item → ℤ → Outcome
  waiting : List Item → List Promise → Outcome

abbrev pub printed_before : List Item → Outcome → Outcome
printed_before out (finished out' v) = finished (out ++ out') v
printed_before out (waiting out' chain) = waiting (out ++ out') chain

-- The innermost coroutine runs, with `to_resume` of the scheduler, `scheduler` and the links of its
-- promise, over those that wait for it. A failed `assert` is an outcome like undefined behaviour. `GetData`
-- asserts that there is a scheduler and that nothing is registered with it; a `co_await` links a new
-- promise, without scheduler; `co_return` asserts that there is no value yet, and its parent goes on,
-- unlinked, with the value.
unfoldable pub resume : ℕ → Code → Bool → Bool → Links → List Promise → Exec Outcome
resume zero c to_resume s l parents = out_of_fuel
resume (suc fuel) (println out c) to_resume s l parents =
    resume fuel c to_resume s l parents >>= λ o. ok (printed_before out o)
resume (suc fuel) (get_data k) to_resume s l parents =
    let chain = record { scheduler = s; links = l; goes_on = k } ∷ parents in
    let registered = if to_resume then undefined else ok (waiting [] (propagate chain)) in
    if has_scheduler chain then registered else undefined
resume (suc fuel) (get_call_stack c) to_resume s l parents = resume fuel c to_resume s l parents
resume (suc fuel) (co_await child k) to_resume s l parents = elim (linked new_links l) [
  | none ↦ undefined
  | some (l', l'') ↦
      resume fuel child to_resume false l'
        (record { scheduler = s; links = l''; goes_on = k } ∷ parents)
]
resume (suc fuel) (co_return v) to_resume s l [] =
    if l.has_value then undefined else ok (finished [] v)
resume (suc fuel) (co_return v) to_resume s l (p ∷ parents) =
    let goes_on = resume fuel (p.goes_on v) to_resume p.scheduler (unlinked p.links) parents in
    if l.has_value then undefined else goes_on

-- `spawn_task`: `setScheduler` sets the scheduler of the task, whose `to_resume` is null; the coroutine
-- of `spawn_task` awaits the task, which then runs.
unfoldable pub spawn_task : ℕ → Code → Exec Outcome
unfolding resume
spawn_task fuel task = elim (linked new_links new_links) [
  | none ↦ undefined
  | some (l, l') ↦ resume fuel task false true l []
]

-- `Scheduler::resumeWithData`: to resume no coroutine is undefined, and so is a coroutine's use of a
-- scheduler that it does not have. `to_resume` is null again before the coroutine runs. The coroutine
-- reads `resume_value` before anything else happens.
unfoldable pub resume_with_data : ℕ → ℤ → Outcome → Exec Outcome
unfolding resume
resume_with_data fuel j (finished out v) = undefined
resume_with_data fuel j (waiting out []) = undefined
resume_with_data fuel j (waiting out (p ∷ parents)) =
    let resumed = resume fuel (p.goes_on j) false p.scheduler p.links parents in
    if p.scheduler then (resumed >>= λ o. ok (printed_before out o)) else undefined

-- `AsyncResult::result`, with all that has been printed.
abbrev pub result : Outcome → Exec (List Item × ℤ)
result (finished out v) = ok (out, v)
result (waiting out chain) = undefined

-- `resumeWithData` for each of some data, then `result`.
unfoldable pub feed : ℕ → Outcome → List ℤ → Exec (List Item × ℤ)
unfolding resume_with_data
feed fuel o [] = result o
feed fuel o (j ∷ js) = resume_with_data fuel j o >>= λ o'. feed fuel o' js

-- `inner_function`
unfoldable pub inner_function : ℤ → Code
unfolding ◌+ℤ◌
inner_function i = println (text "In inner" ∷ []) (
    get_data λ additional_data. get_call_stack (
      println (text "GetData returned " ∷ num additional_data ∷ [])
        (co_return (i +ℤ additional_data))))

-- `inner_ready`
unfoldable pub inner_ready : Code
inner_ready = co_return (pos 3)

-- `middle_function`; `WrappedInt` is its field.
unfoldable pub middle_function : ℤ → Code
unfolding inner_function inner_ready ◌*ℤ◌
middle_function i = println (text "In middle" ∷ []) (
    co_await (inner_function i) λ ii.
      println (text "inner returned " ∷ num ii ∷ [])
        (co_await inner_ready λ r. co_return (ii *ℤ r)))

-- `outer_function`
unfoldable pub outer_function : ℤ → Code
unfolding middle_function ◌+ℤ◌
outer_function i = println (text "In outer" ∷ []) (
    co_await (middle_function i)
      λ res. println (text "middle returned " ∷ num res ∷ []) (co_return (res +ℤ pos 3)))

-- `main` behind its first line: what is printed, and the result.
unfoldable pub main : Exec (List Item × ℤ)
unfolding spawn_task feed outer_function
main = spawn_task 30 (outer_function (pos 11)) >>= λ o. feed 30 o (pos 2 ∷ [])
