-- ===== src/Functions.antt =====
-- coroutines/utils: coroutines in place of functions. A body prints, and ends with a value or with an
-- exception; numbers are mathematical integers.
pub mod Awaitable
mod Tests
use cpp20examples.Prelude.{
  ℕ, zero, suc, Bool, true, false, if◌then◌else◌, List, [], ◌∷◌, ◌++◌, Option, none, some,
}
use cpp20examples.Prelude.Exec.{Exec, ok, undefined, ◌>>=◌}
use cpp20examples.Prelude.Int.{ℤ}
use cpp20examples.Coroutine.{Item}

-- A body of a coroutine that does not suspend between its start and its end.
pub data Body : Type 0 where
  puts : List Item → Body → Body
  throw : Body
  co_return : ℤ → Body
  co_return_void : Body

-- How a body ends: with `return_value`, with `unhandled_exception`, or with `return_void`.
pub data Ending : Type 0 where
  value : ℤ → Ending
  exception no_value : Ending

-- A body runs from its start to its end.
abbrev pub run : Body → List Item × Ending
run (puts items b) = (items ++ (run b).0, (run b).1)
run throw = ([], exception)
run (co_return v) = ([], value v)
run co_return_void = ([], no_value)

-- routine: `RoutinePromise` starts at once, drops an exception, and keeps nothing.
abbrev pub routine : Body → List Item
routine b = (run b).0

-- function: the promise that a call of the coroutine leaves.
pub record FunctionPromise : Type 0 where
  pub result : Option ℤ
  pub stored_exception : Bool

abbrev pub stored : Ending → FunctionPromise
stored (value v) = record { result = some v; stored_exception = false }
stored exception = record { result = none; stored_exception = true }
stored no_value = record { result = none; stored_exception = false }

-- `Function`, as a call of the coroutine returns it.
abbrev pub function : Body → List Item × FunctionPromise
function b = ((run b).0, stored (run b).1)

-- What the result is where it is read; one that has not been set is undefined.
abbrev pub read : Option ℤ → Exec ℤ
read none = undefined
read (some v) = ok v

-- `operator T()` of `Function`: an exception, or the value.
pub data Converted : Type 0 where
  thrown : Converted
  returned : ℤ → Converted

abbrev pub convert : FunctionPromise → Exec Converted
convert p = if p.stored_exception then ok thrown else (read p.result >>= λ v. ok (returned v))

-- lazy_function: `LazyFunction`, whose coroutine has not run, or has run and has left a result.
pub data LazyFunction : Type 0 where
  suspended : Body → LazyFunction
  done : Option ℤ → LazyFunction

-- `unhandled_exception` of the lazy function does nothing.
abbrev pub lazy_result : Ending → Option ℤ
lazy_result (value v) = some v
lazy_result exception = none
lazy_result no_value = none

-- `get`
abbrev pub get : LazyFunction → Exec (List Item × ℤ × LazyFunction)
get (suspended b) =
    read (lazy_result (run b).1) >>= λ v. ok ((run b).0, v, done (lazy_result (run b).1))
get (done result) = read result >>= λ v. ok ([], v, done result)

-- `get` so many times: what is printed, and the values.
unfoldable pub gets : ℕ → LazyFunction → Exec (List Item × List ℤ)
gets zero f = ok ([], [])
gets (suc n) f = get f >>= λ (g : List Item × ℤ × LazyFunction).
    gets n g.2 >>= λ (r : List Item × List ℤ). ok (g.0 ++ r.0, g.1 ∷ r.1)
