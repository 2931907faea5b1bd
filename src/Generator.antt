-- ===== src/Generator.antt =====
-- The generators: coroutines/utils/generator/main.cpp, coroutines/utils/generator_range/main.cpp,
-- concurrency/coroutineGetElements.cpp and others. A generator is a coroutine frame whose promise
-- holds the value of the last `co_yield`; it starts and ends suspended.
pub mod Exhausted
pub mod Range
pub mod Elements
pub mod Interleaved
pub mod Stream
pub mod Audio
pub mod Primes
mod Tests
use cpp20examples.Prelude.{List, [], ◌∷◌, Option, none, some, Bool, true, false}
use cpp20examples.Prelude.Exec.{Exec, ok, undefined}
use cpp20examples.Coroutine.{Body, finish, await, Frame, suspended, final_suspended}

-- The frame, and the value of the promise, which is not initialised at first.
pub record Gen (A : Type 0) : Type 0 where
  pub frame : Frame A
  pub current : Option A

module _ {A : Type 0} where
  -- The call of a coroutine: it runs nothing.
  abbrev pub created : Body A → Gen A
  created b = record { frame = suspended b; current = none }

  abbrev advance : Frame A → Option A → Exec (Gen A)
  advance final_suspended c = undefined
  advance (suspended (finish out)) c = ok (record { frame = final_suspended; current = c })
  advance (suspended (await out a b)) c = ok (record { frame = suspended b; current = some a })

  -- `resume()`: up to the next `co_yield`, whose value `yield_value` stores, or to the end.
  abbrev pub resume : Gen A → Exec (Gen A)
  resume g = advance g.frame g.current

  abbrev pub is_final : Frame A → Bool
  is_final final_suspended = true
  is_final (suspended b) = false

  -- `done()`
  abbrev pub done : Gen A → Bool
  done g = is_final g.frame

  abbrev initialised : Option A → Exec A
  initialised none = undefined
  initialised (some a) = ok a

  -- The value of the promise; to read it before the first `co_yield` is undefined.
  abbrev pub read : Gen A → Exec A
  read g = initialised g.current

  -- The body `for (auto c : cont) co_yield c;`
  abbrev pub yields : List A → Body A
  yields [] = finish []
  yields (a ∷ l) = await [] a (yields l)

  -- All the values that a body yields.
  abbrev pub yielded : Body A → List A
  yielded (finish out) = []
  yielded (await out a b) = a ∷ yielded b
