-- ===== src/Generator/Interleaved.antt =====
-- coroutines/generator_2/main.cpp: a generator that starts at once, and a coroutine that owns two of
-- them. `std::vector<int>` is a list of integers.
pub mod Order
mod Tests
use cpp20examples.Prelude.{ℕ, zero, suc, Bool, true, false, ◌||◌, not, if◌then◌else◌, List, [], ◌∷◌}
use cpp20examples.Prelude.Exec.{Exec, ok, undefined, out_of_fuel, ◌>>=◌}
use cpp20examples.Prelude.Int.{ℤ, pos}
use cpp20examples.Coroutine.{Body, finish, await, Frame, suspended, final_suspended}
use cpp20examples.Generator.{is_final, yields}

-- The coroutine of the lambda `lamb`, with `_val` of its promise.
pub record Lamb : Type 0 where
  pub val : ℤ
  pub frame : Frame ℤ

-- Up to the next `co_yield` or to the end of the body.
abbrev pub run : ℤ → Body ℤ → Lamb
run v (finish out) = record { val = v; frame = final_suspended }
run v (await out e b) = record { val = e; frame = suspended b }

-- `lamb(v)`: `initial_suspend` is `suspend_never`, and `_val` is 0 at first.
abbrev pub lamb : List ℤ → Lamb
lamb v = run (pos 0) (yields v)

-- `finished()`
abbrev pub finished : Lamb → Bool
finished g = is_final g.frame

-- `value()`
abbrev pub value : Lamb → ℤ
value g = g.val

abbrev pub resume_frame : ℤ → Frame ℤ → Lamb
resume_frame v final_suspended = record { val = v; frame = final_suspended }
resume_frame v (suspended b) = run v b

-- `resume()`, which does nothing when the coroutine has finished
abbrev pub resume : Lamb → Lamb
resume g = resume_frame g.val g.frame

-- Where `interleaved` is: at the `co_yield` of #D, of #E, or at its end.
pub data Point : Type 0 where
  at_x at_y ended : Point

-- The coroutine `interleaved`: its place, `_val` of its promise, and its locals `x` and `y`.
pub record Interleaved : Type 0 where
  pub point : Point
  pub val : ℤ
  pub x : Lamb
  pub y : Lamb

-- The loop of `interleaved`, from its test to the next `co_yield`. The fuel bounds the rounds; a
-- round that is entered ends at a `co_yield`.
abbrev pub loop : ℕ → ℤ → Lamb → Lamb → Exec Interleaved
loop zero v x y = out_of_fuel
loop (suc fuel) v x y =
    let again = loop fuel v x y in
    let second =
      if not (finished y)
      then ok (record { point = at_y; val = value y; x = x; y = y })
      else again in
    let first =
      if not (finished x)
      then ok (record { point = at_x; val = value x; x = x; y = y })
      else second in
    if not (finished x) || not (finished y)
    then first
    else ok (record { point = ended; val = v; x = x; y = y })

-- From behind the `co_yield` of #D: the rest of the round, then the loop.
abbrev pub after_x : ℤ → Lamb → Lamb → Exec Interleaved
after_x v x y =
    if not (finished y)
    then ok (record { point = at_y; val = value y; x = x; y = y })
    else loop 2 v x y

abbrev pub advance : Point → ℤ → Lamb → Lamb → Exec Interleaved
advance at_x v x y = after_x v (resume x) y
advance at_y v x y = loop 2 v x (resume y)
advance ended v x y = undefined

-- `mHandle.resume()`
abbrev pub resume_handle : Interleaved → Exec Interleaved
resume_handle g = advance g.point g.val g.x g.y

abbrev pub is_ended : Point → Bool
is_ended ended = true
is_ended _ = false

-- `interleaved(a, b)`
abbrev pub interleaved : List ℤ → List ℤ → Exec Interleaved
interleaved a b = loop 2 (pos 0) (lamb a) (lamb b)

-- The loop of `main`, with the values that it prints.
unfoldable pub collect : ℕ → Interleaved → Exec (List ℤ)
collect zero g = out_of_fuel
collect (suc fuel) g =
    let resumed = if not (is_ended g.point) then resume_handle g else ok g in
    let rest = resumed >>= collect fuel in
    if not (is_ended g.point) then (rest >>= λ l. ok (g.val ∷ l)) else ok []

-- The loop of `UseIterator`: `operator++` resumes without a test.
unfoldable pub visit : ℕ → Interleaved → Exec (List ℤ)
visit zero g = out_of_fuel
visit (suc fuel) g =
    let rest = resume_handle g >>= visit fuel in
    if is_ended g.point then ok [] else (rest >>= λ l. ok (g.val ∷ l))

-- `main` and `UseIterator`, over any two vectors
unfoldable pub main : ℕ → List ℤ → List ℤ → Exec (List ℤ)
unfolding collect
main fuel a b = interleaved a b >>= collect fuel

unfoldable pub use_iterator : ℕ → List ℤ → List ℤ → Exec (List ℤ)
unfolding visit
use_iterator fuel a b = interleaved a b >>= visit fuel
