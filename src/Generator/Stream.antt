-- ===== src/Generator/Stream.antt =====
-- concurrency/infiniteDataStream.cpp: a coroutine that never ends, with the overflow of `int`.
pub mod Terms
pub mod Commented
mod Tests
use cpp20examples.Prelude.{
  ℕ, zero, suc, ◌+◌, ◌-◌, ◌^◌, Bool, true, ◌&&◌, ltb, leb, if◌then◌else◌, List, [], ◌∷◌, Option,
  none, some,
}
use cpp20examples.Prelude.Exec.{Exec, ok, undefined, ◌>>=◌}
use cpp20examples.Prelude.Int.{ℤ, pos_part, neg_part, ◌+ℤ◌}

-- Whether an integer is a value of `int`, of 32 bits.
unfoldable pub in_int : ℤ → Bool
in_int v = ltb (pos_part v) (2 ^ 31) && leb (neg_part v) (2 ^ 31)

-- `value += step`, undefined where it overflows
unfoldable pub add_int : ℤ → ℤ → Exec ℤ
unfolding in_int ◌+ℤ◌
add_int a b = if in_int (a +ℤ b) then ok (a +ℤ b) else undefined

-- `++i`, undefined where it overflows
unfoldable pub increment : ℕ → Exec ℕ
increment i = if ltb (i + 1) (2 ^ 31) then ok (i + 1) else undefined

-- Where `getNext` is: at its initial suspend point or at the `co_yield`.
pub data Point : Type 0 where
  at_start at_yield : Point

-- `Generator` of `getNext(start, step)`: `current_value`, which is not initialised at first, and the
-- parameters and locals of the coroutine.
pub record Generator : Type 0 where
  pub point : Point
  pub current_value : Option ℤ
  pub step : ℤ
  pub value : ℤ
  pub i : ℕ

-- `getNext(start, step)`
abbrev pub get_next : ℤ → ℤ → Generator
get_next start step = record {
  point = at_start;
  current_value = none;
  step = step;
  value = start;
  i = 0;
}

-- `co_yield value`
abbrev yield_value : Generator → Generator
yield_value g = record g { point = at_yield; current_value = some g.value }

abbrev advance : Point → Generator → Exec Generator
advance at_start g = ok (yield_value g)
advance at_yield g = do
  value' ← add_int g.value g.step
  i' ← increment g.i
  ok (yield_value (record g { value = value'; i = i' }))

-- `next()`: the coroutine is never done, so it returns true.
abbrev pub next : Generator → Exec (Bool × Generator)
next g = advance g.point g >>= λ g'. ok (true, g')

abbrev initialised : Option ℤ → Exec ℤ
initialised none = undefined
initialised (some v) = ok v

-- `getValue()`
abbrev pub get_value : Generator → Exec ℤ
get_value g = initialised g.current_value

-- A loop of `main` with `n` rounds: the values that it prints.
unfoldable pub take_values : ℕ → Generator → Exec (List ℤ)
unfolding add_int increment
take_values zero g = ok []
take_values (suc n) g = do (more, g') ← next g; v ← get_value g'; l ← take_values n g'; ok (v ∷ l)
