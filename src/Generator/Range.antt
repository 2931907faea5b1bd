-- ===== src/Generator/Range.antt =====
-- coroutines/utils/generator_range/main.cpp: the generator as a range. The iterator owns the frame.
use cpp20examples.Prelude.{
  ℕ, zero, suc, ◌+◌, ◌≤◌, ◌≡◌, refl, arith, Bool, if◌then◌else◌, List, [], ◌∷◌, some, length,
}
use cpp20examples.Prelude.Exec.{Exec, ok, undefined, out_of_fuel, ◌>>=◌}
use cpp20examples.Prelude.Int.{ℤ, pos}
use cpp20examples.Coroutine.{Body, finish, await, suspended}
use cpp20examples.Generator.{Gen, created, resume, done, read, yielded, yields}

-- `Generator<T>` with its promise type
abbrev pub Generator : Type 0 → Type 0
Generator A = Gen A

module _ {A : Type 0} where
  -- `begin()`: it resumes the coroutine and hands the frame over.
  abbrev pub begin : Generator A → Exec (Generator A)
  begin g = resume g

  -- `operator++`; a failed `assert` is an outcome like undefined behaviour.
  abbrev pub increment : Generator A → Exec (Generator A)
  increment it = if done it then undefined else resume it

  -- `operator*`
  abbrev pub value : Generator A → Exec A
  value it = read it

  -- `operator==` with `end()`
  abbrev pub at_end : Generator A → Bool
  at_end it = done it

  -- The loop of a range-based `for` that uses each value, from an iterator on.
  unfoldable pub loop_from : ℕ → Generator A → Exec (List A)
  loop_from zero it = out_of_fuel
  loop_from (suc fuel) it =
      let rest = increment it >>= loop_from fuel in
      let body = value it >>= λ a. rest >>= λ l. ok (a ∷ l) in if at_end it then ok [] else body

  -- `for (auto result : coro())`
  unfoldable pub range_for : ℕ → Generator A → Exec (List A)
  unfolding loop_from
  range_for fuel g = begin g >>= loop_from fuel

  loop_from-body :
      (fuel : ℕ) (b : Body A) (a : A)
      → length (yielded b) + 2 ≤ fuel
      → loop_from fuel (record { frame = suspended b; current = some a }) ≡ ok (a ∷ yielded b)
  unfolding loop_from
  loop_from-body zero b a h = absurd (omega arith)
  loop_from-body (suc zero) b a h = absurd (omega arith)
  loop_from-body (suc (suc fuel)) (finish out) a h = refl
  loop_from-body (suc (suc fuel)) (await out a' b) a h =
      rw (loop_from-body (suc fuel) b a' (omega arith)) refl

-- `main`: the two coroutines.
abbrev pub coro : Body ℤ
coro = yields (pos 1 ∷ pos 2 ∷ pos 3 ∷ [])

abbrev pub empty : Body ℤ
empty = finish []

-- A range-based `for` over a generator ends without undefined behaviour and without a failed
-- assertion, given one round more than there are values, and visits the values that the coroutine
-- yields, in their order, each once.
pub range_for_lem :
    {A : Type 0} (fuel : ℕ) (b : Body A)
    → length (yielded b) + 1 ≤ fuel
    → range_for fuel (created b) ≡ ok (yielded b)
unfolding range_for loop_from
range_for_lem zero b h = absurd (omega arith)
range_for_lem (suc fuel) (finish out) h = refl
range_for_lem (suc fuel) (await out a b) h = loop_from-body (suc fuel) b a (omega arith)
