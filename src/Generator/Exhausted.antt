-- ===== src/Generator/Exhausted.antt =====
-- coroutines/utils/generator/main.cpp
use cpp20examples.Prelude.{
  ℕ, zero, suc, ◌+◌, ◌≤◌, ◌≡◌, refl, arith, Bool, if◌then◌else◌, List, [], ◌∷◌, Option, some,
  length,
}
use cpp20examples.Prelude.Exec.{Exec, ok, out_of_fuel, ◌>>=◌}
use cpp20examples.Prelude.Int.{ℤ, pos}
use cpp20examples.Coroutine.{Body, finish, await, suspended}
use cpp20examples.Generator.{Gen, created, resume, done, read, yielded, yields}

-- `Generator<T>` with its promise type
abbrev pub Generator : Type 0 → Type 0
Generator A = Gen A

module _ {A : Type 0} where
  -- `exhausted()`
  abbrev pub exhausted : Generator A → Exec (Bool × Generator A)
  exhausted g = if done g then ok (done g, g) else (resume g >>= λ g'. ok (done g', g'))

  -- `get()`
  abbrev pub get : Generator A → Exec A
  get g = read g

  -- The loop of `main`, `while (not x.exhausted())`, with the values that it gets.
  unfoldable pub drain : ℕ → Generator A → Exec (List A)
  drain zero g = out_of_fuel
  drain (suc fuel) g = do
    (stop, g') ← exhausted g
    let rest = drain fuel g'
    let body = get g' >>= λ a. rest >>= λ l. ok (a ∷ l)
    if stop then ok [] else body

  drain-body :
      (fuel : ℕ) (b : Body A) (c : Option A)
      → length (yielded b) + 1 ≤ fuel
      → drain fuel (record { frame = suspended b; current = c }) ≡ ok (yielded b)
  unfolding drain
  drain-body zero b c h = absurd (omega arith)
  drain-body (suc fuel) (finish out) c h = refl
  drain-body (suc fuel) (await out a b) c h =
      let rest = drain-body fuel b (some a) (omega arith) in rw rest refl

-- `main`: the two coroutines and their loops.
abbrev pub coro : Body ℤ
coro = yields (pos 1 ∷ pos 2 ∷ pos 3 ∷ pos 4 ∷ pos 5 ∷ [])

abbrev pub empty : Body ℤ
empty = finish []

-- The loop of `main` over any coroutine ends without undefined behaviour, given one round more than
-- there are values, and gets the values that the coroutine yields, in their order, each once.
pub drain_lem :
    {A : Type 0} (fuel : ℕ) (b : Body A)
    → length (yielded b) + 1 ≤ fuel
    → drain fuel (created b) ≡ ok (yielded b)
drain_lem fuel b h = drain-body fuel b _ h
