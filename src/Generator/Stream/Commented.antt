-- ===== src/Generator/Stream/Commented.antt =====
-- concurrency/infiniteDataStreamComments.cpp: the stream with a line for every function that runs.
mod Tests
use cpp20examples.Prelude.{
  ℕ, zero, suc, Bool, true, false, String, List, [], ◌∷◌, ◌++◌, map, Option, none, some,
}
use cpp20examples.Prelude.Exec.{Exec, ok, undefined, ◌>>=◌}
use cpp20examples.Prelude.Int.{ℤ, pos}
use cpp20examples.Coroutine.{Item, text, num}
use cpp20examples.Generator.Stream.{add_int}

-- The coroutine of `Generator` with `current_value`, the parameters and the local of `getNext`, and
-- whether it stands at its `co_yield`.
pub record Generator : Type 0 where
  pub at_yield : Bool
  pub current_value : Option ℤ
  pub step : ℤ
  pub value : ℤ

-- The lines on `std::cout`, without the blanks in front.
abbrev pub Lines : Type 0
Lines = List (List Item)

abbrev pub lines : List String → Lines
lines = map (λ (s : String). text s ∷ [])

-- A call of `getNext`: the promise, the `Generator`, and the initial suspend point.
unfoldable pub get_next : ℤ → ℤ → Lines × Generator
get_next start step = (
  lines (
      "promise_type::promise_type" ∷ "promise_type::get_return_object" ∷ "Generator::Generator"
      ∷ "promise_type::initial_suspend" ∷ []),
  record { at_yield = false; current_value = none; step = step; value = start },
)

-- `co_yield value`
abbrev pub yield_value : Generator → Lines × Generator
yield_value g = (
  lines ("getNext: before co_yield" ∷ "promise_type::yield_value" ∷ []),
  record g { at_yield = true; current_value = some g.value },
)

-- `resume`, from the start or from behind the `co_yield`.
abbrev pub resume : Bool → Generator → Exec (Lines × Generator)
resume false g = ok (lines ("getNext: start" ∷ []) ++ (yield_value g).0, (yield_value g).1)
resume true g = add_int g.value g.step >>= λ value'.
    let g' : Generator = record g { value = value' } in
    ok (lines ("getNext: after co_yield" ∷ []) ++ (yield_value g').0, (yield_value g').1)

abbrev pub current : Option ℤ → Exec ℤ
current none = undefined
current (some v) = ok v

-- `getNextValue`
unfoldable pub get_next_value : Generator → Exec (Lines × ℤ × Generator)
unfolding add_int
get_next_value g = resume g.at_yield g >>= λ (r : Lines × Generator).
    current r.1.current_value >>= λ v. ok (lines ("Generator::getNextValue" ∷ []) ++ r.0, v, r.1)

-- The loop of `main` with `n` rounds, and the destructors.
unfoldable pub take_values : ℕ → Generator → Exec Lines
unfolding get_next_value
take_values zero g = ok (lines ("Generator::~Generator" ∷ "promise_type::~promise_type" ∷ []))
take_values (suc n) g = get_next_value g >>= λ (r : Lines × ℤ × Generator).
    take_values n r.2 >>= λ out. ok (r.0 ++ (text "main: " ∷ num r.1 ∷ []) ∷ out)

-- `main`
unfoldable pub main : Exec Lines
unfolding get_next take_values
main = take_values 3 (get_next (pos 10) (pos 10)).1 >>= λ out.
    ok ((get_next (pos 10) (pos 10)).0 ++ out)
