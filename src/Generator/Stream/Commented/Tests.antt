-- ===== src/Generator/Stream/Commented/Tests.antt =====
-- The output of the first two rounds.
use cpp20examples.Prelude.{◌≡◌, refl, [], ◌∷◌, ◌++◌}
use cpp20examples.Prelude.Exec.{ok}
use cpp20examples.Prelude.Int.{pos}
use cpp20examples.Coroutine.{text, num}
use cpp20examples.Generator.Stream.Commented.{lines, get_next, take_values}

two_rounds :
    take_values 2 (get_next (pos 10) (pos 10)).1
    ≡ ok (
        lines (
          "Generator::getNextValue" ∷ "getNext: start" ∷ "getNext: before co_yield"
          ∷ "promise_type::yield_value" ∷ [])
        ++ (text "main: " ∷ num (pos 10) ∷ [])
          ∷ lines (
              "Generator::getNextValue" ∷ "getNext: after co_yield" ∷ "getNext: before co_yield"
              ∷ "promise_type::yield_value" ∷ [])
        ++ (text "main: " ∷ num (pos 20) ∷ [])
          ∷ lines ("Generator::~Generator" ∷ "promise_type::~promise_type" ∷ []))
unfolding take_values get_next
two_rounds = refl
