-- ===== src/Generator/Interleaved/Tests.antt =====
-- The two vectors of the program.
use cpp20examples.Prelude.{◌≡◌, arith, List, [], ◌∷◌}
use cpp20examples.Prelude.Exec.{ok}
use cpp20examples.Prelude.Int.{ℤ, pos}
use cpp20examples.Generator.Interleaved.{main, use_iterator}
use cpp20examples.Generator.Interleaved.Order.{interleaved_lem}

abbrev a : List ℤ
a = pos 2 ∷ pos 4 ∷ pos 6 ∷ pos 8 ∷ []

abbrev b : List ℤ
b = pos 3 ∷ pos 5 ∷ pos 7 ∷ pos 9 ∷ []

abbrev both : List ℤ
both = pos 2 ∷ pos 3 ∷ pos 4 ∷ pos 5 ∷ pos 6 ∷ pos 7 ∷ pos 8 ∷ pos 9 ∷ []

interleaved_lem_example : (main 9 a b ≡ ok both) × (use_iterator 9 a b ≡ ok both)
interleaved_lem_example = interleaved_lem 9 a b (omega arith)
