-- ===== src/Generator/Tests.antt =====
-- The generators on the data of the programs.
use cpp20examples.Prelude.{ℕ, suc, ◌+◌, ◌≤◌, ◌≡◌, refl, arith, List, [], ◌∷◌, ◌++◌, length}
use cpp20examples.Prelude.Exec.{ok, undefined}
use cpp20examples.Prelude.Int.{pos}
use cpp20examples.Generator.{created}
use cpp20examples.Generator.Exhausted.{drain, drain_lem}
use cpp20examples.Generator.Range.{range_for, range_for_lem}
use cpp20examples.Generator.Elements.{get_next, take_values, take, last, take_values_lem}
use cpp20examples.Generator.Exhausted
use cpp20examples.Generator.Range

drain_test : drain 6 (created Exhausted.coro) ≡ ok (pos 1 ∷ pos 2 ∷ pos 3 ∷ pos 4 ∷ pos 5 ∷ [])
drain_test = drain_lem 6 Exhausted.coro (omega arith)

no_values_drained : drain 1 (created Exhausted.empty) ≡ ok []
no_values_drained = drain_lem 1 Exhausted.empty (omega arith)

range_for_test : range_for 4 (created Range.coro) ≡ ok (pos 1 ∷ pos 2 ∷ pos 3 ∷ [])
range_for_test = range_for_lem 4 Range.coro (omega arith)

no_values_visited : range_for 1 (created Range.empty) ≡ ok []
no_values_visited = range_for_lem 1 Range.empty (omega arith)

abbrev my_vec : List ℕ
my_vec = 1 ∷ 2 ∷ 3 ∷ 4 ∷ 5 ∷ []

take_values_lem_example :
    (3 ≤ length my_vec → take_values 3 (get_next my_vec) ≡ ok (take 3 my_vec))
    × ((a : ℕ) (m : List ℕ)
        → my_vec ≡ a ∷ m
        → 3 ≡ suc (length my_vec)
        → take_values 3 (get_next my_vec) ≡ ok (my_vec ++ last a m ∷ []))
    × (length my_vec + 2 ≤ 3 → take_values 3 (get_next my_vec) ≡ undefined)
take_values_lem_example = take_values_lem 3 my_vec

all_of_my_vec : take_values 5 (get_next my_vec) ≡ ok my_vec
unfolding take_values
all_of_my_vec = refl
