-- ===== src/Generator/Audio/Tests.antt =====
-- The run of `main` for its data, for no data, and the theorem for fewer rounds.
use cpp20examples.Prelude.{◌≡◌, refl, arith, false, List, [], ◌∷◌}
use cpp20examples.Prelude.Exec.{ok, ◌>>=◌}
use cpp20examples.Generator.Audio.{ℕ, Producer, Line, main}
use cpp20examples.Generator.Audio.Received.{data_of, all_received}

abbrev four : List ℕ
four = 1 ∷ 2 ∷ 3 ∷ 4 ∷ []

main_run : main 6 5 four >>= (λ s. ok (data_of s.0)) ≡ ok (four ∷ four ∷ four ∷ four ∷ four ∷ [])
unfolding main
main_run = refl

-- No data look like the exit criterion.
no_data_run : main 1 5 [] >>= (λ s. ok (data_of s.0)) ≡ ok []
unfolding main
no_data_run = refl

all_received_example :
    (out : List Line) × (p : Producer) × (main 3 2 four ≡ ok (out, p))
    × (data_of out ≡ four ∷ four ∷ [])
    × (p.done ≡ false)
    × (p.to_yield ≡ [])
all_received_example = all_received 1 (2 ∷ 3 ∷ 4 ∷ []) 2 3 (omega arith)
