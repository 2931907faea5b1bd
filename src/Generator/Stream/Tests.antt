-- ===== src/Generator/Stream/Tests.antt =====
-- The second loop of `main`, in part.
use cpp20examples.Prelude.{ℕ, zero, suc, ◌<◌, ◌≡◌, refl, arith, true, [], ◌∷◌}
use cpp20examples.Prelude.Exec.{ok}
use cpp20examples.Prelude.Int.{pos, negsuc, ◌+ℤ◌}
use cpp20examples.Generator.Stream.{suc, in_int, get_next, take_values}
use cpp20examples.Generator.Stream.Terms.{times, terms, stream_terms}

first_three : take_values 3 (get_next (pos 100) (negsuc 9)) ≡ ok (pos 100 ∷ pos 90 ∷ pos 80 ∷ [])
unfolding take_values
first_three = refl

fits : (j : ℕ) → j < 2 → in_int (pos 100 +ℤ times j (negsuc 9)) ≡ true
unfolding in_int times ◌+ℤ◌
fits zero h = refl
fits (suc zero) h = refl
fits (suc (suc j)) h = absurd (omega arith)

stream_terms_example :
    take_values 2 (get_next (pos 100) (negsuc 9)) ≡ ok (terms 2 0 (pos 100) (negsuc 9))
stream_terms_example = stream_terms 2 (pos 100) (negsuc 9) (omega arith) fits
