-- ===== src/Generator/Primes/Tests.antt =====
-- The numbers that `main` prints, and an instance of the theorem.
use cpp20examples.Prelude.{◌≡◌, ◌⊎◌, refl, arith, ◌<◌, true, false, [], ◌∷◌}
use cpp20examples.Prelude.Exec.{ok}
use cpp20examples.Generator.Primes.{ℕ, is_prime, at_start, take_primes}
use cpp20examples.Generator.Primes.Division.{Prime, is_prime_lem, product_mono}
use cpp20examples.Generator.Primes.Search.{last, WellFormed, get_next_prime_lem}
use cpp20examples.Generator.Primes.{get_next_prime, Point, at_two}

ten_primes : take_primes 10 10 at_start ≡ ok (2 ∷ 3 ∷ 5 ∷ 7 ∷ 11 ∷ 13 ∷ 17 ∷ 19 ∷ 23 ∷ 29 ∷ [])
unfolding take_primes
ten_primes = refl

-- 1 is no prime number, but `isPrime` takes it for one.
one_accepted : is_prime 1 1 ≡ ok true
unfolding is_prime
one_accepted = refl

is_prime_lem_example :
    ((is_prime 91 91 ≡ ok true) × Prime 91) ⊎ ((is_prime 91 91 ≡ ok false) × ¬ Prime 91)
is_prime_lem_example = is_prime_lem 91 (omega arith) (omega arith)

three-Prime : Prime 3
unfolding Prime
three-Prime = (omega arith, λ a b p q e. absurd (omega (arith, e, product_mono 2 2 a b p q)))

get_next_prime_lem_example :
    (p : ℕ) × (at' : Point) × (get_next_prime 1 at_two ≡ ok (p, at'))
    × (last at' ≡ p)
    × WellFormed at'
    × Prime p
    × (2 < p)
    × ((c : ℕ) → 2 < c → c < p → ¬ Prime c)
get_next_prime_lem_example =
    get_next_prime_lem 1 at_two 3 tt three-Prime (omega arith) (omega arith) (omega arith)
