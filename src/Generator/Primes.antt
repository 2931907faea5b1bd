-- ===== src/Generator/Primes.antt =====
-- coroutines/generate_primes/main.cpp: `unsigned long long` has 64 bits and wraps around.
pub mod Division
pub mod Search
mod Tests
use cpp20examples.Prelude.{
  ℕ, zero, suc, ◌+◌, ◌*◌, ◌%◌, ◌^◌, Bool, true, false, ◌==◌, ◌&&◌, ◌||◌, not, ltb, leb,
  if◌then◌else◌, List, [], ◌∷◌,
}
use cpp20examples.Prelude.Exec.{Exec, ok, out_of_fuel, ◌>>=◌}

-- The values of `unsigned long long` are below this.
abbrev pub modulus : ℕ
modulus = 2 ^ 64

-- The loop of `isPrime`, from the divisor `d` on.
unfoldable pub no_divisor_from : ℕ → ℕ → ℕ → Exec Bool
no_divisor_from zero num d = out_of_fuel
no_divisor_from (suc fuel) num d =
    let rest = no_divisor_from fuel num ((d + 2) % modulus) in
    let body = if num % d == 0 then ok false else rest in
    if leb (d * d % modulus) num then body else ok true

-- `isPrime(num)`
unfoldable pub is_prime : ℕ → ℕ → Exec Bool
unfolding no_divisor_from
is_prime fuel num =
    if not (num == 2) && (ltb num 1 || (num % 2 == 0)) then ok false else no_divisor_from fuel num 3

-- Where `allPrimeNumbers` is, with its local `num`.
pub data Point : Type 0 where
  at_start at_two : Point
  at_prime : ℕ → Point

-- `CoGenerator` with its promise type: the frame of `allPrimeNumbers`, whose `last` is what the
-- `co_yield` that it stands at has yielded.
abbrev pub CoGenerator : Type 0
CoGenerator = Point

-- The loop of `allPrimeNumbers`, from its test to the next `co_yield`.
unfoldable pub search : ℕ → ℕ → Exec ℕ
unfolding is_prime
search zero num = out_of_fuel
search (suc fuel) num = do
  let rest = search fuel ((num + 2) % modulus)
  found ← is_prime num num
  if found then ok num else rest

abbrev found_at : ℕ → Exec (ℕ × Point)
found_at num = ok (num, at_prime num)

-- `getNextPrime()`: the coroutine never ends, so the error branch is not taken. The value is `last`.
unfoldable pub get_next_prime : ℕ → CoGenerator → Exec (ℕ × CoGenerator)
unfolding search
get_next_prime fuel at_start = ok (2, at_two)
get_next_prime fuel at_two = search fuel 3 >>= found_at
get_next_prime fuel (at_prime num) = search fuel ((num + 2) % modulus) >>= found_at

-- The loop of `main`, with `cnt` rounds
unfoldable pub take_primes : ℕ → ℕ → CoGenerator → Exec (List ℕ)
unfolding get_next_prime
take_primes fuel zero p = ok []
take_primes fuel (suc cnt) p = do
  (num, p') ← get_next_prime fuel p
  l ← take_primes fuel cnt p'
  ok (num ∷ l)
