-- ===== src/Generator/Primes/Search.antt =====
-- The coroutine yields the prime numbers one after the other and leaves none out.
use cpp20examples.Prelude.{
  subst, ℕ, zero, suc, ◌+◌, ◌*◌, ◌%◌, ◌^◌, ◌≤◌, ◌<◌, ◌≡◌, refl, sym, ◌∙◌, arith, true, false, inl,
  inr, dec_lt, ℕ_discrete,
}
use cpp20examples.Prelude.Exec.{ok}
use native.Mathlib.Nat.{mod-eq_of_lt}
use cpp20examples.Generator.Primes.{
  modulus, is_prime, Point, at_start, at_two, at_prime, search, get_next_prime,
}
use cpp20examples.Generator.Primes.Division.{Prime, is_prime_lem, even-composite, two-Prime}

-- `p` is the least prime number from `num` on.
record LeastFrom (num p : ℕ) : Type 0 where
  prime : Prime p
  above : num ≤ p
  least : (c : ℕ) → num ≤ c → c < p → ¬ Prime c

Prime-two_le : (q : ℕ) → Prime q → 2 ≤ q
unfolding Prime
Prime-two_le q prime = prime.0

odd-Prime : (q : ℕ) → 3 ≤ q → Prime q → q % 2 ≡ 1
odd-Prime q big prime = elim (ℕ_discrete (q % 2) 0) [
  | yes even ↦ absurd (even-composite q (λ e. omega arith) even prime)
  | no odd ↦ omega (arith, odd)
]

found : (fuel num : ℕ) → is_prime num num ≡ ok true → search (suc fuel) num ≡ ok num
unfolding search
found fuel num e = rw e refl

passed :
    (fuel num : ℕ)
    → num + 2 < modulus
    → is_prime num num ≡ ok false
    → search (suc fuel) num ≡ search fuel (num + 2)
unfolding search
passed fuel num small e = rw (e, mod-eq_of_lt small) refl

LeastFrom-step :
    (num p : ℕ) → 3 ≤ num → num % 2 ≡ 1 → ¬ Prime num → LeastFrom (num + 2) p → LeastFrom num p
LeastFrom-step num p big odd composite l = record {
  prime = l.prime;
  above = omega (arith, l.above);
  least = λ c a b prime. elim (dec_lt c (num + 2)) [
    | no after ↦ l.least c (omega arith) b prime
    | yes before ↦ elim (ℕ_discrete c num) [
      | yes same ↦ composite (subst Prime same prime)
      | no other ↦ even-composite c (λ e. omega arith) (omega arith) prime
    ]
  ];
}

search_lem :
    (fuel num q : ℕ)
    → 3 ≤ num
    → num % 2 ≡ 1
    → Prime q
    → num ≤ q
    → q < 2 ^ 62
    → q < num + 2 * fuel
    → (p : ℕ) × (search fuel num ≡ ok p) × LeastFrom num p
search_lem zero num q big odd prime h small enough = absurd (omega arith)
search_lem (suc fuel) num q big odd prime h small enough =
    elim (is_prime_lem num (omega arith) (omega arith)) [
      | inl (e, is) ↦ (
        num,
        found fuel num e,
        record { prime = is; above = omega arith; least = λ c a b. absurd (omega arith) },
      )
      | inr (e, composite) ↦ elim (ℕ_discrete num q) [
        | yes same ↦ absurd (composite (subst Prime (sym same) prime))
        | no other ↦
            let odd_q = odd-Prime q (omega arith) prime in
            let (p, ran, l) =
              search_lem fuel (num + 2) q (omega arith) (omega (arith, odd)) prime
                (omega (arith, odd, odd_q)) small (omega arith) in
            (p, passed fuel num (omega arith) e ∙ ran, LeastFrom-step num p big odd composite l)
      ]
    ]

wrapped : (num : ℕ) → num + 2 < modulus → (num + 2) % modulus ≡ num + 2
wrapped num h = mod-eq_of_lt h

next_after :
    (num p : ℕ)
    → 3 ≤ num
    → num % 2 ≡ 1
    → LeastFrom (num + 2) p
    → (c : ℕ) → num < c
    → c < p
    → ¬ Prime c
next_after num p big odd l c a b prime = elim (dec_lt c (num + 2)) [
  | no after ↦ l.least c (omega arith) b prime
  | yes before ↦ even-composite c (λ e. omega arith) (omega arith) prime
]

-- The number yielded last, and 1 at the start.
abbrev pub last : Point → ℕ
last at_start = 1
last at_two = 2
last (at_prime num) = num

-- After 2 the coroutine is at odd numbers.
abbrev pub WellFormed : Point → Type 0
WellFormed (at_prime num) = (3 ≤ num) × (num % 2 ≡ 1)
WellFormed _ = Unit

-- If there is a prime number `q` below 2 ^ 62 above the one yielded last, and the fuel is half the way
-- to it, `getNextPrime` returns the next prime number: one above the last, with none between them; and
-- the coroutine is well-formed again.
pub get_next_prime_lem :
    (fuel : ℕ) (at : Point) (q : ℕ)
    → WellFormed at
    → Prime q
    → last at < q
    → q < 2 ^ 62
    → q < last at + 2 * fuel
    → (p : ℕ) × (at' : Point) × (get_next_prime fuel at ≡ ok (p, at'))
      × (last at' ≡ p)
      × WellFormed at'
      × Prime p
      × (last at < p)
      × ((c : ℕ) → last at < c → c < p → ¬ Prime c)
unfolding get_next_prime
get_next_prime_lem fuel at_start q well prime h small enough =
    (2, at_two, refl, refl, tt, two-Prime, omega arith, λ c a b. absurd (omega arith))
get_next_prime_lem fuel at_two q well prime h small enough =
    let (p, ran, l) = search_lem fuel 3 q (omega arith) refl prime h small (omega arith) in
    (
      p,
      at_prime p,
      rw ran refl,
      refl,
      (l.above, odd-Prime p l.above l.prime),
      l.prime,
      l.above,
      λ c a b. l.least c a b,
    )
get_next_prime_lem fuel (at_prime num) q (big, odd) prime h small enough =
    let odd_q = odd-Prime q (omega arith) prime in
    let (p, ran, l) =
      search_lem fuel (num + 2) q (omega arith) (omega (arith, odd)) prime
        (omega (arith, odd, odd_q)) small (omega arith) in
    let above = l.above in
    (
      p,
      at_prime p,
      rw (wrapped num (omega arith), ran) refl,
      refl,
      (omega arith, odd-Prime p (omega arith) l.prime),
      l.prime,
      omega arith,
      next_after num p big odd l,
    )
