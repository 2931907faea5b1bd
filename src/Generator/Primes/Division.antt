-- ===== src/Generator/Primes/Division.antt =====
-- Trial division by odd numbers up to the square root finds a divisor where there is one.
use cpp20examples.Prelude.{
  ℕ, zero, suc, ◌+◌, ◌*◌, ◌/◌, ◌%◌, ◌^◌, ◌≤◌, ◌<◌, ◌≡◌, ◌≢◌, refl, sym, ap, ◌∙◌, subst, arith, Bool,
  true, false, ◌⊎◌, inl, inr, dec_lt, dec_le, ℕ_discrete,
}
use cpp20examples.Prelude.Exec.{Exec, ok}
use native.Mathlib.Nat.{mul-mod_right, div-add-mod, mul_assoc, mul_comm, mod-eq_of_lt, mul-le-mul}
use cpp20examples.Generator.Primes.{modulus, no_divisor_from, is_prime}

-- Nothing but 1 and the number itself divides it.
unfoldable pub Prime : ℕ → Type 0
Prime n = (2 ≤ n) × ((a b : ℕ) → 2 ≤ a → 2 ≤ b → n ≢ a * b)

-- No odd number from 3 up to but not including `d` divides `n`.
abbrev Tried : ℕ → ℕ → Type 0
Tried n d = (c k : ℕ) → 3 ≤ c → c < d → n ≢ c * k

divides_mod : (n d : ℕ) → n % d ≡ 0 → n ≡ d * (n / d)
divides_mod n d e = omega (arith, div-add-mod n d)

even_factor : (n c k : ℕ) → n ≡ c * k → c % 2 ≡ 0 → n % 2 ≡ 0
even_factor n c k e even =
    let c_half : c ≡ 2 * (c / 2) = divides_mod c 2 even in
    let halves : n ≡ 2 * (c / 2 * k) = e ∙ ap (λ (x : ℕ). x * k) c_half ∙ mul_assoc 2 (c / 2) k in
    ap (λ (x : ℕ). x % 2) halves ∙ mul-mod_right 2 (c / 2 * k)

-- The round of the loop at `d`.
stop : (fuel num d : ℕ) → num < d * d → d * d < modulus → no_divisor_from (suc fuel) num d ≡ ok true
unfolding no_divisor_from
stop fuel num d h small = rw (mod-eq_of_lt small) (ground arith)

hit :
    (fuel num d : ℕ)
    → d * d ≤ num
    → d * d < modulus
    → num % d ≡ 0
    → no_divisor_from (suc fuel) num d ≡ ok false
unfolding no_divisor_from
hit fuel num d h small e = rw (mod-eq_of_lt small, e) (ground arith)

miss :
    (fuel num d : ℕ)
    → d * d ≤ num
    → d * d < modulus
    → d + 2 < modulus
    → num % d ≢ 0
    → no_divisor_from (suc fuel) num d ≡ no_divisor_from fuel num (d + 2)
unfolding no_divisor_from
miss fuel num d h small small' e = rw (mod-eq_of_lt small, mod-eq_of_lt small') (ground arith)

pub product_mono : (a b c d : ℕ) → a ≤ c → b ≤ d → a * b ≤ c * d
product_mono a b c d h k = mul-le-mul h k

square_small : (d : ℕ) → d ≤ 2 ^ 31 + 1 → d * d < modulus
square_small d h = omega (arith, product_mono d d (2 ^ 31 + 1) (2 ^ 31 + 1) h h)

root_small : (num d : ℕ) → num < 2 ^ 62 → d * d ≤ num → d < 2 ^ 31
root_small num d small h = elim (dec_lt d (2 ^ 31)) [
  | yes p ↦ p
  | no p ↦ absurd (omega (arith, product_mono (2 ^ 31) (2 ^ 31) d d (omega arith) (omega arith)))
]

-- What has been found when the loop has ended: the answer, and that it is right.
abbrev Decides : Exec Bool → ℕ → Type 0
Decides r num = ((r ≡ ok true) × Prime num) ⊎ ((r ≡ ok false) × ¬ Prime num)

factor_big : (num d a b : ℕ) → num % 2 ≡ 1 → Tried num d → 2 ≤ a → num ≡ a * b → d ≤ a
factor_big num d a b odd tried p e = elim (dec_lt a d) [
  | no h ↦ omega arith
  | yes h ↦ elim (dec_le 3 a) [
    | yes big ↦ absurd (tried a b big h e)
    | no two ↦
        let even : a ≡ 2 = omega arith in
        absurd (omega (arith, even_factor num a b e (ap (λ (x : ℕ). x % 2) even)))
  ]
]

Tried-Prime : (num d : ℕ) → 3 ≤ num → num % 2 ≡ 1 → Tried num d → num < d * d → Prime num
unfolding Prime
Tried-Prime num d big odd tried h = (
  omega arith,
  λ a b p q e. absurd (
      omega (
        arith,
        h,
        e,
        product_mono d d a b (factor_big num d a b odd tried p e)
            (factor_big num d b a odd tried q (e ∙ mul_comm a b)),
      )),
)

Tried-next : (num d : ℕ) → num % 2 ≡ 1 → d % 2 ≡ 1 → num % d ≢ 0 → Tried num d → Tried num (d + 2)
Tried-next num d odd odd_d e tried c k p q eq = elim (dec_lt c d) [
  | yes h ↦ tried c k p h eq
  | no h ↦ elim (dec_le c d) [
    | yes same ↦
        let c_eq : c ≡ d = omega arith in
        e (ap (λ (x : ℕ). x % d) (eq ∙ ap (λ (x : ℕ). x * k) c_eq) ∙ mul-mod_right d k)
    | no after ↦ omega (arith, odd, even_factor num c k eq (omega arith))
  ]
]

hit-composite : (num d : ℕ) → 3 ≤ d → d * d ≤ num → num % d ≡ 0 → ¬ Prime num
unfolding Prime
hit-composite num d p h e prime =
    let quotient = divides_mod num d e in
    prime.1 d (num / d) (omega arith)
      (elim (dec_le 2 (num / d)) [
        | yes ok_2 ↦ ok_2
        | no small ↦ absurd (
            omega (
              arith,
              quotient,
              product_mono d (num / d) d 1 (omega arith) (omega arith),
              product_mono 3 d d d p (omega arith),
            ))
      ])
      quotient

no_divisor_from-Decides :
    (fuel num d : ℕ)
    → 3 ≤ d
    → d ≤ num
    → d ≤ 2 ^ 31 + 1
    → num < d + fuel
    → num < 2 ^ 62
    → num % 2 ≡ 1
    → d % 2 ≡ 1
    → Tried num d
    → Decides (no_divisor_from fuel num d) num
no_divisor_from-Decides zero num d p q r s u v w tried = absurd (omega arith)
no_divisor_from-Decides (suc fuel) num d p q r s u v w tried = elim (dec_lt num (d * d)) [
  | yes h ↦ inl (stop fuel num d h (square_small d r), Tried-Prime num d (omega arith) v tried h)
  | no h ↦
      let square : d * d ≤ num = omega arith in
      let root = root_small num d u square in
      elim (ℕ_discrete (num % d) 0) [
        | yes e ↦ inr (hit fuel num d square (square_small d r) e, hit-composite num d p square e)
        | no e ↦ rw (miss fuel num d square (square_small d r) (omega arith) e) (
            no_divisor_from-Decides fuel num (d + 2) (omega arith)
              (omega (arith, product_mono 3 d d d p (omega arith))) (omega arith) (omega arith) u v
              (omega arith) (Tried-next num d v w e tried))
      ]
]

pub two-Prime : Prime 2
unfolding Prime
two-Prime = (omega arith, λ a b p q e. absurd (omega (arith, e, product_mono 2 2 a b p q)))

pub even-composite : (num : ℕ) → num ≢ 2 → num % 2 ≡ 0 → ¬ Prime num
unfolding Prime
even-composite num other even prime =
    prime.1 2 (num / 2) (omega arith) (omega (arith, prime.0, other, even)) (divides_mod num 2 even)

two_accepted : is_prime 2 2 ≡ ok true
unfolding is_prime
two_accepted = refl

even_refused : (num : ℕ) → num ≢ 2 → num % 2 ≡ 0 → is_prime num num ≡ ok false
unfolding is_prime
even_refused num other even = rw even (ground arith)

odd_tried :
    (num : ℕ) → num ≢ 2 → 2 ≤ num → num % 2 ≢ 0 → is_prime num num ≡ no_divisor_from num num 3
unfolding is_prime
odd_tried num other big odd = ground arith

-- Below 2 ^ 62, and from 2 on, `isPrime` returns, with as many rounds of its loop as the number, and
-- it returns true exactly for the prime numbers.
pub is_prime_lem :
    (num : ℕ)
    → 2 ≤ num
    → num < 2 ^ 62
    → ((is_prime num num ≡ ok true) × Prime num) ⊎ ((is_prime num num ≡ ok false) × ¬ Prime num)
is_prime_lem num big small = elim (ℕ_discrete num 2) [
  | yes e ↦ subst (λ (n : ℕ). Decides (is_prime n n) n) (sym e) (inl (two_accepted, two-Prime))
  | no other ↦ elim (ℕ_discrete (num % 2) 0) [
    | yes even ↦ inr (even_refused num other even, even-composite num other even)
    | no odd ↦ rw (odd_tried num other big odd) (
        no_divisor_from-Decides num num 3 (omega arith) (omega (arith, odd)) (omega arith)
          (omega arith) small (omega (arith, odd)) refl (λ c k p q e. omega arith))
  ]
]
