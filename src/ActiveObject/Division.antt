-- ===== src/ActiveObject/Division.antt =====
-- Trial division by all numbers up to the square root, within `int`.
use cpp20examples.Prelude.{
  ℕ, zero, suc, ◌+◌, ◌*◌, ◌/◌, ◌%◌, ◌≤◌, ◌<◌, ◌≡◌, ◌≢◌, refl, ap, ◌∙◌, arith, Bool, true, false,
  ◌⊎◌, inl, inr, dec_lt, dec_le, ℕ_discrete,
}
use cpp20examples.Prelude.Exec.{Exec, ok}
use native.Mathlib.Nat.{mul-mod_right, div-add-mod}
use cpp20examples.Generator.Primes.Division.{Prime, product_mono}
use cpp20examples.ActiveObject.{no_divisor, is_prime}

-- No number from 2 up to but not including `d` divides `n`.
abbrev Tried : ℕ → ℕ → Type 0
Tried n d = (c k : ℕ) → 2 ≤ c → c < d → n ≢ c * k

stop : (fuel i j : ℕ) → i < j * j → j * j ≤ 2147483647 → no_divisor (suc fuel) i j ≡ ok (true, i)
unfolding no_divisor
stop fuel i j h small = ground arith

hit :
    (fuel i j : ℕ)
    → j * j ≤ i
    → j * j ≤ 2147483647
    → i % j ≡ 0
    → no_divisor (suc fuel) i j ≡ ok (false, i)
unfolding no_divisor
hit fuel i j h small e = rw e (ground arith)

miss :
    (fuel i j : ℕ)
    → j * j ≤ i
    → j * j ≤ 2147483647
    → i % j ≢ 0
    → no_divisor (suc fuel) i j ≡ no_divisor fuel i (j + 1)
unfolding no_divisor
miss fuel i j h small e = ground arith

-- The answer, with its number, is right.
abbrev pub Right : Bool × ℕ → Type 0
Right p = ((p.0 ≡ true) × Prime p.1) ⊎ ((p.0 ≡ false) × ¬ Prime p.1)

abbrev pub Answers : Exec (Bool × ℕ) → ℕ → Type 0
Answers r i = (b : Bool) × (r ≡ ok (b, i)) × Right (b, i)

Tried-Prime : (i d : ℕ) → 2 ≤ i → Tried i d → i < d * d → Prime i
unfolding Prime
Tried-Prime i d big tried h = (
  big,
  λ a b p q e. elim (dec_lt a d) [
    | yes l ↦ tried a b p l e
    | no l ↦ elim (dec_lt b d) [
      | yes l' ↦ tried b a q l' (omega (arith, e))
      | no l' ↦ omega (arith, h, e, product_mono d d a b (omega arith) (omega arith))
    ]
  ],
)

Tried-next : (i d : ℕ) → i % d ≢ 0 → Tried i d → Tried i (d + 1)
Tried-next i d e tried c k p h eq = elim (dec_lt c d) [
  | yes l ↦ tried c k p l eq
  | no l ↦
      let c_eq : c ≡ d = omega arith in
      e (ap (λ (x : ℕ). x % d) (eq ∙ ap (λ (x : ℕ). x * k) c_eq) ∙ mul-mod_right d k)
]

hit-composite : (i d : ℕ) → 2 ≤ d → d * d ≤ i → i % d ≡ 0 → ¬ Prime i
unfolding Prime
hit-composite i d p h e prime =
    let quotient : i ≡ d * (i / d) = omega (arith, div-add-mod i d) in
    let small_quotient : i / d ≤ 1 → ⊥ = λ l. omega (
      arith,
      quotient,
      product_mono d (i / d) d 1 (omega arith) l,
      product_mono 2 d d d p (omega arith),
    ) in
    prime.1 d (i / d) p
      (elim (dec_le 2 (i / d)) [ yes l ↦ l | no l ↦ absurd (small_quotient (omega arith)) ])
      quotient

square_small : (d : ℕ) → d ≤ 31624 → d * d ≤ 2147483647
square_small d h = omega (arith, product_mono d d 31624 31624 h h)

root_small : (i d : ℕ) → i ≤ 1000000000 → d * d ≤ i → d ≤ 31623
root_small i d small h = elim (dec_le d 31623) [
  | yes p ↦ p
  | no p ↦ absurd (omega (arith, product_mono 31624 31624 d d (omega arith) (omega arith)))
]

no_divisor-Answers :
    (fuel i d : ℕ)
    → 2 ≤ d
    → d ≤ i
    → d ≤ 31624
    → i < d + fuel
    → i ≤ 1000000000
    → Tried i d
    → Answers (no_divisor fuel i d) i
no_divisor-Answers zero i d p q r s u tried = absurd (omega arith)
no_divisor-Answers (suc fuel) i d p q r s u tried = elim (dec_lt i (d * d)) [
  | yes h ↦
      (true, stop fuel i d h (square_small d r), inl (refl, Tried-Prime i d (omega arith) tried h))
  | no h ↦
      let square : d * d ≤ i = omega arith in
      elim (ℕ_discrete (i % d) 0) [
        | yes e ↦ (
          false,
          hit fuel i d square (square_small d r) e,
          inr (refl, hit-composite i d p square e),
        )
        | no e ↦ rw (miss fuel i d square (square_small d r) e) (
            no_divisor-Answers fuel i (d + 1) (omega arith)
              (omega (arith, product_mono 2 d d d p (omega arith)))
              (omega (arith, root_small i d u square)) (omega arith) u (Tried-next i d e tried))
      ]
]

-- For the numbers that `getRandNumbers` may give the loop ends, within `int`, with the right answer.
pub is_prime-Answers : (i : ℕ) → 2 ≤ i → i ≤ 1000000000 → Answers (is_prime i i) i
unfolding is_prime
is_prime-Answers i p u =
    no_divisor-Answers i i 2 (omega arith) p (omega arith) (omega arith) u
      (λ c k p q e. omega arith)
