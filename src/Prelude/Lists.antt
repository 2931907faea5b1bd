-- ===== src/Prelude/Lists.antt =====
-- Lists measured by native numbers, under the library's names, and sums over lists.
use Prim.Native.Nat.{ℕ, zero, suc, ◌+◌}
use mathlib.Core.Path.{◌≡◌, refl}
use mathlib.Core.Logic.{◌≢◌}
use mathlib.Core.List.{List, [], ◌∷◌, ◌++◌}
use mathlib.Core.Option.{Option, none, some}
use native.Mathlib.Omega.{arith}
use cpp20examples.Prelude.Tests.{◌==◌, if◌then◌else◌}

module _ {ℓ} {A : Type ℓ} where
  abbrev pub length : List A → ℕ
  length [] = 0
  length (x ∷ xs) = suc (length xs)

  abbrev pub get_elem? : List A → ℕ → Option A
  get_elem? [] i = none
  get_elem? (x ∷ xs) zero = some x
  get_elem? (x ∷ xs) (suc i) = get_elem? xs i

  pub length-append : (xs ys : List A) → length (xs ++ ys) ≡ length xs + length ys
  length-append [] ys = omega arith
  length-append (x ∷ xs) ys = omega (arith, length-append xs ys)

-- The sum of a weight over a list of handles.
abbrev pub total : (ℕ → ℕ) → List ℕ → ℕ
total w [] = 0
total w (x ∷ xs) = w x + total w xs

-- How often a handle stands in a list.
abbrev pub count : ℕ → List ℕ → ℕ
count h = total (λ x. if x == h then 1 else 0)

pub total-append : (w : ℕ → ℕ) (xs ys : List ℕ) → total w (xs ++ ys) ≡ total w xs + total w ys
total-append w [] ys = omega arith
total-append w (x ∷ xs) ys = omega (arith, total-append w xs ys)

-- Two weights that agree on the list have the same sum.
pub total-congr :
    (w v : ℕ → ℕ) (xs : List ℕ) → ((h : ℕ) → count h xs ≢ 0 → w h ≡ v h) → total w xs ≡ total v xs
total-congr w v [] e = refl
total-congr w v (x ∷ xs) e =
    omega (arith, e x (ground arith), total-congr w v xs (λ h p. e h (ground arith)))
