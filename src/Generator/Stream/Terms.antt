-- ===== src/Generator/Stream/Terms.antt =====
-- The values are the terms of an arithmetic progression.
use cpp20examples.Prelude.{
  ap, ℕ, zero, suc, ◌+◌, ◌^◌, ◌≤◌, ◌<◌, ◌≡◌, refl, sym, arith, true, lt→ltb, List, [], ◌∷◌, some,
}
use cpp20examples.Prelude.Exec.{ok}
use cpp20examples.Prelude.Int.{ℤ, pos, ◌+ℤ◌, +ℤ_assoc}
use cpp20examples.Generator.Stream.{
  in_int, add_int, increment, at_yield, Generator, get_next, take_values,
}

-- `k` times an integer.
unfoldable pub times : ℕ → ℤ → ℤ
unfolding ◌+ℤ◌
times zero s = pos 0
times (suc k) s = times k s +ℤ s

-- `n` terms of the progression, from the term `k` on.
unfoldable pub terms : ℕ → ℕ → ℤ → ℤ → List ℤ
unfolding times ◌+ℤ◌
terms zero k start step = []
terms (suc n) k start step = (start +ℤ times k step) ∷ terms n (suc k) start step

-- The generator when it has yielded `v`, the term `k`.
abbrev yielded : ℕ → ℤ → ℤ → Generator
yielded k v step = record {
  point = at_yield;
  current_value = some v;
  step = step;
  value = v;
  i = k;
}

+ℤ_zero : (a : ℤ) → a +ℤ pos 0 ≡ a
unfolding ◌+ℤ◌
+ℤ_zero a = ground arith

add_int-times :
    (k : ℕ) (v start step : ℤ)
    → v ≡ start +ℤ times k step
    → in_int (start +ℤ times (suc k) step) ≡ true
    → add_int v step ≡ ok (start +ℤ times (suc k) step)
unfolding add_int times
add_int-times k v start step e h = rw (e, +ℤ_assoc start (times k step) step, h) refl

increment_lem : (i : ℕ) → i + 1 < 2 ^ 31 → increment i ≡ ok (suc i)
unfolding increment
increment_lem i h = rw (lt→ltb (i + 1) (2 ^ 31) h) (ap ok (omega arith))

take_values-yielded :
    (n k : ℕ) (v start step : ℤ)
    → v ≡ start +ℤ times k step
    → k + n < 2 ^ 31
    → ((j : ℕ) → j ≤ k + n → in_int (start +ℤ times j step) ≡ true)
    → take_values n (yielded k v step) ≡ ok (terms n (suc k) start step)
unfolding take_values terms times
take_values-yielded zero k v start step e h fits = refl
take_values-yielded (suc n) k v start step e h fits =
    rw
      (
        add_int-times k v start step e (fits (suc k) (omega arith)),
        increment_lem k (omega arith),
        take_values-yielded n (suc k) (start +ℤ times (suc k) step) start step refl (omega arith)
            (λ j q. fits j (omega arith)),
      )
      refl

-- As long as the terms fit into `int`, and there are at most 2 ^ 31 of them, `n` rounds of the loop
-- meet no undefined behaviour, and print the first `n` terms of the progression from `start` by
-- `step`.
pub stream_terms :
    (n : ℕ) (start step : ℤ)
    → n ≤ 2 ^ 31
    → ((j : ℕ) → j < n → in_int (start +ℤ times j step) ≡ true)
    → take_values n (get_next start step) ≡ ok (terms n 0 start step)
unfolding take_values terms times
stream_terms zero start step h fits = refl
stream_terms (suc n) start step h fits =
    rw
      (
        take_values-yielded n 0 start start step (sym (+ℤ_zero start)) (omega arith)
            (λ j q. fits j (omega arith)),
        +ℤ_zero start,
      )
      refl
