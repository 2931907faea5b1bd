-- ===== src/Generator/Interleaved/Order.antt =====
-- The coroutine takes from the two vectors in turn, and what is left of the longer one at the end.
use cpp20examples.Prelude.{
  ℕ, zero, suc, ◌+◌, ◌≤◌, ◌≡◌, refl, arith, List, [], ◌∷◌, length, ap, fun_ext, ◌∙◌, not,
  if◌then◌else◌,
}
use cpp20examples.Prelude.Exec.{Exec, ok, ◌>>=◌}
use cpp20examples.Prelude.Int.{ℤ, pos}
use cpp20examples.Generator.{yields}
use cpp20examples.Generator.Interleaved.{
  run, Point, at_x, at_y, ended, Interleaved, resume_handle, is_ended, interleaved, collect, visit,
  main, use_iterator,
}

-- The two lists in turn.
abbrev pub interleave : List ℤ → List ℤ → List ℤ
interleave [] b = b
interleave (x ∷ a) [] = x ∷ a
interleave (x ∷ a) (y ∷ b) = x ∷ y ∷ interleave a b

-- The coroutine at a `co_yield` of `e`, with `a` and `b` to come.
abbrev yielding : Point → ℤ → ℤ → ℤ → List ℤ → List ℤ → Interleaved
yielding at_x e v w a b = record {
  point = at_x;
  val = e;
  x = run v (yields (e ∷ a));
  y = run w (yields b);
}
yielding _ e v w a b = record {
  point = at_y;
  val = e;
  x = run v (yields a);
  y = run w (yields (e ∷ b));
}

abbrev to_come : Point → ℤ → List ℤ → List ℤ → List ℤ
to_come at_x e a b = interleave (e ∷ a) b
to_come _ e a b = e ∷ interleave a b

collect-yielding :
    (fuel : ℕ) (p : Point) (e v w : ℤ) (a b : List ℤ)
    → length a + length b + 2 ≤ fuel
    → collect fuel (yielding p e v w a b) ≡ ok (to_come p e a b)
unfolding collect
collect-yielding zero p e v w a b h = absurd (omega arith)
collect-yielding (suc zero) p e v w a b h = absurd (omega arith)
collect-yielding (suc (suc fuel)) at_x e v w [] [] h = refl
collect-yielding (suc (suc fuel)) at_x e v w (c ∷ a) [] h =
    rw (collect-yielding (suc fuel) at_x c e w a [] (omega arith)) refl
collect-yielding (suc (suc fuel)) at_x e v w a (d ∷ b) h =
    rw (collect-yielding (suc fuel) at_y d e w a b (omega arith)) refl
collect-yielding (suc (suc fuel)) at_y e v w [] [] h = refl
collect-yielding (suc (suc fuel)) at_y e v w [] (d ∷ b) h =
    rw (collect-yielding (suc fuel) at_y d v e [] b (omega arith)) refl
collect-yielding (suc (suc fuel)) at_y e v w (c ∷ a) b h =
    rw (collect-yielding (suc fuel) at_x c v e a b (omega arith)) refl
collect-yielding (suc (suc fuel)) ended e v w [] [] h = refl
collect-yielding (suc (suc fuel)) ended e v w [] (d ∷ b) h =
    rw (collect-yielding (suc fuel) at_y d v e [] b (omega arith)) refl
collect-yielding (suc (suc fuel)) ended e v w (c ∷ a) b h =
    rw (collect-yielding (suc fuel) at_x c v e a b (omega arith)) refl

-- One round of the two loops, where the rest `k` and what is done with it `f` agree.
same_round :
    (p : Point) (g : Interleaved) (r : Exec Interleaved) (k : Interleaved → Exec (List ℤ))
    (f : List ℤ → Exec (List ℤ))
    → (if is_ended p then ok [] else (r >>= k >>= f))
      ≡ (if not (is_ended p) then ((if not (is_ended p) then r else ok g) >>= k >>= f) else ok [])
same_round at_x g r k f = refl
same_round at_y g r k f = refl
same_round ended g r k f = refl

-- `operator++` leaves the test out that `resume` makes; the loops make it themselves.
visit-collect : (fuel : ℕ) (g : Interleaved) → visit fuel g ≡ collect fuel g
unfolding visit collect
visit-collect zero g = refl
visit-collect (suc fuel) g =
    rw (fun_ext (visit-collect fuel))
      (same_round g.point g (resume_handle g) (collect fuel) (λ l. ok (g.val ∷ l)))

main_lem :
    (fuel : ℕ) (a b : List ℤ) → length a + length b + 1 ≤ fuel → main fuel a b ≡ ok (interleave a b)
unfolding main collect
main_lem zero a b h = absurd (omega arith)
main_lem (suc fuel) [] [] h = refl
main_lem (suc fuel) [] (d ∷ b) h =
    collect-yielding (suc fuel) at_y d (pos 0) (pos 0) [] b (omega arith)
main_lem (suc fuel) (c ∷ a) b h =
    collect-yielding (suc fuel) at_x c (pos 0) (pos 0) a b (omega arith)

use_iterator-main : (fuel : ℕ) (a b : List ℤ) → use_iterator fuel a b ≡ main fuel a b
unfolding main use_iterator
use_iterator-main fuel a b =
    ap (λ (k : Interleaved → Exec (List ℤ)). interleaved a b >>= k) (fun_ext (visit-collect fuel))

-- The loop of `main` ends without undefined behaviour, given one round more than the vectors have
-- elements, and prints the elements of the two vectors in turn, then what is left of the longer one;
-- and the range-based loop of `UseIterator` visits the same.
pub interleaved_lem :
    (fuel : ℕ) (a b : List ℤ)
    → length a + length b + 1 ≤ fuel
    → (main fuel a b ≡ ok (interleave a b)) × (use_iterator fuel a b ≡ ok (interleave a b))
interleaved_lem fuel a b h = (main_lem fuel a b h, use_iterator-main fuel a b ∙ main_lem fuel a b h)
