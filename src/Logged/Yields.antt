-- ===== src/Logged/Yields.antt =====
-- co_yield_suspended_loop and co_yield_unsuspended_loop report the same values, one at a time or from
-- a queue.
use cpp20examples.Prelude.{
  ◌∙◌, ℕ, zero, suc, ◌<◌, ◌≡◌, refl, ap, arith, List, [], ◌∷◌, ◌++◌, length, append_assoc,
  append-nil, sym,
}
use cpp20examples.Prelude.Exec.{Exec, ok}
use cpp20examples.Prelude.Int.{pos, ℤ}
use cpp20examples.Coroutine.{Item}
use cpp20examples.Logged.{leave, enter, call, numbers, Log, numbers_before}
use cpp20examples.Logged.Task.{run, final_suspended, suspended, Frame}
use cpp20examples.Logged.Programs.{
  report, unsuspended_main, suspended_main, unsuspended, yields, suspended_loop, report_all,
}

-- The coroutine at its end, with what it has returned and yielded.
abbrev ended_with : ℤ → ℤ → List ℤ → List (ℕ × List Item) → Exec (Frame × Log)
ended_with r w ys ls = ok (
  final_suspended (record { returned_value = r; awaited_value = w; yielded = ys }),
  record { indent = 1; lines = ls },
)

ended_with-congr :
    (r w : ℤ) (ys zs : List ℤ) (ls : List (ℕ × List Item))
    → ys ≡ zs
    → ended_with r w ys ls ≡ ended_with r w zs ls
ended_with-congr r w ys zs ls e = ap (λ (xs : List ℤ). ended_with r w xs ls) e

-- The loop that resumes reports the value that `f` has stopped at, and the others.
suspended_loop_lem :
    (vs : List ℤ) (fuel : ℕ) (v q w r : ℤ) (ls : List (ℕ × List Item))
    → length vs < fuel
    → (y : List ℤ) × (l' : List (ℕ × List Item)) × (suspended_loop fuel (
      suspended (yields vs r) (record { returned_value = q; awaited_value = w; yielded = v ∷ [] }),
      record { indent = 2; lines = ls },
    )
        ≡ ended_with r w y l')
      × ((acc : List ℤ) → numbers_before acc l' ≡ numbers_before (v ∷ vs ++ acc) ls)
unfolding suspended_loop
suspended_loop_lem vs zero v q w r ls h = absurd (omega arith)
suspended_loop_lem [] (suc fuel) v q w r ls h = (v ∷ [], _, refl, λ acc. refl)
suspended_loop_lem (u ∷ vs) (suc fuel) v q w r ls h =
    suspended_loop_lem vs fuel u q w r _ (omega (arith, h))

-- `f` runs to its end, and the queue keeps its values.
run_lem :
    (vs us : List ℤ) (q w r : ℤ) (ls : List (ℕ × List Item))
    → (l' : List (ℕ × List Item)) × (run unsuspended
          (yields vs r)
          (record { returned_value = q; awaited_value = w; yielded = us })
          (record { indent = 2; lines = ls })
        ≡ ended_with r w (us ++ vs) l')
      × ((acc : List ℤ) → numbers_before acc l' ≡ numbers_before acc ls)
unfolding run
run_lem [] us q w r ls =
    (_, ended_with-congr r w us (us ++ []) _ (sym (append-nil us)), λ acc. refl)
run_lem (v ∷ vs) us q w r ls =
    let (l', ran, shown) = run_lem vs (us ++ v ∷ []) q w r _ in
    (l', ran ∙ ended_with-congr r w _ _ l' (append_assoc us (v ∷ []) vs), shown)

report_all-lines :
    (vs : List ℤ) (ls : List (ℕ × List Item)) (i : ℕ)
    → (l' : List (ℕ × List Item)) × (report_all vs (record { indent = i; lines = ls })
        ≡ record { indent = i; lines = l' })
      × ((acc : List ℤ) → numbers_before acc l' ≡ numbers_before (vs ++ acc) ls)
report_all-lines [] ls i = (ls, refl, λ acc. refl)
report_all-lines (v ∷ vs) ls i = report_all-lines vs _ i

-- Where the body of `f` starts.
abbrev started : List (ℕ × List Item)
started =
    (enter "f" (
      call "initial_suspend"
        (call "get_return_object" (enter "main" (record { indent = 0; lines = [] }))))).lines

-- For a coroutine that yields one or more values and returns one, with fuel for each value: both
-- programs succeed, end with `indent` 0, and print all the values in order and then the one returned.
-- The one with the queue prints the number of the values before them.
pub same_values :
    (v r : ℤ) (vs : List ℤ) (fuel : ℕ)
    → length vs < fuel
    → ((l : Log) × (suspended_main fuel (yields (v ∷ vs) r) ≡ ok l)
        × (l.indent ≡ 0)
        × (numbers l ≡ v ∷ vs ++ r ∷ []))
      × ((l : Log) × (unsuspended_main fuel (yields (v ∷ vs) r) ≡ ok l)
          × (l.indent ≡ 0)
          × (numbers l ≡ pos (length (v ∷ vs)) ∷ v ∷ vs ++ r ∷ []))
unfolding suspended_main unsuspended_main
same_values v r vs zero h = absurd (omega arith)
same_values v r vs (suc fuel) h =
    let (y, l1, ran1, shown1) =
      suspended_loop_lem vs (suc fuel) v (pos 0) (pos 0) r
        ((call "yield_value" (record { indent = 2; lines = started })).lines) h in
    let (l2, ran2, shown2) = run_lem (v ∷ vs) [] (pos 0) (pos 0) r started in
    let (l3, ran3, shown3) =
      report_all-lines (v ∷ vs)
        (report "Yielded values count: " (pos (length (v ∷ vs)))
          (record { indent = 1; lines = l2 })).lines
        1 in
    let returned : List (ℕ × List Item) → Log =
      λ ls. leave "main" (report "ReturnedValue " r (record { indent = 1; lines = ls })) in
    (
      (returned l1, rw ran1 refl, refl, shown1 (r ∷ [])),
      (returned l3, rw (ran2, ran3) refl, refl, shown3 (r ∷ []) ∙ shown2 _),
    )
