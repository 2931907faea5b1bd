-- ===== src/Nested/Recursion/Calls.antt =====
-- The steps do what calls of functions would do.
use cpp20examples.Prelude.{
  ℕ, zero, suc, ◌+◌, ◌-◌, ◌≤◌, ◌<◌, ◌≡◌, refl, ap, arith, true, Bool-cases, inl, inr, List, [], ◌∷◌,
  ◌++◌, append_assoc,
}
use cpp20examples.Prelude.Exec.{Exec, ok, undefined, out_of_fuel, ◌>>=◌}
use cpp20examples.Prelude.Int.{ℤ, pos, ◌-ℤ◌, ltb_ℤ, pos_part}
use cpp20examples.Coroutine.{Item, text, Body, finish, await}
use cpp20examples.Nested.Recursion.{
  Call, fun1, fun2, fun3, body1, body2, body3, body_of, run_machine,
}

-- The line that `main` prints after each step but the last.
abbrev pub step_line : Item
step_line = text "Next step in the SM"

-- What is printed if a `co_await` is a call of a function, with the line of `main` at each call and at
-- each return, and the number of steps.
pub data Prints : Body Call → List Item → ℕ → Type 0 where
  at_end : {out : List Item} → Prints (finish out) out 1
  at_call :
      {out l l' : List Item} {c : Call} {k : Body Call} {n n' : ℕ}
      → Prints (body_of c) l n
      → Prints k l' n'
      → Prints (await out c k) (out ++ step_line ∷ (l ++ step_line ∷ l')) (1 + n + n')

-- The run of the chain when its deepest coroutine has ended.
abbrev go_on : List Item → ℕ → List (Body Call) → Exec (List Item)
go_on l fuel [] = ok l
go_on l fuel (k ∷ chain) = run_machine fuel (k ∷ chain) >>= λ l'. ok (l ++ step_line ∷ l')

with_rest :
    (r : Exec (List Item)) (out l l' : List Item)
    → (r
        >>= (λ x. ok (l' ++ step_line ∷ x))
        >>= (λ x. ok (l ++ step_line ∷ x))
        >>= (λ x. ok (out ++ step_line ∷ x)))
      ≡ (r >>= λ x. ok ((out ++ step_line ∷ (l ++ step_line ∷ l')) ++ step_line ∷ x))
with_rest (ok x) out l l' = ap ok (simp append_assoc)
with_rest undefined out l l' = refl
with_rest out_of_fuel out l l' = refl

joined :
    (rest : ℕ) (chain : List (Body Call)) (out l l' : List Item)
    → (go_on l' rest chain >>= (λ x. ok (l ++ step_line ∷ x)) >>= (λ x. ok (out ++ step_line ∷ x)))
      ≡ go_on (out ++ step_line ∷ (l ++ step_line ∷ l')) rest chain
joined rest [] out l l' = refl
joined rest (k ∷ chain) out l l' = with_rest (run_machine rest (k ∷ chain)) out l l'

Prints-run_machine :
    {b : Body Call} {l : List Item} {n : ℕ} (fuel rest : ℕ) (chain : List (Body Call))
    → Prints b l n
    → fuel ≡ n + rest
    → run_machine fuel (b ∷ chain) ≡ go_on l rest chain
unfolding run_machine
Prints-run_machine zero rest chain at_end e = absurd (omega arith)
Prints-run_machine zero rest chain (at_call p p') e = absurd (omega arith)
Prints-run_machine (suc fuel) rest [] at_end e = refl
Prints-run_machine (suc fuel) rest (k ∷ chain) at_end e =
    let same : fuel ≡ rest = omega arith in rw same refl
Prints-run_machine (suc fuel) rest chain (at_call {out} {l} {l'} {c} {k} {n} {n'} p p') e =
    rw
      (
        Prints-run_machine fuel (n' + rest) (k ∷ chain) p (omega arith),
        Prints-run_machine (n' + rest) rest chain p' refl,
      )
      (joined rest chain out l l')

-- A run of a call as of a function.
abbrev Ends : Body Call → Type 0
Ends b = (l : List Item) × (n : ℕ) × Prints b l n

Ends-finish : (out : List Item) → Ends (finish out)
Ends-finish out = (out, 1, at_end)

Ends-await :
    {out : List Item} {c : Call} {k : Body Call} → Ends (body_of c) → Ends k → Ends (await out c k)
Ends-await (l, n, p) (l', n', p') = (_, _, at_call p p')

not_positive : (m : ℕ) (n : ℤ) → ltb_ℤ (pos m) n ≡ true → ¬ (pos_part n ≤ 0)
not_positive m n e h = ground arith

-- A positive number gets smaller, so the calls end.
falls :
    (k m d : ℕ) (n : ℤ)
    → ltb_ℤ (pos m) n ≡ true
    → 0 < d
    → pos_part n ≤ suc k
    → pos_part (n -ℤ pos d) ≤ k
unfolding ◌-ℤ◌
falls k m d n e p h = ground arith

falls_on : (k d : ℕ) (n : ℤ) → pos_part n ≤ k → pos_part (n -ℤ pos d) ≤ k
unfolding ◌-ℤ◌
falls_on k d n h = ground arith

body3-Ends : (k : ℕ) (n : ℤ) → pos_part n ≤ k → Ends (body3 n)
unfolding body3
body3-Ends zero n h = elim (Bool-cases (ltb_ℤ (pos 0) n)) [
  | inr e ↦ rw e (Ends-finish _)
  | inl e ↦ absurd (not_positive 0 n e h)
]
body3-Ends (suc k) n h = elim (Bool-cases (ltb_ℤ (pos 0) n)) [
  | inr e ↦ rw e (Ends-finish _)
  | inl e ↦
      rw e
        (Ends-await (body3-Ends k (n -ℤ pos 2) (falls k 0 2 n e (omega arith) h)) (Ends-finish _))
]

body2-Ends : (n : ℤ) → Ends (body1 (n -ℤ pos 2)) → Ends (body2 n)
unfolding body2
body2-Ends n first =
    Ends-await first (Ends-await (body3-Ends (pos_part n) n (omega arith)) (Ends-finish _))

body1-Ends : (k : ℕ) (n : ℤ) → pos_part n ≤ k → Ends (body1 n)
unfolding body1
body1-Ends zero n h = elim (Bool-cases (ltb_ℤ (pos 3) n)) [
  | inr e ↦ rw e (Ends-await (body3-Ends 7 (pos 7) (omega arith)) (Ends-finish _))
  | inl e ↦ absurd (not_positive 3 n e h)
]
body1-Ends (suc k) n h = elim (Bool-cases (ltb_ℤ (pos 3) n)) [
  | inr e ↦ rw e (Ends-await (body3-Ends 7 (pos 7) (omega arith)) (Ends-finish _))
  | inl e ↦ rw e (
      Ends-await
        (body2-Ends (n -ℤ pos 3) (
          body1-Ends k (n -ℤ pos 3 -ℤ pos 2)
            (falls_on k 2 (n -ℤ pos 3) (falls k 3 3 n e (omega arith) h))))
        (Ends-finish _))
]

call-Ends : (c : Call) → Ends (body_of c)
call-Ends (fun1 n) = body1-Ends (pos_part n) n (omega arith)
call-Ends (fun2 n) = body2-Ends n (body1-Ends (pos_part (n -ℤ pos 2)) (n -ℤ pos 2) (omega arith))
call-Ends (fun3 n) = body3-Ends (pos_part n) n (omega arith)

-- The loop of `main` over a call of any of the three coroutines ends, given enough fuel, and prints what
-- the call would print if each `co_await` were a call of a function, with the line of `main` at each
-- call and at each return.
pub run_machine_lem :
    (c : Call)
    → (l : List Item) × (n : ℕ) × Prints (body_of c) l n
      × ((fuel : ℕ) → n ≤ fuel → run_machine fuel (body_of c ∷ []) ≡ ok l)
run_machine_lem c =
    let (l, n, p) = call-Ends c in
    (l, n, p, λ fuel h. Prints-run_machine fuel (fuel - n) [] p (omega arith))
