-- ===== src/Nested/StateMachine/Calls.antt =====
-- The transfers of control do what calls of functions would do.
use cpp20examples.Prelude.{
  ap, ◌<◌, ℕ, zero, suc, ◌+◌, ◌≤◌, ◌≡◌, refl, sym, subst, ◌-◌, arith, true, false, Bool-cases, inl,
  inr, List, [], ◌∷◌, ◌++◌, append-nil, append_assoc,
}
use cpp20examples.Prelude.Exec.{Exec, ok, undefined, out_of_fuel, ◌>>=◌}
use cpp20examples.Prelude.Int.{ℤ, pos, ◌-ℤ◌, ltb_ℤ, pos_part}
use cpp20examples.Coroutine.{Item, text, num, Body, finish, await}
use cpp20examples.Nested.StateMachine.{
  Call, state1, state2, state3, body1, body2, body3, body_of, after, resume, start, suspended, done,
}

-- What a body prints if a `co_await` is a call of a function, with the number of transfers.
pub data Prints {C : Type 0} (program : C → Body C) : Body C → List Item → ℕ → Type 0 where
  at_end : {out : List Item} → Prints program (finish out) out 1
  at_call :
      {out l l' : List Item} {c : C} {k : Body C} {n n' : ℕ}
      → Prints program (program c) l n
      → Prints program k l' n'
      → Prints program (await out c k) (out ++ l ++ l') (1 + n + n')

module _ {C : Type 0} (program : C → Body C) where
  -- The run of the frames that wait.
  abbrev pub return_to : ℕ → List (Body C) → Exec (List Item × List (Body C))
  return_to fuel [] = ok ([], [])
  return_to fuel (k ∷ callers) = resume program fuel k callers

  joined :
      (r : Exec (List Item × List (Body C))) (out l l' : List Item)
      → (r >>= after l' >>= after l >>= after out) ≡ (r >>= after (out ++ l ++ l'))
  joined (ok (x, w)) out l l' =
      let result : List Item → Exec (List Item × List (Body C)) = λ y. ok (y, w) in
      ap result (simp append_assoc)
  joined undefined out l l' = refl
  joined out_of_fuel out l l' = refl

  pub Prints-resume :
      {b : Body C} {l : List Item} {n : ℕ} (fuel rest : ℕ) (callers : List (Body C))
      → Prints program b l n
      → fuel ≡ n + rest
      → resume program fuel b callers ≡ (return_to rest callers >>= after l)
  unfolding resume
  Prints-resume zero rest callers at_end e = absurd (omega arith)
  Prints-resume zero rest callers (at_call p p') e = absurd (omega arith)
  Prints-resume (suc fuel) rest [] (at_end {out}) e =
      let same : out ++ [] ≡ out = append-nil out in rw same refl
  Prints-resume (suc fuel) rest (k ∷ callers) at_end e =
      let same : fuel ≡ rest = omega arith in rw same refl
  Prints-resume (suc fuel) rest callers (at_call {out} {l} {l'} {c} {k} {n} {n'} p p') e =
      rw
        (
          Prints-resume fuel (n' + rest) (k ∷ callers) p (omega arith),
          Prints-resume (n' + rest) rest callers p' refl,
        )
        (joined (return_to rest callers) out l l')

-- A run of a call as of a function.
abbrev Ends : Body Call → Type 0
Ends b = (l : List Item) × (n : ℕ) × Prints body_of b l n

Ends-call :
    {b : Body Call} {out : List Item} {c : Call}
    → b ≡ await out c (finish [])
    → Ends (body_of c)
    → Ends b
Ends-call {out = out} e (l, n, p) = (
  out ++ l ++ [],
  1 + n + 1,
  subst (λ (x : Body Call). Prints body_of x (out ++ l ++ []) (1 + n + 1)) (sym e)
      (at_call p at_end),
)

Ends-finish : {b : Body Call} {out : List Item} → b ≡ finish out → Ends b
Ends-finish {out = out} e =
    (out, 1, subst (λ (x : Body Call). Prints body_of x out 1) (sym e) at_end)

body3_done : (n : ℤ) → ltb_ℤ (pos 0) n ≡ false → body3 n ≡ finish (text "State 3 " ∷ num n ∷ [])
unfolding body3
body3_done n e = rw e refl

body3_calls :
    (n : ℤ)
    → ltb_ℤ (pos 0) n ≡ true
    → body3 n ≡ await (text "State 3 " ∷ num n ∷ []) (state3 (n -ℤ pos 2)) (finish [])
unfolding body3
body3_calls n e = rw e refl

body1_calls2 :
    (n : ℤ)
    → ltb_ℤ (pos 3) n ≡ true
    → body1 n ≡ await (text "State 1 " ∷ num n ∷ []) (state2 (n -ℤ pos 3)) (finish [])
unfolding body1
body1_calls2 n e = rw e refl

body1_calls3 :
    (n : ℤ)
    → ltb_ℤ (pos 3) n ≡ false
    → body1 n ≡ await (text "State 1 " ∷ num n ∷ []) (state3 (pos 7)) (finish [])
unfolding body1
body1_calls3 n e = rw e refl

body2_calls :
    (n : ℤ) → body2 n ≡ await (text "State 2 " ∷ num n ∷ []) (state1 (n -ℤ pos 2)) (finish [])
unfolding body2
body2_calls n = refl

not_positive : (m : ℕ) (n : ℤ) → ltb_ℤ (pos m) n ≡ true → ¬ (pos_part n ≤ 0)
not_positive m n e h = ground arith

-- A positive number gets smaller, so the calls end.
falls :
    (k m d : ℕ) (n : ℤ)
    → ltb_ℤ (pos m) n ≡ true
    → 0 < d
    → pos_part n ≤ suc k
    → pos_part (n -ℤ pos d) ≤ k
unfolding ◌-ℤ◌
falls k m d n e p h = ground arith

falls_twice :
    (k m d d' : ℕ) (n : ℤ)
    → ltb_ℤ (pos m) n ≡ true
    → 0 < d
    → pos_part n ≤ suc k
    → pos_part (n -ℤ pos d -ℤ pos d') ≤ k
unfolding ◌-ℤ◌
falls_twice k m d d' n e p h = ground arith

body3-Ends : (k : ℕ) (n : ℤ) → pos_part n ≤ k → Ends (body3 n)
body3-Ends zero n h = elim (Bool-cases (ltb_ℤ (pos 0) n)) [
  | inr e ↦ Ends-finish (body3_done n e)
  | inl e ↦ absurd (not_positive 0 n e h)
]
body3-Ends (suc k) n h = elim (Bool-cases (ltb_ℤ (pos 0) n)) [
  | inr e ↦ Ends-finish (body3_done n e)
  | inl e ↦
      Ends-call (body3_calls n e) (body3-Ends k (n -ℤ pos 2) (falls k 0 2 n e (omega arith) h))
]

body1-Ends-small : (n : ℤ) → ltb_ℤ (pos 3) n ≡ false → Ends (body1 n)
body1-Ends-small n e = Ends-call (body1_calls3 n e) (body3-Ends 7 (pos 7) (omega arith))

body1-Ends : (k : ℕ) (n : ℤ) → pos_part n ≤ k → Ends (body1 n)
body1-Ends zero n h = elim (Bool-cases (ltb_ℤ (pos 3) n)) [
  | inr e ↦ body1-Ends-small n e
  | inl e ↦ absurd (not_positive 3 n e h)
]
body1-Ends (suc k) n h = elim (Bool-cases (ltb_ℤ (pos 3) n)) [
  | inr e ↦ body1-Ends-small n e
  | inl e ↦ Ends-call (body1_calls2 n e) (
      Ends-call (body2_calls (n -ℤ pos 3))
        (body1-Ends k (n -ℤ pos 3 -ℤ pos 2) (falls_twice k 3 3 2 n e (omega arith) h)))
]

call-Ends : (c : Call) → Ends (body_of c)
call-Ends (state1 n) = body1-Ends (pos_part n) n (omega arith)
call-Ends (state2 n) =
    Ends-call (body2_calls n) (body1-Ends (pos_part (n -ℤ pos 2)) (n -ℤ pos 2) (omega arith))
call-Ends (state3 n) = body3-Ends (pos_part n) n (omega arith)

-- Let the calls of a coroutine end, where each `co_await` is a call of a function, and the fuel be the
-- number of the transfers at least. Then `start` of the coroutine returns false with the coroutine done, so
-- every caller has been resumed, and it prints what the calls print, in their order; whatever the
-- coroutines of the program are, and what they do after a `co_await`.
pub start_lem :
    {C : Type 0} (program : C → Body C) (b : Body C) (l : List Item) (n fuel : ℕ)
    → Prints program b l n
    → n ≤ fuel
    → start program fuel (suspended b) ≡ ok (l, false, done)
unfolding start
start_lem program b l n fuel p h =
    rw (Prints-resume program fuel (fuel - n) [] p (omega arith), append-nil l) refl

-- Every call of one of the three coroutines ends: with enough fuel `start` returns false with the coroutine
-- done, and it prints what the call would print if each `co_await` were a call of a function.
pub calls_start :
    (c : Call)
    → (l : List Item) × (n : ℕ) × Prints body_of (body_of c) l n
      × ((fuel : ℕ) → n ≤ fuel → start body_of fuel (suspended (body_of c)) ≡ ok (l, false, done))
calls_start c =
    let (l, n, p) = call-Ends c in (l, n, p, λ fuel h. start_lem body_of (body_of c) l n fuel p h)
