-- ===== src/Nested/Async/Meaning.antt =====
-- What the code means as a function, and how the chain of coroutines and the output change.
use cpp20examples.Prelude.{
  ℕ, suc, ◌+◌, ◌≡◌, refl, sym, ap, ◌∙◌, subst, Bool, true, false, Bool-cases, inl, inr, List, [],
  ◌∷◌, ◌++◌, append_assoc,
}
use cpp20examples.Prelude.Exec.{Exec, ok, undefined, out_of_fuel, ◌>>=◌}
use cpp20examples.Prelude.Int.{ℤ}
use cpp20examples.Coroutine.{Item}
use cpp20examples.Nested.Async.{
  unlinked, Links, Code, println, get_data, get_call_stack, co_await, co_return, Promise,
  has_scheduler, propagate, Outcome, finished, waiting, printed_before, resume, feed,
}

-- A code as a function that reads the data, prints, and returns a value; with a number of steps.
pub data Evals : Code → List ℤ → List Item → ℤ → ℕ → Type 0 where
  prints :
      {out out' : List Item} {c : Code} {js : List ℤ} {v : ℤ} {n : ℕ}
      → Evals c js out' v n
      → Evals (println out c) js (out ++ out') v (suc n)
  reads :
      {k : ℤ → Code} {j v : ℤ} {js : List ℤ} {out : List Item} {n : ℕ}
      → Evals (k j) js out v n
      → Evals (get_data k) (j ∷ js) out v (suc n)
  looks :
      {c : Code} {js : List ℤ} {out : List Item} {v : ℤ} {n : ℕ}
      → Evals c js out v n
      → Evals (get_call_stack c) js out v (suc n)
  calls :
      {child : Code} {k : ℤ → Code} {js js' : List ℤ} {out out' : List Item} {v v' : ℤ} {n n' : ℕ}
      → Evals child js out v n
      → Evals (k v) js' out' v' n'
      → Evals (co_await child k) (js ++ js') (out ++ out') v' (suc (n + n'))
  returns : {v : ℤ} → Evals (co_return v) [] [] v 1

-- The outermost task has a scheduler.
abbrev pub Rooted : Bool → List Promise → Type 0
Rooted s [] = s ≡ true
Rooted s (p ∷ parents) = Rooted p.scheduler parents

-- The same coroutines, up to their schedulers.
abbrev pub Same : List Promise → List Promise → Type 0
Same [] [] = Unit {0}
Same (p ∷ ps) (q ∷ qs) = (p.goes_on ≡ q.goes_on) × (p.links ≡ q.links) × Same ps qs
Same _ _ = ⊥

pub Same-self : (ps : List Promise) → Same ps ps
Same-self [] = tt
Same-self (p ∷ ps) = (refl, refl, Same-self ps)

pub Rooted-has_scheduler :
    (s : Bool) (l : Links) (k : ℤ → Code) (parents : List Promise)
    → Rooted s parents
    → has_scheduler (record { scheduler = s; links = l; goes_on = k } ∷ parents) ≡ true
Rooted-has_scheduler true l k parents h = refl
Rooted-has_scheduler false l k [] h = cc
Rooted-has_scheduler false l k (p ∷ parents) h =
    Rooted-has_scheduler p.scheduler p.links p.goes_on parents h

-- The parents after `GetData` has given them the scheduler.
abbrev pub above : Bool → List Promise → List Promise
above true parents = parents
above false parents = propagate parents

Same-propagate : (ps : List Promise) → Same ps (propagate ps)
Same-propagate [] = tt
Same-propagate (p ∷ ps) = elim (Bool-cases p.scheduler) [
  | inl e ↦ simp e (refl, refl, Same-self ps)
  | inr e ↦ simp e (refl, refl, Same-propagate ps)
]

pub Same-above : (s : Bool) (ps : List Promise) → Same ps (above s ps)
Same-above true ps = Same-self ps
Same-above false ps = Same-propagate ps

pub Rooted-above : (s : Bool) (ps : List Promise) → Rooted s ps → Rooted true (above s ps)
Rooted-above true [] h = refl
Rooted-above true (p ∷ ps) h = h
Rooted-above false [] h = cc
Rooted-above false (p ∷ ps) h = elim (Bool-cases p.scheduler) [
  | inl e ↦ simp e h
  | inr e ↦ simp e (Rooted-above false ps (subst (λ (s : Bool). Rooted s ps) e h))
]

-- Every coroutine that waits finds a scheduler when it goes on.
abbrev pub RootedAll : List Promise → Type 0
RootedAll [] = Unit {0}
RootedAll (p ∷ ps) = Rooted p.scheduler ps

pub Rooted-RootedAll : (s : Bool) (ps : List Promise) → Rooted s ps → RootedAll ps
Rooted-RootedAll s [] h = tt
Rooted-RootedAll s (p ∷ ps) h = h

pub Same-trans : (ps qs rs : List Promise) → Same ps qs → Same qs rs → Same ps rs
Same-trans [] [] [] h k = tt
Same-trans [] [] (r ∷ rs) h k = absurd k
Same-trans [] (q ∷ qs) rs h k = absurd h
Same-trans (p ∷ ps) [] rs h k = absurd h
Same-trans (p ∷ ps) (q ∷ qs) [] h k = absurd k
Same-trans (p ∷ ps) (q ∷ qs) (r ∷ rs) h k = (h.0 ∙ k.0, h.1 ∙ k.1, Same-trans ps qs rs h.2 k.2)

-- What a child returns, given to the coroutine that waits for it.
abbrev pub return_to : ℕ → ℤ → List Promise → Exec Outcome
return_to fuel v [] = ok (finished [] v)
return_to fuel v (p ∷ parents) =
    resume fuel (p.goes_on v) false p.scheduler (unlinked p.links) parents

-- The links of a coroutine that runs, and of one that waits for another.
abbrev pub running_links : Links
running_links = record { parent = true; child = false; has_value = false }

abbrev pub waiting_links : Links
waiting_links = record { parent = true; child = true; has_value = false }

-- What is printed first, before the rest.
abbrev pub before : List Item → List Item × ℤ → Exec (List Item × ℤ)
before out (out', v) = ok (out ++ out', v)

pub before-before :
    (out out' : List Item) (e : Exec (List Item × ℤ))
    → (e >>= before out' >>= before out) ≡ (e >>= before (out ++ out'))
before-before out out' (ok (l, v)) =
    ap (λ (x : List Item). ok (x, v)) (sym (append_assoc out out' l))
before-before out out' undefined = refl
before-before out out' out_of_fuel = refl

pub before-nil : (e : Exec (List Item × ℤ)) → e ≡ (e >>= before [])
before-nil (ok (l, v)) = refl
before-nil undefined = refl
before-nil out_of_fuel = refl

module _ (fuel : ℕ) (out : List Item) where
  -- If it holds of every outcome it holds of a run.
  after_run :
      (js : List ℤ)
      → ((out' : List Item) (o : Outcome)
          → feed fuel (printed_before out' o) js ≡ (feed fuel o js >>= before out'))
      → (r : Exec Outcome) (out' : List Item)
      → (r >>= (λ o. ok (printed_before (out ++ out') o)) >>= (λ o. feed fuel o js))
        ≡ (r >>= (λ o. ok (printed_before out' o)) >>= (λ o. feed fuel o js) >>= before out)
  after_run js h (ok o) out' =
      h (out ++ out') o
      ∙ sym (before-before out out' (feed fuel o js))
      ∙ ap (λ (e : Exec (List Item × ℤ)). e >>= before out) (sym (h out' o))
  after_run js h undefined out' = refl
  after_run js h out_of_fuel out' = refl

pub feed-printed_before :
    (fuel : ℕ) (js : List ℤ) (out : List Item) (o : Outcome)
    → feed fuel (printed_before out o) js ≡ (feed fuel o js >>= before out)
unfolding feed
feed-printed_before fuel [] out (finished out' v) = refl
feed-printed_before fuel [] out (waiting out' chain) = refl
feed-printed_before fuel (j ∷ js) out (finished out' v) = refl
feed-printed_before fuel (j ∷ js) out (waiting out' []) = refl
feed-printed_before fuel (j ∷ js) out (waiting out' (p ∷ parents)) = elim (Bool-cases p.scheduler) [
  | inl e ↦ simp e (
      after_run fuel out js (feed-printed_before fuel js)
        (resume fuel (p.goes_on j) false true p.links parents) out')
  | inr e ↦ simp e refl
]
