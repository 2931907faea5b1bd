-- ===== src/Generator/Elements.antt =====
-- concurrency/coroutineGetElements.cpp: `main` counts on its own how many values to take.
use cpp20examples.Prelude.{
  ℕ, zero, suc, ◌+◌, ◌≤◌, ◌≡◌, refl, arith, List, [], ◌∷◌, ◌++◌, Option, none, some, length,
}
use cpp20examples.Prelude.Exec.{Exec, ok, undefined, ◌>>=◌}
use cpp20examples.Coroutine.{suspended}
use cpp20examples.Generator.{Gen, created, resume, read, yields}

-- `Generator<T>` with its promise type
abbrev pub Generator : Type 0 → Type 0
Generator A = Gen A

module _ {A : Type 0} where
  -- `getNextValue()`
  abbrev pub get_next_value : Generator A → Exec (A × Generator A)
  get_next_value g = resume g >>= λ g'. read g' >>= λ a. ok (a, g')

  -- `getNext(cont)`
  abbrev pub get_next : List A → Generator A
  get_next cont = created (yields cont)

  -- A loop of `main`: the values that `n` calls of `getNextValue` give.
  unfoldable pub take_values : ℕ → Generator A → Exec (List A)
  take_values zero g = ok []
  take_values (suc n) g = do (a, g') ← get_next_value g; l ← take_values n g'; ok (a ∷ l)

  -- The first `n` elements.
  abbrev pub take : ℕ → List A → List A
  take zero l = []
  take (suc n) [] = []
  take (suc n) (x ∷ l) = x ∷ take n l

  -- The last element, or what is given for the empty list.
  abbrev pub last : A → List A → A
  last a [] = a
  last a (x ∷ l) = last x l

  take_values-within :
      (n : ℕ) (l : List A) (c : Option A)
      → n ≤ length l
      → take_values n (record { frame = suspended (yields l); current = c }) ≡ ok (take n l)
  unfolding take_values
  take_values-within zero l c h = refl
  take_values-within (suc n) [] c h = absurd (omega arith)
  take_values-within (suc n) (x ∷ l) c h = rw (take_values-within n l (some x) (omega arith)) refl

  take_values-one_more :
      (a : A) (l : List A)
      → take_values (suc (length l)) (record { frame = suspended (yields l); current = some a })
        ≡ ok (l ++ last a l ∷ [])
  unfolding take_values
  take_values-one_more a [] = refl
  take_values-one_more a (x ∷ l) = rw (take_values-one_more x l) refl

  take_values-beyond :
      (n : ℕ) (l : List A) (c : Option A)
      → length l + 2 ≤ n
      → take_values n (record { frame = suspended (yields l); current = c }) ≡ undefined
  unfolding take_values
  take_values-beyond zero l c h = absurd (omega arith)
  take_values-beyond (suc zero) l c h = absurd (omega arith)
  take_values-beyond (suc (suc n)) [] (some a) h = refl
  take_values-beyond (suc (suc n)) [] none h = refl
  take_values-beyond (suc (suc n)) (x ∷ l) c h =
      rw (take_values-beyond (suc n) l (some x) (omega arith)) refl

  one_more :
      (n : ℕ) (l : List A) (a : A) (m : List A)
      → l ≡ a ∷ m
      → n ≡ suc (length l)
      → take_values n (get_next l) ≡ ok (l ++ last a m ∷ [])
  unfolding take_values
  one_more n l a m e k = rw (k, e, take_values-one_more a m) refl

  -- Up to the length of the container `n` calls give its first `n` elements; one call more gives the
  -- last element again, if the container is not empty, since the coroutine runs to its end and leaves
  -- `current_value`; any call after that is undefined.
  pub take_values_lem :
      (n : ℕ) (l : List A)
      → (n ≤ length l → take_values n (get_next l) ≡ ok (take n l))
        × ((a : A) (m : List A)
            → l ≡ a ∷ m
            → n ≡ suc (length l)
            → take_values n (get_next l) ≡ ok (l ++ last a m ∷ []))
        × (length l + 2 ≤ n → take_values n (get_next l) ≡ undefined)
  take_values_lem n l = (
    λ h. take_values-within n l _ h,
    λ a m e k. one_more n l a m e k,
    λ h. take_values-beyond n l _ h,
  )
