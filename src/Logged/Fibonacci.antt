-- ===== src/Logged/Fibonacci.antt =====
-- The programs co_yield_alloc_heap, co_yield_alloc_stack and co_yield_alloc_pmr print the Fibonacci
-- numbers, and every logger that is made is destroyed.
use cpp20examples.Prelude.{ℕ, zero, suc, ◌+◌, ◌≤◌, ◌≡◌, List, [], ◌∷◌, true}
use cpp20examples.Prelude.Exec.{Exec}
use cpp20examples.Prelude.Int.{ℤ, pos}
use cpp20examples.Coroutine.{Item, text}
use cpp20examples.Logged.{enter, call, text, Item, Log}
use cpp20examples.Logged.Task.{resource, stack, Allocation}
use cpp20examples.Logged.Programs.{report}

-- The Fibonacci numbers, from 0.
abbrev pub fib : ℕ → ℕ
fib zero = 0
fib (suc zero) = 1
fib (suc (suc n)) = fib n + fib (suc n)

-- Some of them, from behind an index on, with `extra` added.
abbrev pub fibs : ℕ → ℕ → ℕ → List ℤ
fibs zero j extra = []
fibs (suc n) j extra = pos (fib (suc j) + extra) ∷ fibs n (suc j) extra

-- The buffer is large enough, and the memory resource is set.
abbrev pub Allocates : Allocation → ℕ → Type 0
Allocates (stack x y) size = size ≤ 200
Allocates (resource is_set) size = is_set ≡ true
Allocates _ size = Unit {0}

-- What `operator new` reports as the size.
abbrev pub sizes : Allocation → ℕ → List ℤ
sizes (stack x y) size = pos size ∷ []
sizes (resource is_set) size = pos size ∷ []
sizes _ size = []

-- From the end of `operator new` to the first value.
abbrev started : List (ℕ × List Item) → Log
started ls = report "YieldedValue " (pos 0) (
    call "yield_value" (
      enter "f"
        (call "initial_suspend" (call "get_return_object" (record { indent = 1; lines = ls })))))
