-- ===== src/Logged/Handles.antt =====
-- coroutines/basic_examples/co_return_custom_handle/main.cpp: the class `UniqueCoroHandle` over
-- `std::coroutine_handle`, whose destructor and move assignment destroy the coroutine. What the
-- coroutine logs plays no part here.
pub mod Unique
mod Tests
use cpp20examples.Prelude.{
  ℕ, ◌==◌, ◌≡◌, ◌<◌, if◌then◌else◌, Bool, true, false, List, [], ◌∷◌, Option, none, some,
}
use cpp20examples.Prelude.Exec.{Exec, ok, undefined, ◌>>=◌}
use cpp20examples.Coroutine.{write}

-- A variable of type `UniqueCoroHandle`, which holds the address of a frame or null while it lives.
pub data Slot : Type 0 where
  no_object : Slot
  holding : Option ℕ → Slot

-- The variables, by number, and the frames that are there, by address.
pub record State : Type 0 where
  pub slots : ℕ → Slot
  pub live : ℕ → Bool

-- What a program does with the variables: `create x h` constructs one from a new coroutine at the
-- address `h`.
pub data Operation : Type 0 where
  create : ℕ → ℕ → Operation
  construct destruct : ℕ → Operation
  move_construct move_assign : ℕ → ℕ → Operation

-- `if (*this) this->destroy();`, which is undefined where there is no frame.
abbrev pub destroy : Option ℕ → (ℕ → Bool) → Exec (ℕ → Bool)
destroy none live = ok live
destroy (some h) live = if live h then ok (write live h false) else undefined

-- `operator==` of handles
abbrev pub same : Option ℕ → Option ℕ → Bool
same none none = true
same none (some k) = false
same (some h) none = false
same (some h) (some k) = h == k

-- The constructors; two objects cannot be one variable.
abbrev pub constructed : ℕ → Option ℕ → Slot → State → Exec State
constructed x a no_object s = ok (record s { slots = write s.slots x (holding a) })
constructed x a (holding b) s = undefined

-- The move constructor, by `std::exchange`.
abbrev pub moved : ℕ → ℕ → Slot → State → Exec State
moved x y no_object s = undefined
moved x y (holding b) s =
    constructed x b (s.slots x) (record s { slots = write s.slots y (holding none) })

-- `operator=`
abbrev pub assigned : ℕ → ℕ → Slot → Slot → State → Exec State
assigned x y (holding a) (holding b) s =
    let changed = destroy a s.live >>= λ live'.
    ok (record { slots = write (write s.slots y (holding none)) x (holding b); live = live' }) in
    if same a b then ok s else changed
assigned x y _ _ s = undefined

-- `~ScopedCoroHandle`
abbrev pub destructed : ℕ → Slot → State → Exec State
destructed x no_object s = undefined
destructed x (holding a) s =
    destroy a s.live >>= λ live'. ok (record { slots = write s.slots x no_object; live = live' })

unfoldable pub step : Operation → State → Exec State
step (create x h) s =
    let s' : State = record s { live = write s.live h true } in
    if s.live h then undefined else constructed x (some h) (s.slots x) s'
step (construct x) s = constructed x none (s.slots x) s
step (destruct x) s = destructed x (s.slots x) s
step (move_construct x y) s = moved x y (s.slots y) s
step (move_assign x y) s = assigned x y (s.slots x) (s.slots y) s

unfoldable pub run : List Operation → State → Exec State
unfolding step
run [] s = ok s
run (o ∷ os) s = step o s >>= run os

-- No variable and no frame.
abbrev pub init : State
init = record { slots = λ x. no_object; live = λ h. false }

-- `main`: `task` is variable 0, to which `task2` refers, `task3` variable 1 and `task4` variable 2.
unfoldable pub main : Exec State
unfolding run
main =
    run
      (create 0 0
        ∷ construct 1
        ∷ move_assign 1 0
        ∷ move_assign 1 1
        ∷ create 2 1
        ∷ move_assign 1 2
        ∷ destruct 2
        ∷ destruct 1
        ∷ destruct 0
        ∷ [])
      init
