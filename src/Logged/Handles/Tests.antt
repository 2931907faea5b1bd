-- ===== src/Logged/Handles/Tests.antt =====
-- The run of `main`, and the theorem where a coroutine has been moved and its variable destroyed.
use cpp20examples.Prelude.{◌<◌, refl, arith, ◌≡◌, false}
use cpp20examples.Prelude.Exec.{ok, ◌>>=◌}
use cpp20examples.Steps.{Reach, start, later}
use cpp20examples.Logged.Handles.{
  ℕ, Operation, State, no_object, create, construct, move_assign, destruct, step, main, init,
}
use cpp20examples.Logged.Handles.Unique.{Scoped, Made, unique_handles}

-- At the end both frames are gone.
main_run : (main >>= λ s. ok (s.live 0)) ≡ ok false
unfolding main
main_run = refl

other_frame : (main >>= λ s. ok (s.live 1)) ≡ ok false
unfolding main
other_frame = refl

abbrev one_made : (s : State) × Reach (Made 2) init s
unfolding step
one_made = (_, later start (create 0 5, (omega arith, refl, refl), refl))

abbrev moved_on : (s : State) × Reach (Made 2) init s
unfolding step
moved_on = (
  _,
  later
      (later (later one_made.1 (construct 1, (omega arith, refl), refl))
        (move_assign 1 0, (omega arith, omega arith, tt, tt), refl))
      (destruct 0, (omega arith, tt), refl),
)

unique_handles_example :
    ((o : Operation) → Scoped 2 o moved_on.0 → (s' : State) × (step o moved_on.0 ≡ ok s'))
    × (((x : ℕ) → x < 2 → moved_on.0.slots x ≡ no_object) → (h : ℕ) → moved_on.0.live h ≡ false)
unique_handles_example = unique_handles moved_on.1
