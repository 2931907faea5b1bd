-- ===== src/ActiveObject/Tests.antt =====
-- Two clients whose tasks are enqueued in turn, and the theorem at their last state.
use cpp20examples.Prelude.{ℕ, zero, suc, ◌<◌, ◌≡◌, refl, arith, true, false, List, [], ◌∷◌}
use cpp20examples.Prelude.Exec.{ok, undefined}
use cpp20examples.Steps.{Reach, start, later}
use cpp20examples.Threads.{System, pick}
use cpp20examples.ActiveObject.{
  no_divisor, is_prime, ActiveObject, Client, enqueue, init, MainStep, Output, main_ends,
}
use cpp20examples.ActiveObject.Results.{All, IsOutput}
use cpp20examples.ActiveObject.Servant.{InRange}
use cpp20examples.ActiveObject.Order.{all_numbers, active_object_output}

is_prime_91 : is_prime 91 91 ≡ ok (false, 91)
unfolding is_prime
is_prime_91 = refl

is_prime_97 : is_prime 97 97 ≡ ok (true, 97)
unfolding is_prime
is_prime_97 = refl

-- The square of 46341 is beyond `int`.
square_beyond_int : no_divisor 1 2147483647 46341 ≡ undefined
unfolding no_divisor
square_beyond_int = refl

abbrev two_clients : ℕ → List ℕ
two_clients zero = 7 ∷ 4 ∷ []
two_clients (suc zero) = 3 ∷ []
two_clients _ = []

two_clients-InRange : (i : ℕ) → All InRange (two_clients i)
two_clients-InRange zero = ((omega arith, omega arith), ((omega arith, omega arith), tt))
two_clients-InRange (suc zero) = ((omega arith, omega arith), tt)
two_clients-InRange (suc (suc i)) = tt

abbrev in_turn : (s : System ActiveObject Client) × Reach (MainStep 2) (init two_clients) s
in_turn = (
  _,
  later (later (later start (pick 0 (omega arith) enqueue)) (pick 1 (omega arith) enqueue))
      (pick 0 (omega arith) enqueue),
)

all_enqueued : (i : ℕ) → i < 2 → (in_turn.0.pc i).remaining ≡ []
all_enqueued zero h = refl
all_enqueued (suc zero) h = refl
all_enqueued (suc (suc i)) h = absurd (omega arith)

output_run : main_ends 4 2 in_turn.0 ≡ ok (record { no_primes = 4 ∷ []; primes = 3 ∷ 7 ∷ [] })
unfolding main_ends
output_run = refl

active_object_output_example :
    (o : Output) × (main_ends 4 2 in_turn.0 ≡ ok o) × IsOutput (all_numbers two_clients 2) o
active_object_output_example =
    active_object_output 2 two_clients 4 two_clients-InRange in_turn.1 all_enqueued (omega arith)
