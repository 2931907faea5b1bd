-- ===== src/Scheduler/Queue/Rounds.antt =====
-- A queue of scripts, served from the front and refilled at the back, is served round robin.
use cpp20examples.Prelude.{
  ℕ, ◌+◌, ◌≡◌, refl, ap, sym, ◌∙◌, List, [], ◌∷◌, ◌++◌, arith, length, append-nil, append_assoc,
}
use cpp20examples.Coroutine.{Item, Store, script}
use cpp20examples.Scheduler.Loop.{Trace}
use cpp20examples.Prelude.{map, ◌≤◌, zero, suc}
use cpp20examples.Prelude.{◌-◌}
use Prim.Native.Nat.add

-- A coroutine with what it has still to print.
abbrev pub Job : Type 0
Job = ℕ × List (List Item)

abbrev pub jobs : Store (Unit {0}) → List ℕ → List Job
jobs σ = map (λ h. (h, script σ h))

-- What each coroutine prints next, in order.
abbrev pub heads : List Job → Trace
heads [] = []
heads ((h, []) ∷ js) = heads js
heads ((h, s ∷ ss) ∷ js) = (h, s) ∷ heads js

-- What is left of those that are not done then.
abbrev pub tails : List Job → List Job
tails [] = []
tails ((h, []) ∷ js) = tails js
tails ((h, s ∷ []) ∷ js) = tails js
tails ((h, s ∷ s' ∷ ss) ∷ js) = (h, s' ∷ ss) ∷ tails js

-- Rounds in which each coroutine that is left is resumed once.
pub round_robin : ℕ → List Job → Trace
round_robin zero js = []
round_robin (suc n) js = heads js ++ round_robin n (tails js)

-- The queue on scripts alone.
unfoldable pub queue_run : ℕ → List Job → Trace
queue_run zero js = []
queue_run (suc f) [] = []
queue_run (suc f) ((h, []) ∷ js) = queue_run f js
queue_run (suc f) ((h, s ∷ []) ∷ js) = (h, s) ∷ queue_run f js
queue_run (suc f) ((h, s ∷ s' ∷ ss) ∷ js) = (h, s) ∷ queue_run f (js ++ (h, s' ∷ ss) ∷ [])

-- One round.
queue_run-round :
    (f : ℕ) (js ks : List Job)
    → queue_run (length js + f) (js ++ ks) ≡ heads js ++ queue_run f (ks ++ tails js)
unfolding queue_run
queue_run-round f [] ks = rw (append-nil, add.zero)
queue_run-round f ((h, []) ∷ js) ks = rw add.suc (queue_run-round f js ks)
queue_run-round f ((h, s ∷ []) ∷ js) ks =
    rw add.suc (ap (λ (t : Trace). (h, s) ∷ t) (queue_run-round f js ks))
queue_run-round f ((h, s ∷ s' ∷ ss) ∷ js) ks = rw add.suc (
    ap (λ (t : Trace). (h, s) ∷ t)
      (rw (append_assoc js ks ((h, s' ∷ ss) ∷ [])) (
        queue_run-round f js (ks ++ (h, s' ∷ ss) ∷ [])
        ∙ ap (λ (l : List Job). heads js ++ queue_run f l) (append_assoc ks _ _))))

abbrev pub size : List Job → ℕ
size [] = 0
size ((h, ss) ∷ js) = length ss + size js

abbrev pub Unfinished : List Job → Type 0
Unfinished [] = Unit
Unfinished ((h, ss) ∷ js) = (1 ≤ length ss) × Unfinished js

tails-Unfinished : (js : List Job) → Unfinished (tails js)
tails-Unfinished [] = tt
tails-Unfinished ((h, []) ∷ js) = tails-Unfinished js
tails-Unfinished ((h, s ∷ []) ∷ js) = tails-Unfinished js
tails-Unfinished ((h, s ∷ s' ∷ ss) ∷ js) = (omega arith, tails-Unfinished js)

size-tails : (js : List Job) → Unfinished js → size (tails js) + length js ≡ size js
size-tails [] u = omega arith
size-tails ((h, []) ∷ js) u = absurd (omega arith)
size-tails ((h, s ∷ []) ∷ js) u = omega (arith, size-tails js u.1)
size-tails ((h, s ∷ s' ∷ ss) ∷ js) u = omega (arith, size-tails js u.1)

empty_of_size : (js : List Job) → Unfinished js → size js ≤ 0 → js ≡ []
empty_of_size [] u m = refl
empty_of_size ((h, ss) ∷ js) u m = absurd (omega arith)

queue_run-nil : (f : ℕ) → queue_run f [] ≡ []
unfolding queue_run
queue_run-nil zero = refl
queue_run-nil (suc f) = refl

round_robin-nil : (n : ℕ) → round_robin n [] ≡ []
unfolding round_robin
round_robin-nil zero = refl
round_robin-nil (suc n) = round_robin-nil n

queue_run-split :
    (f : ℕ) (js : List Job)
    → length js ≤ f
    → queue_run f js ≡ heads js ++ queue_run (f - length js) (tails js)
queue_run-split f js m =
    ap (λ (k : ℕ). queue_run k js) (omega arith)
    ∙ ap (λ (l : List Job). queue_run (length js + (f - length js)) l) (sym (append-nil js))
    ∙ queue_run-round (f - length js) js []

pub queue_run-round_robin :
    (n f : ℕ) (js : List Job)
    → Unfinished js
    → size js ≤ n
    → size js ≤ f
    → queue_run f js ≡ round_robin n js
unfolding round_robin
queue_run-round_robin zero f js u m p = rw (empty_of_size js u m) (queue_run-nil f)
queue_run-round_robin (suc n) f [] u m p = queue_run-nil f ∙ sym (round_robin-nil n)
queue_run-round_robin (suc n) f (j ∷ js) u m p =
    queue_run-split f (j ∷ js) (omega (arith, size-tails (j ∷ js) u))
    ∙ ap (λ (t : Trace). heads (j ∷ js) ++ t)
        (queue_run-round_robin n (f - length (j ∷ js)) (tails (j ∷ js)) (tails-Unfinished (j ∷ js))
          (omega (arith, size-tails (j ∷ js) u)) (omega (arith, size-tails (j ∷ js) u)))
