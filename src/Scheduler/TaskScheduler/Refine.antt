-- ===== src/Scheduler/TaskScheduler/Refine.antt =====
-- The turns come to the same as those of the round-robin scheduler, with one test of the queue less.
use cpp20examples.Prelude.{
  ℕ, zero, suc, ◌==◌, ◌≡◌, ◌≢◌, ◌≤◌, refl, sym, ◌∙◌, arith, not, if◌then◌else◌, List, [], ◌∷◌, ◌++◌,
  Option, none, some, map, length, total, count,
}
use cpp20examples.Prelude.Exec.{Exec, ok, undefined, ◌>>=◌, >>=-ok}
use cpp20examples.Coroutine.{
  Item, Body, finish, await, Frame, suspended, final_suspended, Store, write, script, resume, done,
  destroy,
}
use cpp20examples.Coroutine.Laws.{first, next, write-write}
use cpp20examples.Scheduler.Loop.{Trace}
use cpp20examples.Scheduler.Loop
use cpp20examples.Scheduler.Loop.Complete.{IsRunnable}
use cpp20examples.Scheduler.Queue.Rounds.{round_robin}
use cpp20examples.Scheduler.Queue.Order.{queue_schedule_lem}
use cpp20examples.Scheduler.Queue
use cpp20examples.Scheduler.Queue.{tasks}
use cpp20examples.Scheduler.TaskScheduler.{is_empty, schedule, schedule_all}

-- The queue after a turn of a coroutine.
abbrev put_back : Body (Unit {0}) → ℕ → List ℕ → List ℕ
put_back (finish out) h q = q
put_back (await out a b) h q = q ++ h ∷ []

turn_at :
    (h : ℕ) (q : List ℕ) (σ : Store (Unit {0})) (b : Body (Unit {0}))
    → σ h ≡ some (suspended b)
    → Loop.turn tasks (λ i. i) h q σ ≡ ok (first b, put_back b h q, write σ h (next b))
unfolding Loop.turn resume done destroy
turn_at h q σ (finish out) e = rw e (ground (arith, write-write σ h (some final_suspended) none))
turn_at h q σ (await out tt b) e = rw e (ground arith)

-- A turn that succeeds is one of a suspended coroutine.
turn_suspended :
    (h : ℕ) (q : List ℕ) (σ : Store (Unit {0})) (f : Option (Frame (Unit {0})))
    (r : List Item × List ℕ × Store (Unit {0}))
    → σ h ≡ f
    → Loop.turn tasks (λ i. i) h q σ ≡ ok r
    → (b : Body (Unit {0})) × (σ h ≡ some (suspended b))
unfolding Loop.turn resume done destroy
turn_suspended h q σ none r e ran =
    let stuck : Loop.turn tasks (λ i. i) h q σ ≡ undefined = rw e refl in cc
turn_suspended h q σ (some final_suspended) r e ran =
    let stuck : Loop.turn tasks (λ i. i) h q σ ≡ undefined = rw e refl in cc
turn_suspended h q σ (some (suspended b)) r e ran = (b, e)

abbrev with_line : ℕ × List Item → Trace × Store (Unit {0}) → Exec (Trace × Store (Unit {0}))
with_line line (t, τ) = ok (line ∷ t, τ)

-- What comes after a turn, if the queue is not empty and if it is.
rest_of :
    (fuel : ℕ) (q : List ℕ) (σ τ : Store (Unit {0})) (line : ℕ × List Item) (t : Trace)
    → ((τ' : Store (Unit {0})) (t' : Trace)
        → q ≢ []
        → Loop.schedule tasks (λ i. i) (suc fuel) q σ ≡ ok (t', τ')
        → schedule_all fuel q σ ≡ ok (t', τ'))
    → (Loop.schedule tasks (λ i. i) (suc fuel) q σ >>= with_line line) ≡ ok (t, τ)
    → (if not (is_empty q) then (schedule_all fuel q σ >>= with_line line) else ok (line ∷ [], σ))
      ≡ ok (t, τ)
unfolding Loop.schedule
rest_of fuel [] σ τ line t ih ran = ran
rest_of fuel (x ∷ q) σ τ line t ih ran =
    let ((t', τ'), first_ran, e) =
      >>=-ok (Loop.schedule tasks (λ i. i) (suc fuel) (x ∷ q) σ) (with_line line) ran in
    rw (ih τ' t' cc first_ran) e

schedule_all_at :
    (fuel h : ℕ) (q : List ℕ) (σ : Store (Unit {0})) (b : Body (Unit {0}))
    → σ h ≡ some (suspended b)
    → schedule_all (suc fuel) (h ∷ q) σ ≡ (
        if not (is_empty (put_back b h q))
        then (schedule_all fuel (put_back b h q) (write σ h (next b)) >>= with_line (h, first b))
        else ok ((h, first b) ∷ [], write σ h (next b)))
unfolding schedule_all schedule resume done
schedule_all_at fuel h q σ (finish out) e = rw e refl
schedule_all_at fuel h q σ (await out tt b) e = rw e refl

loop_at :
    (fuel h : ℕ) (q : List ℕ) (σ : Store (Unit {0})) (b : Body (Unit {0}))
    → σ h ≡ some (suspended b)
    → Loop.schedule tasks (λ i. i) (suc fuel) (h ∷ q) σ ≡ (
        Loop.schedule tasks (λ i. i) fuel (put_back b h q) (write σ h (next b))
        >>= with_line (h, first b))
unfolding Loop.schedule
loop_at fuel h q σ b e = rw (turn_at h q σ b e) refl

no_fuel_left :
    (h : ℕ) (q : List ℕ) (σ : Store (Unit {0})) (r : Trace × Store (Unit {0}))
    → Loop.schedule tasks (λ i. i) 1 (h ∷ q) σ ≢ ok r
unfolding Loop.schedule
no_fuel_left h q σ r ran = let (s, turned, e) = >>=-ok (Loop.turn tasks (λ i. i) h q σ) _ ran in cc

schedule_all-schedule :
    (fuel : ℕ) (q : List ℕ) (σ τ : Store (Unit {0})) (t : Trace)
    → q ≢ []
    → Loop.schedule tasks (λ i. i) (suc fuel) q σ ≡ ok (t, τ)
    → schedule_all fuel q σ ≡ ok (t, τ)
unfolding Loop.schedule
schedule_all-schedule fuel [] σ τ t some_task ran = absurd (some_task refl)
schedule_all-schedule zero (h ∷ q) σ τ t some_task ran = absurd (no_fuel_left h q σ (t, τ) ran)
schedule_all-schedule (suc fuel) (h ∷ q) σ τ t some_task ran =
    let (s, turned, e) = >>=-ok (Loop.turn tasks (λ i. i) h q σ) _ ran in
    let (b, at_b) = turn_suspended h q σ (σ h) s refl turned in
    schedule_all_at fuel h q σ b at_b
    ∙ rest_of fuel (put_back b h q) (write σ h (next b)) τ (h, first b) t
        (λ τ' t'. schedule_all-schedule fuel (put_back b h q) (write σ h (next b)) τ' t')
        (sym (loop_at (suc fuel) h q σ b at_b) ∙ ran)

-- If `_tasks` is not empty, every handle in it is that of one coroutine suspended inside its body,
-- and the fuel is as much as the number of times that these have to be resumed, the loop of `main`
-- meets no undefined behaviour; the coroutines run in rounds, in each of which every coroutine that
-- is not done is resumed once, in the order of the queue; and exactly their frames are freed.
pub task_scheduler_lem :
    (q : List ℕ) (σ : Store (Unit {0})) (fuel : ℕ)
    → q ≢ []
    → IsRunnable q σ
    → total (λ h. length (script σ h)) q ≤ fuel
    → (τ : Store (Unit {0})) × (schedule_all fuel q σ
        ≡ ok (round_robin (suc fuel) (map (λ h. (h, script σ h)) q), τ))
      × ((h : ℕ) → τ h ≡ (if count h q == 0 then σ h else none))
unfolding Queue.schedule
task_scheduler_lem q σ fuel some_task ready m =
    let (τ, ran, freed) = queue_schedule_lem q σ (suc fuel) ready (omega (arith, m)) in
    (τ, schedule_all-schedule fuel q σ τ _ some_task ran, freed)
