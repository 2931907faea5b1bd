-- ===== src/Scheduler/Queue/Order.antt =====
-- The queue runs the coroutines round robin.
use cpp20examples.Prelude.{
  ℕ, ◌+◌, ◌<◌, ◌≡◌, refl, ap, sym, ◌∙◌, ◌==◌, if◌then◌else◌, List, [], ◌∷◌, ◌++◌, Option, none,
  some, arith, length, total, count, total-append,
}
use cpp20examples.Coroutine.{Item, Store, script, Body, finish, await, suspended, write, segments}
use cpp20examples.Coroutine.Laws.{first, next, script-suspended}
use cpp20examples.Scheduler.Loop.{Trace, output_of}
use cpp20examples.Scheduler.Loop
use cpp20examples.Scheduler.Loop.Complete.{
  IsContainer, IsRunnable, schedule-Completes, after_first, popped-live, turn-IsReady, requeue,
}
use cpp20examples.Prelude.{map, ◌≤◌, zero, suc}
use cpp20examples.Coroutine.Laws.{segments-eq}
use cpp20examples.Prelude.Exec.{ok, ok-injective}
use cpp20examples.Coroutine.{Frame, script_of}
use cpp20examples.Scheduler.Queue.Rounds.{
  jobs, round_robin, queue_run, size, Unfinished, queue_run-round_robin,
}
use cpp20examples.Scheduler.Queue.{emplace, tasks, schedule}

pop_none : (q : List ℕ) → tasks.pop q ≡ none → q ≡ []
pop_none [] e = refl
pop_none (x ∷ q) e = cc

pop_some :
    (w : ℕ → ℕ) (q q' : List ℕ) (j : ℕ) → tasks.pop q ≡ some (j, q') → total w q ≡ w j + total w q'
pop_some w [] q' j e = cc
pop_some w (x ∷ q) q' j e = ground arith

tasks-IsContainer : IsContainer tasks
tasks-IsContainer = record {
  contents = λ q. q;
  pop_none = pop_none;
  pop_some = pop_some;
  push_total = λ w q h. omega (arith, total-append w q (h ∷ []));
}

jobs-write :
    (σ : Store (Unit {0})) (h : ℕ) (f : Option (Frame (Unit {0}))) (q : List ℕ)
    → count h q ≡ 0
    → jobs (write σ h f) q ≡ jobs σ q
jobs-write σ h f [] e = refl
jobs-write σ h f (x ∷ q) e = ground (arith, jobs-write σ h f q)

jobs-emplace :
    (σ : Store (Unit {0})) (h : ℕ) (b : Body (Unit {0})) (q : List ℕ)
    → count h q ≡ 0
    → jobs (write σ h (some (suspended b))) (emplace h q) ≡ jobs σ q ++ (h, segments b) ∷ []
jobs-emplace σ h b [] e = ground arith
jobs-emplace σ h b (x ∷ q) e = ground (arith, jobs-emplace σ h b q)

Runnable-Unfinished :
    (σ : Store (Unit {0})) (q : List ℕ)
    → ((h : ℕ) → count h q ≤ length (script σ h))
    → Unfinished (jobs σ q)
Runnable-Unfinished σ [] live = tt
Runnable-Unfinished σ (h ∷ q) live =
    (ground (arith, live h), Runnable-Unfinished σ q (λ k. omega (arith, live k)))

size-jobs :
    (σ : Store (Unit {0})) (q : List ℕ) → size (jobs σ q) ≡ total (λ h. length (script σ h)) q
size-jobs σ [] = refl
size-jobs σ (h ∷ q) = omega (arith, size-jobs σ q)

-- A turn of the coroutine at the front is a step of the queue on scripts.
turn-queue_run :
    (fuel h : ℕ) (q : List ℕ) (σ : Store (Unit {0})) (b : Body (Unit {0})) (t : Trace)
    → count h q ≡ 0
    → script σ h ≡ segments b
    → t
      ≡ queue_run fuel
          (jobs (write σ h (next b)) (requeue tasks (λ i. i) tasks-IsContainer (λ i. refl) b h q))
    → (h, first b) ∷ t ≡ queue_run (suc fuel) ((h, script σ h) ∷ jobs σ q)
unfolding queue_run
turn-queue_run fuel h q σ (finish out) t absent e ih =
    rw e
      (ap (λ (u : Trace). (h, out) ∷ u) (ih ∙ ap (queue_run fuel) (jobs-write σ h none q absent)))
turn-queue_run fuel h q σ (await out a b) t absent e ih =
    rw (e, segments-eq b)
      (ap (λ (u : Trace). (h, out) ∷ u)
        (ih
          ∙ ap (queue_run fuel) (
              jobs-emplace σ h b q absent
              ∙ ap (λ (ss : List (List Item)). jobs σ q ++ (h, ss) ∷ []) (segments-eq b))))

-- The run of the scheduler is that of the queue on scripts.
schedule-queue_run :
    (fuel : ℕ) (q : List ℕ) (σ τ : Store (Unit {0})) (t : Trace)
    → IsRunnable q σ
    → Loop.schedule tasks (λ h. h) fuel q σ ≡ ok (t, τ)
    → t ≡ queue_run fuel (jobs σ q)
unfolding queue_run Loop.schedule tasks-IsContainer
schedule-queue_run zero q σ τ t ready r = cc
schedule-queue_run (suc fuel) [] σ τ t ready r =
    sym (ap (λ (x : Trace × Store (Unit {0})). x.0) (ok-injective r))
schedule-queue_run (suc fuel) (h ∷ q) σ τ t ready r =
    let first_ready =
      popped-live tasks (λ i. i) tasks-IsContainer (λ i. refl) {q = h ∷ q} {q' = q} {j = h} refl
        {σ = σ} ready in
    let (b, at_b) = script-suspended σ h first_ready in
    let (t', ran, e) =
      after_first tasks (λ i. i) tasks-IsContainer (λ i. refl) fuel {q = h ∷ q} {q' = q} {j = h} σ τ
        b t refl at_b r in
    let absent : count h q ≡ 0 = ground (arith, ready.once h) in
    let ready' =
      turn-IsReady tasks (λ i. i) tasks-IsContainer (λ i. refl) {q = h ∷ q} {q' = q} {j = h} refl
        {σ = σ} ready b in
    e
    ∙ turn-queue_run fuel h q σ b t' absent (ap script_of at_b)
        (schedule-queue_run fuel _ _ τ t' ready' ran)

-- If every handle in the queue is that of one coroutine suspended inside its body, and the fuel is
-- more than the number of times that these have to be resumed, `schedule` meets no undefined
-- behaviour; the coroutines run in rounds, in each of which every coroutine that is not done is
-- resumed once, in the order of the queue; and exactly their frames are freed.
pub queue_schedule_lem :
    (q : List ℕ) (σ : Store (Unit {0})) (fuel : ℕ)
    → IsRunnable q σ
    → total (λ h. length (script σ h)) q < fuel
    → (τ : Store (Unit {0})) × (schedule fuel q σ
        ≡ ok (round_robin fuel (map (λ h. (h, script σ h)) q), τ))
      × ((h : ℕ) → τ h ≡ (if count h q == 0 then σ h else none))
unfolding schedule tasks-IsContainer
queue_schedule_lem q σ fuel ready m =
    let r = schedule-Completes tasks (λ i. i) tasks-IsContainer (λ i. refl) fuel q σ ready m in
    let in_rounds =
      schedule-queue_run fuel q σ r.store r.trace ready r.runs
      ∙ queue_run-round_robin fuel fuel (jobs σ q) (Runnable-Unfinished σ q ready.live)
          (omega (arith, size-jobs σ q)) (omega (arith, size-jobs σ q)) in
    (r.store, r.runs ∙ ap (λ (t : Trace). ok (t, r.store)) in_rounds, r.freed)
