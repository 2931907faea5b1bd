-- ===== src/Scheduler/Loop.antt =====
-- The member function `schedule` of the classes `Scheduler`: while there is a job, take one out,
-- resume its coroutine, and put it back or destroy it. The container, and the update of a job that
-- goes back, are parameters, as they are of the class template in
-- concurrency/problems/solutions/priority_queueSchedulerUpdatePriority.cpp.
pub mod Complete
pub mod RunToEnd
pub mod InOrder
use cpp20examples.Prelude.{ℕ, zero, suc, ◌==◌, if◌then◌else◌, List, [], ◌∷◌, Option, none, some}
use cpp20examples.Prelude.Exec.{Exec, ok, out_of_fuel, ◌>>=◌}
use cpp20examples.Coroutine.{Item, Suspend, suspend_always, Store, Resumed, resume, done, destroy}

pub record Container (J Q : Type 0) : Type 0 where
  pub push : J → Q → Q
  pub pop : Q → Option (J × Q)
  pub handle : J → ℕ

-- The lines printed, with the handle of the coroutine that printed them.
abbrev pub Trace : Type 0
Trace = List (ℕ × List Item)

-- The share of one coroutine in a trace.
abbrev pub output_of : ℕ → Trace → List (List Item)
output_of h [] = []
output_of h ((k, out) ∷ t) = if k == h then out ∷ output_of h t else output_of h t

module _ {A J Q : Type 0} (c : Container J Q) (update : J → J) where
  open c use {push, pop, handle}

  -- The body of the loop behind `pop`.
  unfoldable pub turn : J → Q → Store A → Exec (List Item × Q × Store A)
  unfolding resume done destroy
  turn j q σ = do
    r ← resume suspend_always (handle j) σ
    finished ← done (handle j) r.store
    let destroyed = destroy (handle j) r.store >>= λ σ'. ok (r.printed, q, σ')
    if finished then destroyed else ok (r.printed, push (update j) q, r.store)

  unfoldable pub schedule : ℕ → Q → Store A → Exec (Trace × Store A)
  unfolding turn
  schedule zero q σ = out_of_fuel
  schedule (suc fuel) q σ = elim (pop q) [
    | none ↦ ok ([], σ)
    | some (j, q') ↦ do
      (out, q'', σ') ← turn j q' σ
      (t, σ'') ← schedule fuel q'' σ'
      ok ((handle j, out) ∷ t, σ'')
  ]
