-- ===== src/Scheduler/Priority/Order.antt =====
-- What the priority schedulers do: with fixed priorities each task runs to its end, in the order of
-- the priorities; with updated priorities every task still runs to its end.
use cpp20examples.Prelude.{
  ℕ, ◌<◌, ◌≡◌, refl, ◌==◌, if◌then◌else◌, Bool, List, [], ◌∷◌, map, none, arith, length, total, ap,
  sym, ◌∙◌, subst, count,
}
use cpp20examples.Prelude.Int.{ℤ}
use cpp20examples.Prelude.Exec.{ok}
use cpp20examples.Coroutine.{Store, script}
use cpp20examples.Scheduler.Loop.{Container, Trace, output_of}
use cpp20examples.Scheduler.Loop.Complete.{IsRunnable, schedule-Completes}
use cpp20examples.Scheduler.Loop.RunToEnd.{one_by_one}
use cpp20examples.Scheduler.Loop.InOrder.{schedule-in_order}
use cpp20examples.Scheduler.Priority.{Job}
use cpp20examples.Scheduler.Priority.Contract.{
  IsStrictOrder, IsPriorityQueue, IsPriorityQueue-IsContainer, weight, handles, total-handles,
}
use cpp20examples.Scheduler.Priority.InOrder.{IsStrictlySorted, Orders, Orders-end, Orders-again}
use cpp20examples.Scheduler.Priority.Comparator
use cpp20examples.Scheduler.Priority.Update

module _ {Q : Type 0} {comparator : Job → Job → Bool} {c : Container Job Q}
    (law : IsPriorityQueue comparator c) where
  -- The queue after `emplace` of each job of a list, the last one first.
  abbrev pub emplaced : Q → List Job → Q
  emplaced empty [] = empty
  emplaced empty (j ∷ js) = Comparator.emplace c j.prio j.handle (emplaced empty js)

  -- No job is lost or made up.
  pub emplaced-weight :
      (w : Job → ℕ) (empty : Q) (js : List Job)
      → law.jobs empty ≡ []
      → weight w (law.jobs (emplaced empty js)) ≡ weight w js
  unfolding Comparator.emplace
  emplaced-weight w empty [] e = ap (weight w) e
  emplaced-weight w empty (j ∷ js) e =
      omega (arith, law.push_lem w (emplaced empty js) j, emplaced-weight w empty js e)

  map-handles : (js : List Job) → map c.handle js ≡ handles js
  map-handles [] = refl
  map-handles (j ∷ js) = rw (law.handle_lem j, map-handles js) refl

-- Lists with the same jobs have the same handles.
same-total :
    (w : ℕ → ℕ) (js l : List Job)
    → ((v : Job → ℕ) → weight v js ≡ weight v l)
    → total w (handles js) ≡ total w (handles l)
same-total w js l e = omega (arith, total-handles w js, total-handles w l, e (λ j. w j.handle))

same-IsRunnable :
    (js l : List Job) (σ : Store (Unit {0}))
    → ((v : Job → ℕ) → weight v js ≡ weight v l)
    → IsRunnable (handles l) σ
    → IsRunnable (handles js) σ
same-IsRunnable js l σ e ready = record {
  once = λ h. omega (arith, ready.once h, same-total (λ x. if x == h then 1 else 0) js l e);
  live = λ h. omega (arith, ready.live h, same-total (λ x. if x == h then 1 else 0) js l e);
}

-- Let the queue be a priority queue by a comparator that is a strict weak order, with the jobs of a list
-- in which each goes before all that follow, so that no two of them are equivalent; let every handle be
-- that of one coroutine suspended inside its body, whose references live; and let the fuel be more than
-- the number of times that these have to be resumed. Then `schedule` with fixed priorities meets no
-- undefined behaviour; the coroutines run one after the other, in the order of the list, each to its
-- end; and exactly their frames are freed.
pub comparator_schedule_lem :
    {Q : Type 0} (comparator : Job → Job → Bool) (c : Container Job Q)
    (law : IsPriorityQueue comparator c) (q : Q) (l : List Job) (σ : Store (Unit {0})) (fuel : ℕ)
    → IsStrictOrder comparator
    → IsStrictlySorted comparator l
    → ((w : Job → ℕ) → weight w (law.jobs q) ≡ weight w l)
    → IsRunnable (handles l) σ
    → total (λ h. length (script σ h)) (handles l) < fuel
    → (τ : Store (Unit {0})) × (Comparator.schedule c fuel q σ ≡ ok (one_by_one σ (handles l), τ))
      × ((h : ℕ) → τ h ≡ (if count h (handles l) == 0 then σ h else none))
unfolding Comparator.schedule IsPriorityQueue-IsContainer
comparator_schedule_lem comparator c law q l σ fuel order sorted same ready m =
    let ready' : IsRunnable (map c.handle l) σ =
      subst (λ (hs : List ℕ). IsRunnable hs σ) (sym (map-handles law l)) ready in
    let r =
      schedule-Completes c (λ j. j) (IsPriorityQueue-IsContainer law) (λ j. refl) fuel q σ
        (same-IsRunnable (law.jobs q) l σ same ready)
        (omega (arith, m, same-total (λ h. length (script σ h)) (law.jobs q) l same)) in
    let prints =
      schedule-in_order c (IsPriorityQueue-IsContainer law) (Orders order law)
        (Orders-end order law) (Orders-again order law) l q fuel σ r.store r.trace (sorted, same)
        ready' r.runs in
    (
      r.store,
      r.runs ∙ ap (λ (t : Trace). ok (t, r.store)) (prints ∙ ap (one_by_one σ) (map-handles law l)),
      λ h. rw (sym (same-total (λ x. if x == h then 1 else 0) (law.jobs q) l same)) (r.freed h),
    )

-- Let the queue be a priority queue by a comparator that is a strict weak order, every handle in it that
-- of one coroutine suspended inside its body, whose references live, and the fuel more than the number
-- of times that these have to be resumed. Then, whatever the updater is, `schedule` meets no undefined
-- behaviour, each coroutine of the queue prints all that it has to print, in its order, no other prints
-- anything, and exactly the frames of the queue are freed.
pub update_schedule_lem :
    {Q : Type 0} (upd : ℤ → ℤ) (comparator : Job → Job → Bool) (c : Container Job Q)
    (law : IsPriorityQueue comparator c) (q : Q) (σ : Store (Unit {0})) (fuel : ℕ)
    → IsStrictOrder comparator
    → IsRunnable (handles (law.jobs q)) σ
    → total (λ h. length (script σ h)) (handles (law.jobs q)) < fuel
    → (t : Trace) × (τ : Store (Unit {0})) × (Update.schedule upd c fuel q σ ≡ ok (t, τ))
      × ((h : ℕ) → output_of h t ≡ (if count h (handles (law.jobs q)) == 0 then [] else script σ h))
      × ((h : ℕ) → τ h ≡ (if count h (handles (law.jobs q)) == 0 then σ h else none))
unfolding Update.schedule IsPriorityQueue-IsContainer
update_schedule_lem upd comparator c law q σ fuel order ready m =
    let r =
      schedule-Completes c (Update.updated upd) (IsPriorityQueue-IsContainer law)
        (λ j. law.handle_lem (Update.updated upd j) ∙ sym (law.handle_lem j)) fuel q σ ready m in
    (r.trace, r.store, r.runs, r.prints, r.freed)
