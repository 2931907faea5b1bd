-- ===== src/Scheduler/Priority/Tests.antt =====
-- The output of the programs, and an instance of each theorem.
use cpp20examples.Prelude.{
  ℕ, ◌≡◌, refl, List, [], ◌∷◌, map, none, some, Option, String, zero, suc, ◌==◌, if◌then◌else◌,
  arith, count,
}
use cpp20examples.Prelude.Int.{pos}
use cpp20examples.Prelude.Exec.{Exec, ok, undefined}
use cpp20examples.Coroutine.{create, Item, Store, script}
use cpp20examples.Scheduler.Loop.{Trace, output_of}
use cpp20examples.Scheduler.Loop.Complete.{IsRunnable}
use cpp20examples.Scheduler.Loop.RunToEnd.{one_by_one}
use cpp20examples.Scheduler.Priority.{Job, less, greater, created_by_reference}
use cpp20examples.Scheduler.Priority.Sorted.{
  insert, less-IsStrictOrder, greater-IsStrictOrder, tasks, sorted_tasks,
  sorted_tasks-IsPriorityQueue, SortedList,
}
use cpp20examples.Scheduler.Priority.Plain
use cpp20examples.Scheduler.Priority.Comparator
use cpp20examples.Scheduler.Priority.Update
use cpp20examples.Scheduler.Priority.Order.{
  emplaced, emplaced-weight, comparator_schedule_lem, update_schedule_lem,
}
use cpp20examples.Scheduler.Priority.Contract.{handles, IsPriorityQueue}

abbrev order_of : {S : Type 0} → Exec (Trace × S) → List ℕ
order_of (ok (t, s)) = map (λ (e : ℕ × List Item). e.0) t
order_of _ = []

-- The task of priority 1 first
plain_order :
    order_of (Plain.run_main (tasks less) [] (pos 0) (pos 1) 100 200)
    ≡ 200 ∷ 200 ∷ 200 ∷ 100 ∷ 100 ∷ 100 ∷ []
unfolding Plain.run_main insert
plain_order = refl

-- The programs as they would be with names that live.
abbrev name_of : ℕ → Option String
name_of zero = some "TaskA"
name_of (suc zero) = some "  TaskB"
name_of (suc (suc n)) = some "    TaskC"

simplified_order :
    order_of
      (Comparator.simplified_with (tasks less) [] (name_of 0) (name_of 1) (pos 1) (pos 0) 100 200)
    ≡ 100 ∷ 100 ∷ 100 ∷ 200 ∷ 200 ∷ 200 ∷ []
unfolding Comparator.simplified_with insert
simplified_order = refl

greater_order :
    order_of (Comparator.run_with (tasks greater) [] (name_of 0) (name_of 1) 100 200)
    ≡ 100 ∷ 100 ∷ 100 ∷ 200 ∷ 200 ∷ 200 ∷ []
unfolding Comparator.run_with insert
greater_order = refl

-- With a falling priority the three tasks take turns.
update_order :
    order_of (Update.run_with Update.decrement (tasks less) [] name_of 100 200 300)
    ≡ 300 ∷ 300 ∷ 200 ∷ 300 ∷ 200 ∷ 100 ∷ 300 ∷ 200 ∷ 100 ∷ 300 ∷ 200 ∷ 100 ∷ 300 ∷ 200 ∷ 100 ∷ 300
      ∷ 200 ∷ 100 ∷ 200 ∷ 100 ∷ 100 ∷ []
unfolding Update.run_with Update.decrement insert
update_order = refl

-- The programs as they are: the first `resume` reads a destroyed string.
comparator_main : Comparator.run_main (tasks less) [] 100 200 ≡ undefined
unfolding Comparator.run_main insert
comparator_main = refl

simplified_main : Comparator.simplified_main (tasks less) [] (pos 0) (pos 1) 100 200 ≡ undefined
unfolding Comparator.simplified_main insert
simplified_main = refl

update_main : Update.run_main Update.decrement (tasks less) [] 100 200 300 ≡ undefined
unfolding Update.run_main Update.decrement insert
update_main = refl

abbrev two_jobs : List Job
two_jobs = record { prio = pos 0; handle = 100 } ∷ record { prio = pos 1; handle = 200 } ∷ []

abbrev two_reversed : List Job
two_reversed = record { prio = pos 1; handle = 200 } ∷ record { prio = pos 0; handle = 100 } ∷ []

abbrev created : ℕ → Option String → Store (Unit {0}) → Store (Unit {0})
created h name σ = created_by_reference h (Comparator.create_task name) σ

abbrev started : Store (Unit {0})
started = created 200 (name_of 1) (created 100 (name_of 0) (λ h. none))

started-IsRunnable : IsRunnable (handles two_jobs) started
unfolding create
started-IsRunnable = record { once = λ h. ground arith; live = λ h. ground arith }

reversed-IsRunnable : IsRunnable (handles two_reversed) started
unfolding create
reversed-IsRunnable = record { once = λ h. ground arith; live = λ h. ground arith }

abbrev by_greater : IsPriorityQueue greater (sorted_tasks greater-IsStrictOrder)
by_greater = sorted_tasks-IsPriorityQueue greater-IsStrictOrder

abbrev queue : SortedList greater-IsStrictOrder
queue = emplaced by_greater ([], tt) two_jobs

comparator_schedule_lem_example :
    (τ : Store (Unit {0})) × (Comparator.schedule
        (sorted_tasks greater-IsStrictOrder)
        7
        queue
        started
      ≡ ok (one_by_one started (handles two_jobs), τ))
    × ((h : ℕ) → τ h ≡ (if count h (handles two_jobs) == 0 then started h else none))
unfolding create sorted_tasks-IsPriorityQueue
comparator_schedule_lem_example =
    comparator_schedule_lem greater (sorted_tasks greater-IsStrictOrder) by_greater queue two_jobs
      started 7 greater-IsStrictOrder ((refl, tt), (tt, tt))
      (λ w. emplaced-weight by_greater w ([], tt) two_jobs refl) started-IsRunnable (omega arith)

abbrev by_less : IsPriorityQueue less (sorted_tasks less-IsStrictOrder)
by_less = sorted_tasks-IsPriorityQueue less-IsStrictOrder

abbrev queue_by_less : SortedList less-IsStrictOrder
queue_by_less = (two_reversed, ((refl, tt), (tt, tt)))

update_schedule_lem_example :
    (t : Trace) × (τ : Store (Unit {0})) × (Update.schedule Update.decrement
        (sorted_tasks less-IsStrictOrder)
        7
        queue_by_less
        started
      ≡ ok (t, τ))
    × ((h : ℕ)
        → output_of h t ≡ (if count h (handles two_reversed) == 0 then [] else script started h))
    × ((h : ℕ) → τ h ≡ (if count h (handles two_reversed) == 0 then started h else none))
unfolding create sorted_tasks-IsPriorityQueue
update_schedule_lem_example =
    update_schedule_lem Update.decrement less (sorted_tasks less-IsStrictOrder) by_less
      queue_by_less started 7 less-IsStrictOrder reversed-IsRunnable (omega arith)
