-- ===== src/Latches.antt =====
-- concurrency/latches_barriers/workers.cpp and concurrency/bossWorkers.cpp: workers and a boss that wait for
-- each other at latches. A step is one action of one thread; `synchronizedOut` is one action, since a
-- thread does nothing else while it has `coutMutex`.
pub mod Code
pub mod Order
mod Home
use cpp20examples.Prelude.{ℕ, zero, suc, ◌+◌, ◌-◌, ◌≡◌, List, [], ◌∷◌, ltb, if◌then◌else◌}
use cpp20examples.Threads.{System, Step}

-- A line that is printed, with the number of the worker in place of the name.
pub data Line : Type 0 where
  work_done good_bye see_you_tomorrow : ℕ → Line
  go_home : Line

-- What a thread does next: print, count `workDone` or `goHome` down, or wait for one of them.
pub data Action : Type 0 where
  print : Line → Action
  count_down wait_work count_home wait_home : Action

-- The counters of `workDone` and `goHome`, and the lines printed so far, the last one first.
pub record Memory : Type 0 where
  pub work : ℕ
  pub home : ℕ
  pub output : List Line

-- A latch lets a thread pass when its counter is 0.
pub data Act (m : Memory) : List Action → Memory → List Action → Type 0 where
  out : {l : Line} {r : List Action} → Act m (print l ∷ r) (record m { output = l ∷ m.output }) r
  arrive : {r : List Action} → Act m (count_down ∷ r) (record m { work = m.work - 1 }) r
  pass_work : {r : List Action} → m.work ≡ 0 → Act m (wait_work ∷ r) m r
  send_home : {r : List Action} → Act m (count_home ∷ r) (record m { home = m.home - 1 }) r
  pass_home : {r : List Action} → m.home ≡ 0 → Act m (wait_home ∷ r) m r

-- `Worker::operator()` of workers.cpp; `arrive_and_wait` counts down and waits.
abbrev pub worker : ℕ → List Action
worker i = print (work_done i) ∷ count_down ∷ wait_work ∷ print (see_you_tomorrow i) ∷ []

-- `main` of workers.cpp with `n` workers, and `workDone(n)`; the program has 6.
abbrev pub main_workers : ℕ → System Memory (List Action)
main_workers n = record { memory = record { work = n; home = 0; output = [] }; pc = λ i. worker i }

-- `Worker::operator()` of bossWorkers.cpp
abbrev pub boss_worker : ℕ → List Action
boss_worker i = print (work_done i) ∷ count_down ∷ wait_home ∷ print (good_bye i) ∷ []

-- What `main` of bossWorkers.cpp does once it has started the workers.
abbrev pub boss : List Action
boss = wait_work ∷ count_home ∷ print go_home ∷ []

-- `main` of bossWorkers.cpp with `n` workers, `workDone(n)` and `goHome(1)`, as thread `n`
abbrev pub main_boss : ℕ → System Memory (List Action)
main_boss n = record {
  memory = record { work = n; home = 1; output = [] };
  pc = λ i. if ltb i n then boss_worker i else boss;
}

abbrev pub WorkStep : ℕ → System Memory (List Action) → System Memory (List Action) → Type 0
WorkStep n = Step n Act
