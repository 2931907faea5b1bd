-- ===== src/Singleton.antt =====
-- `MySingleton::getInstance` of concurrency/singletonAcquireRelease.cpp and
-- singletonSequentialConsistency.cpp (double-checked locking), singletonLock.cpp, singletonCallOnce.cpp,
-- singletonMeyers.cpp and problems/solutions/singletonMultithreading.cpp, and the loops of `getTime` that
-- call it. A step is one atomic action of one thread, sequentially consistent.
pub mod Acts
pub mod Others
pub mod Safety
pub mod Progress
pub mod Calls
use cpp20examples.Prelude.{ℕ, suc, ◌+◌, ◌≡◌, Bool, true, false, Option, none, some, List, [], ◌∷◌}
use cpp20examples.Threads.{System, Step}

-- `instance` as the number of the object that it points to, how many objects were made, whether the
-- mutex is locked or the function of `call_once` is running, whether `call_once` is done, and what the
-- calls have returned, the last one first.
pub record Memory : Type 0 where
  pub instance_ : Option ℕ
  pub created : ℕ
  pub locked : Bool
  pub done : Bool
  pub returned : List ℕ

-- Where a call of `getInstance` is.
pub data Place : Type 0 where
  load want_lock recheck create : Place
  store unlock : (sin : ℕ) → Place
  want_once once_create : Place
  once_store : (sin : ℕ) → Place
  finish_once read_instance : Place
  give : (sin : ℕ) → Place

-- A thread with the number of calls that it has still to make, the present one included.
pub data Pc : Type 0 where
  calls : ℕ → Place → Pc

-- The first load, which needs no lock where it finds the object, and the part with `myLock`.
-- `entry` is where the next call starts.
pub data Act (entry : Place) (m : Memory) : Pc → Memory → Pc → Type 0 where
  first_null :
      {k : ℕ} → m.instance_ ≡ none → Act entry m (calls (suc k) load) m (calls (suc k) want_lock)
  first_set :
      {k sin : ℕ}
      → m.instance_ ≡ some sin
      → Act entry m (calls (suc k) load) m (calls (suc k) (give sin))
  acquire :
      {k : ℕ}
      → m.locked ≡ false
      → Act entry m (calls (suc k) want_lock) (record m { locked = true }) (calls (suc k) recheck)
  second_null :
      {k : ℕ} → m.instance_ ≡ none → Act entry m (calls (suc k) recheck) m (calls (suc k) create)
  second_set :
      {k sin : ℕ}
      → m.instance_ ≡ some sin
      → Act entry m (calls (suc k) recheck) m (calls (suc k) (unlock sin))
  make :
      {k : ℕ}
      → Act entry m
          (calls (suc k) create)
          (record m { created = suc m.created })
          (calls (suc k) (store m.created))
  set_instance :
      {k sin : ℕ}
      → Act entry m
          (calls (suc k) (store sin))
          (record m { instance_ = some sin })
          (calls (suc k) (unlock sin))
  release :
      {k sin : ℕ}
      → Act entry m
          (calls (suc k) (unlock sin))
          (record m { locked = false })
          (calls (suc k) (give sin))
  -- `call_once`: one thread runs the function, the others wait while it runs.
  once_first :
      {k : ℕ}
      → m.locked ≡ false
      → m.done ≡ false
      → Act entry m
          (calls (suc k) want_once)
          (record m { locked = true })
          (calls (suc k) once_create)
  once_done :
      {k : ℕ}
      → m.done ≡ true
      → Act entry m (calls (suc k) want_once) m (calls (suc k) read_instance)
  once_make :
      {k : ℕ}
      → Act entry m
          (calls (suc k) once_create)
          (record m { created = suc m.created })
          (calls (suc k) (once_store m.created))
  once_set :
      {k sin : ℕ}
      → Act entry m
          (calls (suc k) (once_store sin))
          (record m { instance_ = some sin })
          (calls (suc k) finish_once)
  once_finish :
      {k : ℕ}
      → Act entry m
          (calls (suc k) finish_once)
          (record m { locked = false; done = true })
          (calls (suc k) read_instance)
  read :
      {k sin : ℕ}
      → m.instance_ ≡ some sin
      → Act entry m (calls (suc k) read_instance) m (calls (suc k) (give sin))
  -- The end of the call, and the next one.
  return :
      {k sin : ℕ}
      → Act entry m
          (calls (suc k) (give sin))
          (record m { returned = sin ∷ m.returned })
          (calls k entry)

-- `getInstance` of concurrency/singleton.cpp, without threads: what it returns.
abbrev pub get_instance : Memory → ℕ × Memory
get_instance m = elim m.instance_ [
  | none ↦ (m.created, record m { instance_ = some m.created; created = suc m.created })
  | some sin ↦ (sin, m)
]

-- Which of the programs: with the first load, with the lock at once, with `call_once`, and with the
-- local `static` object, which the language makes as `call_once` does.
pub data Version : Type 0 where
  acquire_release sequential_consistency with_lock with_call_once meyers multithreading : Version

-- `getInstance` of each program: the actions of a call that starts at the first statement.
abbrev pub ActAcquireRelease : Memory → Pc → Memory → Pc → Type 0
ActAcquireRelease = Act load

abbrev pub ActSequentialConsistency : Memory → Pc → Memory → Pc → Type 0
ActSequentialConsistency = Act load

abbrev pub ActWithLock : Memory → Pc → Memory → Pc → Type 0
ActWithLock = Act want_lock

abbrev pub ActWithCallOnce : Memory → Pc → Memory → Pc → Type 0
ActWithCallOnce = Act want_once

abbrev pub ActMeyers : Memory → Pc → Memory → Pc → Type 0
ActMeyers = Act want_once

abbrev pub ActMultithreading : Memory → Pc → Memory → Pc → Type 0
ActMultithreading = Act want_once

abbrev pub entry_of : Version → Place
entry_of acquire_release = load
entry_of sequential_consistency = load
entry_of with_lock = want_lock
entry_of with_call_once = want_once
entry_of meyers = want_once
entry_of multithreading = want_once

-- The threads of `main`, each with the calls of its `getTime`.
abbrev pub init : Place → (ℕ → ℕ) → System Memory Pc
init entry iterations = record {
  memory = record { instance_ = none; created = 0; locked = false; done = false; returned = [] };
  pc = λ i. calls (iterations i) entry;
}

-- The steps of `n` threads that run `getTime`.
abbrev pub EntryStep : Place → ℕ → System Memory Pc → System Memory Pc → Type 0
EntryStep entry n = Step n (Act entry)

abbrev pub MainStep : Version → ℕ → System Memory Pc → System Memory Pc → Type 0
MainStep acquire_release n = Step n ActAcquireRelease
MainStep sequential_consistency n = Step n ActSequentialConsistency
MainStep with_lock n = Step n ActWithLock
MainStep with_call_once n = Step n ActWithCallOnce
MainStep meyers n = Step n ActMeyers
MainStep multithreading n = Step n ActMultithreading
