-- ===== src/ReadersWriters.antt =====
-- concurrency/readerWriterLock.cpp: threads that print or change entries of a telephone book under a
-- `std::shared_timed_mutex`. A step is one lock, unlock or access of one thread. Names are numbers.
pub mod Lock
pub mod Races
mod Ends
use cpp20examples.Prelude.{
  ℕ, zero, suc, ◌+◌, ◌-◌, ◌≡◌, Bool, true, false, List, [], ◌∷◌, ◌==◌, if◌then◌else◌,
}
use cpp20examples.Threads.{System, Step}

-- `teleBook[na] = tele`: the entry is changed, or made where there is none.
abbrev pub assign : (na tele : ℕ) → List (ℕ × ℕ) → List (ℕ × ℕ)
assign na tele [] = (na, tele) ∷ []
assign na tele ((key, value) ∷ book) =
    let rest = assign na tele book in if key == na then (key, tele) ∷ book else (key, value) ∷ rest

-- Whether there is an entry.
abbrev pub contains : ℕ → List (ℕ × ℕ) → Bool
contains na [] = false
contains na ((key, value) ∷ book) = if key == na then true else contains na book

-- The number of an entry, 0 where there is none.
abbrev pub number : ℕ → List (ℕ × ℕ) → ℕ
number na [] = 0
number na ((key, value) ∷ book) = if key == na then value else number na book

-- `teleBook[na]` for a name to print: a missing entry is made, with 0.
abbrev pub looked_up : ℕ → List (ℕ × ℕ) → List (ℕ × ℕ)
looked_up na book = if contains na book then book else assign na 0 book

-- `teleBook`, `teleBookMutex` with its readers and its writer, and what was printed, the last first
pub record Memory : Type 0 where
  pub book : List (ℕ × ℕ)
  pub readers : ℕ
  pub writer : Bool
  pub output : List (ℕ × ℕ)

-- Where `printNumber(na)` is: before the lock, before the access, before the unlock; where
-- `addToTeleBook(na, tele)` is; or a thread has ended.
pub data Pc : Type 0 where
  read_lock look_up : (na : ℕ) → Pc
  read_unlock : Pc
  write_lock update : (na tele : ℕ) → Pc
  write_unlock ended : Pc

pub data Act (m : Memory) : Pc → Memory → Pc → Type 0 where
  lock_shared :
      {na : ℕ}
      → m.writer ≡ false
      → Act m (read_lock na) (record m { readers = suc m.readers }) (look_up na)
  print :
      {na : ℕ}
      → Act m
          (look_up na)
          (record m { book = looked_up na m.book; output = (na, number na m.book) ∷ m.output })
          read_unlock
  unlock_shared : Act m read_unlock (record m { readers = m.readers - 1 }) ended
  lock_unique :
      {na tele : ℕ}
      → m.writer ≡ false
      → m.readers ≡ 0
      → Act m (write_lock na tele) (record m { writer = true }) (update na tele)
  write_entry :
      {na tele : ℕ}
      → Act m (update na tele) (record m { book = assign na tele m.book }) write_unlock
  unlock_unique : Act m write_unlock (record m { writer = false }) ended

-- The names, and the book at first.
abbrev pub dijkstra : ℕ
dijkstra = 0

abbrev pub scott : ℕ
scott = 1

abbrev pub ritchie : ℕ
ritchie = 2

abbrev pub bjarne : ℕ
bjarne = 3

abbrev pub tele_book : List (ℕ × ℕ)
tele_book = (dijkstra, 1972) ∷ (scott, 1976) ∷ (ritchie, 1983) ∷ []

-- The threads in the order in which `main` starts them.
abbrev pub starts : List Pc
starts =
    read_lock scott
    ∷ read_lock ritchie
    ∷ write_lock scott 1968
    ∷ read_lock dijkstra
    ∷ read_lock scott
    ∷ write_lock bjarne 1965
    ∷ read_lock scott
    ∷ read_lock ritchie
    ∷ read_lock scott
    ∷ read_lock bjarne
    ∷ []

abbrev pub at : List Pc → ℕ → Pc
at [] i = ended
at (p ∷ ps) zero = p
at (p ∷ ps) (suc i) = at ps i

-- A book, and threads that start.
abbrev pub started : List (ℕ × ℕ) → List Pc → System Memory Pc
started book ps = record {
  memory = record { book = book; readers = 0; writer = false; output = [] };
  pc = at ps;
}

abbrev pub main : System Memory Pc
main = started tele_book starts

abbrev pub MainStep : ℕ → System Memory Pc → System Memory Pc → Type 0
MainStep n = Step n Act
