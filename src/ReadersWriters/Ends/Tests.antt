-- ===== src/ReadersWriters/Ends/Tests.antt =====
-- The race of the first two readers of the program, and three threads that run for a while.
use cpp20examples.Prelude.{ℕ, zero, suc, ◌<◌, ◌≡◌, refl, arith, List, [], ◌∷◌}
use cpp20examples.Steps.{Reach, start, later}
use cpp20examples.Threads.{System, pick, total_pc}
use cpp20examples.ReadersWriters.{
  ritchie, starts, Pc, read_lock, write_lock, assign, number, tele_book, scott, bjarne, dijkstra,
  started, main, MainStep, Memory, lock_shared, print, at,
}
use cpp20examples.ReadersWriters.Races.{Race, Starts}
use cpp20examples.ReadersWriters.Ends.{readers-Race, Overlap, actions, readers_writers}

number_test : number bjarne (assign bjarne 1965 tele_book) ≡ 1965
number_test = refl

abbrev some_threads : List Pc
some_threads = read_lock scott ∷ write_lock bjarne 1965 ∷ read_lock dijkstra ∷ []

some_threads-Starts : (i : ℕ) → i < 3 → Starts (at some_threads i)
some_threads-Starts zero l = tt
some_threads-Starts (suc zero) l = tt
some_threads-Starts (suc (suc zero)) l = tt
some_threads-Starts (suc (suc (suc i))) l = absurd (omega (arith, l))

abbrev printed : (s : System Memory Pc) × Reach (MainStep 3) (started tele_book some_threads) s
printed =
    (_, later (later start (pick 2 (omega arith) (lock_shared refl))) (pick 2 (omega arith) print))

readers_writers_example :
    (¬ (Overlap 3 printed.0))
    × ((t : System Memory Pc) × Reach (MainStep 3) printed.0 t × (total_pc actions 3 t.pc ≡ 0))
readers_writers_example = readers_writers 3 tele_book some_threads some_threads-Starts printed.1

readers-Race_example : (s : System Memory Pc) × Reach (MainStep 10) main s × Race 10 s
readers-Race_example =
    readers-Race 10 tele_book starts 0 1 scott ritchie (omega arith) (omega arith)
      (λ e. omega (arith, e)) refl refl
