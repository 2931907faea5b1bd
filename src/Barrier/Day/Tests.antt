-- ===== src/Barrier/Day/Tests.antt =====
-- One worker of each kind.
use cpp20examples.Prelude.{◌≡◌, refl, arith, [], ◌∷◌}
use cpp20examples.Steps.{Reach, start, later}
use cpp20examples.Threads.{System, pick}
use cpp20examples.Barrier.{
  morning_work_done, afternoon_work_done, Memory, Pc, print_morning, arrive, pass, print_afternoon,
  print_part, drop_last, init, MainStep,
}
use cpp20examples.Barrier.Phases.{length, AfterMorning}
use cpp20examples.Barrier.Day.{day_ends}

-- The part-time worker ends the morning, and the full-time worker goes on.
abbrev afternoon : (s : System Memory Pc) × Reach (MainStep 2) (init 1 1) s
afternoon = (
  _,
  later
      (later
        (later
          (later
            (later (later start (pick 0 (omega arith) print_morning))
              (pick 1 (omega arith) print_part))
            (pick 0 (omega arith) (arrive (omega arith))))
          (pick 1 (omega arith) (drop_last refl)))
        (pick 0 (omega arith) (pass (λ e. omega (arith, e)))))
      (pick 0 (omega arith) print_afternoon),
)

afternoon_test :
    afternoon.0.memory.output ≡ afternoon_work_done ∷ morning_work_done ∷ morning_work_done ∷ []
afternoon_test = refl

-- The next phase expects the full-time worker alone.
pending_test : afternoon.0.memory.pending ≡ 1
pending_test = refl

day_ends_example :
    AfterMorning 2 afternoon.0.memory.output
    × ((t : System Memory Pc) × Reach (MainStep 2) afternoon.0 t
        × (length t.memory.output ≡ 3)
        × AfterMorning 2 t.memory.output)
day_ends_example = day_ends 1 1 (omega arith) afternoon.1
