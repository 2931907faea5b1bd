-- ===== src/Latches/Home/Tests.antt =====
-- One worker and the boss.
use cpp20examples.Prelude.{◌≡◌, refl, arith, [], ◌∷◌}
use cpp20examples.Steps.{Reach, start, later}
use cpp20examples.Threads.{System, pick}
use cpp20examples.Latches.{
  List, Memory, work_done, good_bye, Action, out, arrive, pass_work, send_home, pass_home, WorkStep,
}
use cpp20examples.Latches.Code.{AfterWork, length}
use cpp20examples.Latches.Home.{with_boss, main_of, threads_of, lines_of, all_leave}

-- The worker leaves before the boss has printed its line.
abbrev one_left :
    (s : System Memory (List Action)) × Reach
      (WorkStep (threads_of with_boss 1))
      (main_of with_boss 1)
      s
one_left = (
  _,
  later
      (later
        (later
          (later (later (later start (pick 0 (omega arith) out)) (pick 0 (omega arith) arrive))
            (pick 1 (omega arith) (pass_work refl)))
          (pick 1 (omega arith) send_home))
        (pick 0 (omega arith) (pass_home refl)))
      (pick 0 (omega arith) out),
)

one_left_test : one_left.0.memory.output ≡ good_bye 0 ∷ work_done 0 ∷ []
one_left_test = refl

all_leave_example :
    AfterWork 1 one_left.0.memory.output
    × ((t : System Memory (List Action)) × Reach (WorkStep (threads_of with_boss 1)) one_left.0 t
        × (length t.memory.output ≡ lines_of with_boss 1)
        × AfterWork 1 t.memory.output)
all_leave_example = all_leave with_boss 1 one_left.1
