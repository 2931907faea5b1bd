-- ===== src/Latches/Home.antt =====
-- The workers of both programs leave after all work is done.
mod Tests
use cpp20examples.Prelude.{
  ℕ, zero, suc, ◌+◌, ◌≤◌, ◌<◌, ◌≡◌, refl, arith, List, [], ◌∷◌, ltb, if◌then◌else◌, ap, subst, sym,
  ℕ_discrete,
}
use cpp20examples.Steps.{Reach}
use cpp20examples.Threads.{System, total_pc, total_pc-one, total_pc-zero}
use cpp20examples.Latches.{
  Memory, Action, worker, main_workers, boss_worker, boss, main_boss, WorkStep,
}
use cpp20examples.Latches.Code.{AfterWork, length, to_arrive, to_send, to_report, to_print, Proper}
use cpp20examples.Latches.Order.{Inv, Leaves, Inv-Leaves}

-- The programs, with and without a boss, and how many threads and lines they have.
pub data Program : Type 0 where
  workers with_boss : Program

abbrev pub main_of : Program → ℕ → System Memory (List Action)
main_of workers = main_workers
main_of with_boss = main_boss

abbrev pub threads_of : Program → ℕ → ℕ
threads_of workers n = n
threads_of with_boss n = suc n

abbrev pub lines_of : Program → ℕ → ℕ
lines_of workers n = n + n
lines_of with_boss n = n + n + 1

total_pc-two :
    {Pc : Type 0} (w : Pc → ℕ) (n : ℕ) (pc : ℕ → Pc)
    → ((i : ℕ) → i < n → w (pc i) ≡ 2)
    → total_pc w n pc ≡ n + n
total_pc-two w zero pc e = refl
total_pc-two w (suc n) pc e =
    omega (arith, e n (omega arith), total_pc-two w n pc (λ i h. e i (omega arith)))

workers-Inv : (n : ℕ) → Inv 0 n (n + n) n (main_workers n)
workers-Inv n = record {
  good = record { sent = λ h. absurd (omega (arith, h)); lines = tt };
  proper = λ i l. ground arith;
  works = omega (arith, total_pc-one to_arrive n worker (λ i l. refl));
  home = omega (arith, total_pc-zero to_send n worker (λ i l. refl));
  reported_ = omega (arith, total_pc-one to_report n worker (λ i l. refl));
  printed = omega (arith, total_pc-two to_print n worker (λ i l. refl));
}

-- The threads below `n` are workers, thread `n` is the boss.
main_boss-worker : (n i : ℕ) → i < n → (main_boss n).pc i ≡ boss_worker i
main_boss-worker n i l = ground arith

main_boss-boss : (n : ℕ) → (main_boss n).pc n ≡ boss
main_boss-boss n = ground arith

boss-Inv : (n : ℕ) → Inv 1 n (n + n + 1) (suc n) (main_boss n)
boss-Inv n =
    let pc : ℕ → List Action = (main_boss n).pc in
    record {
      good = record { sent = λ h. absurd (omega (arith, h)); lines = tt };
      proper = λ i l. elim (ℕ_discrete i n) [
        | yes e ↦
            subst (Proper 1 n) (sym (ap pc e))
              (subst (Proper 1 n) (sym (main_boss-boss n)) (ground arith))
        | no d ↦ subst (Proper 1 n) (sym (main_boss-worker n i (omega arith))) (ground arith)
      ];
      works = omega (
        arith,
        ap to_arrive (main_boss-boss n),
        total_pc-one to_arrive n pc (λ i l. ap to_arrive (main_boss-worker n i l)),
      );
      home = omega (
        arith,
        ap to_send (main_boss-boss n),
        total_pc-zero to_send n pc (λ i l. ap to_send (main_boss-worker n i l)),
      );
      reported_ = omega (
        arith,
        ap to_report (main_boss-boss n),
        total_pc-one to_report n pc (λ i l. ap to_report (main_boss-worker n i l)),
      );
      printed = omega (
        arith,
        ap to_print (main_boss-boss n),
        total_pc-two to_print n pc (λ i l. ap to_print (main_boss-worker n i l)),
      );
    }

-- For any number of workers, with and without a boss, in every state that is reached each "Good bye!", "See
-- you tomorrow!" and "GO HOME!" was printed after all `n` lines "Work done!", and from there a state is
-- reached with all lines of all threads.
pub all_leave :
    (v : Program) (n : ℕ) {s : System Memory (List Action)}
    → Reach (WorkStep (threads_of v n)) (main_of v n) s
    → AfterWork n s.memory.output
      × ((t : System Memory (List Action)) × Reach (WorkStep (threads_of v n)) s t
          × (length t.memory.output ≡ lines_of v n)
          × AfterWork n t.memory.output)
all_leave workers n r = Inv-Leaves 0 n (n + n) n (workers-Inv n) r
all_leave with_boss n r = Inv-Leaves 1 n (n + n + 1) (suc n) (boss-Inv n) r
