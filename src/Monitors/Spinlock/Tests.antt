-- ===== src/Monitors/Spinlock/Tests.antt =====
-- Two threads, one of which works while the other one spins.
use cpp20examples.Prelude.{◌<◌, ◌≡◌, ◌≢◌, ◌⊎◌, refl, arith, Bool}
use cpp20examples.Steps.{Reach, start, later}
use cpp20examples.Threads.{System, pick}
use cpp20examples.Monitors.Spinlock.{ℕ, Pc, working, ended, acquire, spin, init, MainStep}
use cpp20examples.Monitors.Spinlock.Exclusion.{CanGoOn, spinlock_exclusion}

abbrev one_works : (s : System Bool Pc) × Reach (MainStep 2) init s
one_works = (
  _,
  later (later start (pick 0 (omega arith) (acquire refl))) (pick 1 (omega arith) (spin refl)),
)

spinlock_exclusion_example :
    ((i k : ℕ) → i < 2 → k < 2 → i ≢ k → one_works.0.pc i ≡ working → one_works.0.pc k ≢ working)
    × (((i : ℕ) → i < 2 → one_works.0.pc i ≡ ended) ⊎ CanGoOn 2 one_works.0)
spinlock_exclusion_example = spinlock_exclusion one_works.1
