-- ===== src/PingPong/AtomicBool/Deadlock.antt =====
-- The program can hang: `ping` stores before it counts, so `pong` can pass its test once too often.
use cpp20examples.Prelude.{ℕ, zero, suc, ◌+◌, ◌≤◌, ◌≡◌, ◌≢◌, refl, Bool, true, false, arith, subst}
use cpp20examples.Steps.{Reach, start, later, Reach-trans}
use cpp20examples.PingPong.AtomicBool.{
  PingPc, test_ping, increment, ping_done, PongPc, test_pong, wait_false, pong_done, State, init,
  Ping, Pong, Step, by_ping, by_pong,
}

abbrev state : Bool → ℕ → PingPc → PongPc → State
state b c p q = record { atomic_bool = b; counter = c; ping = p; pong = q }

-- `pong` takes its turn.
pong_turn :
    (limit c : ℕ) (p : PingPc)
    → c ≤ limit
    → Reach (Step limit) (state true c p test_pong) (state false c p test_pong)
pong_turn limit c p h =
    later (later (later start (by_pong (Pong.enter h))) (by_pong (Pong.waited refl)))
      (by_pong Pong.store)

-- `ping` takes its turn, up to its store.
ping_turn :
    (limit c : ℕ)
    → c ≤ limit
    → Reach (Step limit) (state false c test_ping test_pong) (state true c increment test_pong)
ping_turn limit c h =
    later (later (later start (by_ping (Ping.enter h))) (by_ping (Ping.waited refl)))
      (by_ping Ping.store)

-- One round.
round :
    (limit c : ℕ)
    → c ≤ limit
    → Reach (Step limit) (state true c test_ping test_pong) (state true (c + 1) test_ping test_pong)
round limit c h =
    later (Reach-trans (Step limit) (pong_turn limit c test_ping h) (ping_turn limit c h))
      (by_ping Ping.count)

rounds : (limit c : ℕ) → c ≤ limit → Reach (Step limit) init (state true c test_ping test_pong)
rounds limit zero h = start
rounds limit (suc c) h =
    subst (λ (n : ℕ). Reach (Step limit) init (state true n test_ping test_pong)) (omega arith)
      (Reach-trans (Step limit) (rounds limit c (omega arith)) (round limit c (omega arith)))

-- In the last round `pong` answers and tests the counter before `ping` has counted.
abbrev hanging : ℕ → State
hanging limit = state false (limit + 1) ping_done wait_false

last_round : (limit : ℕ) → Reach (Step limit) (state true limit test_ping test_pong) (hanging limit)
last_round limit =
    later
      (later
        (later
          (Reach-trans (Step limit)
            (Reach-trans (Step limit) (pong_turn limit limit test_ping (omega arith))
              (ping_turn limit limit (omega arith)))
            (pong_turn limit limit increment (omega arith)))
          (by_pong (Pong.enter (omega arith))))
        (by_ping Ping.count))
      (by_ping (Ping.leave (omega arith)))

no-Ping : (limit : ℕ) (s t : State) {p : PingPc} → p ≡ ping_done → ¬ Ping limit s p t
no-Ping limit s t e (Ping.enter h) = cc
no-Ping limit s t e (Ping.leave h) = cc
no-Ping limit s t e (Ping.waited h) = cc
no-Ping limit s t e Ping.store = cc
no-Ping limit s t e Ping.count = cc

no-Pong :
    (limit : ℕ) (s t : State) {q : PongPc}
    → q ≡ wait_false
    → s.atomic_bool ≡ false
    → ¬ Pong limit s q t
no-Pong limit s t e b (Pong.enter h) = cc
no-Pong limit s t e b (Pong.leave h) = cc
no-Pong limit s t e b (Pong.waited h) = cc
no-Pong limit s t e b Pong.store = cc

stuck : (limit : ℕ) (t : State) → ¬ Step limit (hanging limit) t
stuck limit t (by_ping m) = no-Ping limit (hanging limit) t refl m
stuck limit t (by_pong m) = no-Pong limit (hanging limit) t refl refl m

-- Whatever the limit is, the program can reach a state in which `ping` has ended, `pong` has not,
-- and no thread can move any more.
pub atomic_bool_deadlock :
    (limit : ℕ)
    → (s : State) × Reach (Step limit) init s
      × (s.ping ≡ ping_done)
      × (s.pong ≢ pong_done)
      × ((t : State) → ¬ Step limit s t)
atomic_bool_deadlock limit = (
  hanging limit,
  Reach-trans (Step limit) (rounds limit limit (omega arith)) (last_round limit),
  refl,
  cc,
  stuck limit,
)
