-- ===== src/PingPong/ConditionVariable/Deadlock.antt =====
-- The program can hang: `ping` sets `dataReady` before it counts, so `pong` can pass its test once too
-- often.
use cpp20examples.Prelude.{ℕ, zero, suc, ◌+◌, ◌≤◌, ◌≡◌, refl, Bool, false, arith, subst}
use cpp20examples.Steps.{Reach, start, later, Reach-trans}
use cpp20examples.PingPong.ConditionVariable.{
  PingPc, test_ping, increment, ping_done, PongPc, test_pong, pong_section, State, init, Ping, Pong,
  Step, by_ping, by_pong,
}

abbrev state : Bool → ℕ → PingPc → PongPc → State
state b c p q = record { data_ready = b; counter = c; ping = p; pong = q }

-- Up to where `ping` has set `dataReady` and `pong` has answered, before `++counter`.
answered :
    (limit c : ℕ)
    → c ≤ limit
    → Reach (Step limit) (state false c test_ping test_pong) (state false c increment test_pong)
answered limit c h =
    later
      (later (later (later start (by_ping (Ping.enter h))) (by_ping (Ping.section refl)))
        (by_pong (Pong.enter h)))
      (by_pong (Pong.section refl))

rounds : (limit c : ℕ) → c ≤ limit → Reach (Step limit) init (state false c test_ping test_pong)
rounds limit zero h = start
rounds limit (suc c) h =
    subst (λ (n : ℕ). Reach (Step limit) init (state false n test_ping test_pong)) (omega arith)
      (later
        (Reach-trans (Step limit) (rounds limit c (omega arith)) (answered limit c (omega arith)))
        (by_ping Ping.count))

abbrev hanging : ℕ → State
hanging limit = state false (limit + 1) ping_done pong_section

hanging-Reach : (limit : ℕ) → Reach (Step limit) init (hanging limit)
hanging-Reach limit =
    later
      (later
        (later
          (Reach-trans (Step limit) (rounds limit limit (omega arith))
            (answered limit limit (omega arith)))
          (by_pong (Pong.enter (omega arith))))
        (by_ping Ping.count))
      (by_ping (Ping.leave (omega arith)))

no-Ping : (limit : ℕ) (s t : State) {p : PingPc} → p ≡ ping_done → ¬ Ping limit s p t
no-Ping limit s t e (Ping.enter h) = cc
no-Ping limit s t e (Ping.leave h) = cc
no-Ping limit s t e (Ping.section h) = cc
no-Ping limit s t e Ping.count = cc

no-Pong :
    (limit : ℕ) (s t : State) {q : PongPc}
    → q ≡ pong_section
    → s.data_ready ≡ false
    → ¬ Pong limit s q t
no-Pong limit s t e b (Pong.enter h) = cc
no-Pong limit s t e b (Pong.leave h) = cc
no-Pong limit s t e b (Pong.section h) = cc

stuck : (limit : ℕ) (t : State) → ¬ Step limit (hanging limit) t
stuck limit t (by_ping m) = no-Ping limit (hanging limit) t refl m
stuck limit t (by_pong m) = no-Pong limit (hanging limit) t refl refl m

-- Whatever the limit is, the program can reach a state in which `ping` has ended, `pong` waits for
-- `dataReady`, and no thread can move any more.
pub condition_variable_deadlock :
    (limit : ℕ)
    → (s : State) × Reach (Step limit) init s
      × (s.ping ≡ ping_done)
      × (s.pong ≡ pong_section)
      × ((t : State) → ¬ Step limit s t)
condition_variable_deadlock limit = (hanging limit, hanging-Reach limit, refl, refl, stuck limit)
