-- ===== src/PingPong/AtomicFlags/Refine.antt =====
-- The program with flags does what the one with semaphores does, so it has no deadlock either.
use cpp20examples.Prelude.{
  inl, inr, ◌⊎◌, ℕ, ◌+◌, ◌≤◌, ◌≡◌, refl, sym, Bool, true, false, arith, subst,
}
use cpp20examples.Steps.{Reach, start, later}
use cpp20examples.PingPong.Semaphore
use cpp20examples.PingPong.Semaphore.Safety.{semaphore_no_deadlock, semaphore_bounds}
use cpp20examples.PingPong.AtomicFlags.{
  PingPc, test_ping, wait_flag1, clear_flag1, increment, set_flag2, ping_done, PongPc, test_pong,
  wait_flag2, clear_flag2, set_flag1, pong_done, State, init, Ping, Pong, Step, by_ping, by_pong,
}

-- A flag as the count of a semaphore.
abbrev as_count : Bool → ℕ
as_count true = 1
as_count false = 0

-- `wait` and `clear` together are `acquire`, which takes effect at the `clear`.
abbrev ping_pc : PingPc → Semaphore.PingPc
ping_pc test_ping = Semaphore.test_ping
ping_pc wait_flag1 = Semaphore.acquire_ping
ping_pc clear_flag1 = Semaphore.acquire_ping
ping_pc increment = Semaphore.increment
ping_pc set_flag2 = Semaphore.release_pong
ping_pc ping_done = Semaphore.ping_done

abbrev pong_pc : PongPc → Semaphore.PongPc
pong_pc test_pong = Semaphore.test_pong
pong_pc wait_flag2 = Semaphore.acquire_pong
pong_pc clear_flag2 = Semaphore.acquire_pong
pong_pc set_flag1 = Semaphore.release_ping
pong_pc pong_done = Semaphore.pong_done

-- The state of the program with semaphores that a state stands for.
abbrev pub abstract_state : State → Semaphore.State
abstract_state s = record {
  signal2_ping = as_count s.flag1;
  signal2_pong = as_count s.flag2;
  counter = s.counter;
  ping = ping_pc s.ping;
  pong = pong_pc s.pong;
}

-- Between its `wait` and its `clear` a thread finds its flag set.
record Waited (s : State) : Type 0 where
  ping_waited : s.ping ≡ clear_flag1 → s.flag1 ≡ true
  pong_waited : s.pong ≡ clear_flag2 → s.flag2 ≡ true

record Simulated (limit : ℕ) (s : State) : Type 0 where
  reached : Reach (Semaphore.Step limit) Semaphore.init (abstract_state s)
  waited : Waited s

bounds :
    {limit : ℕ} {s : State}
    → Simulated limit s
    → (as_count s.flag1 + as_count s.flag2 ≤ 1)
      × (ping_pc s.ping ≡ Semaphore.release_pong → as_count s.flag2 ≡ 0)
      × (pong_pc s.pong ≡ Semaphore.release_ping → as_count s.flag1 ≡ 0)
bounds {limit} {s} r =
    let b = semaphore_bounds limit (abstract_state s) r.reached in (b.0, b.1, b.2)

ping_reached :
    {limit : ℕ} {s : State} {p : PingPc} {u : Semaphore.State} (t : State)
    → s.ping ≡ p
    → Simulated limit s
    → Semaphore.Ping limit (abstract_state s) (ping_pc p) u
    → u ≡ abstract_state t
    → Reach (Semaphore.Step limit) Semaphore.init (abstract_state t)
ping_reached {limit} {s} {u = u} t e r m same =
    subst (λ (x : Semaphore.State). Reach (Semaphore.Step limit) Semaphore.init x) same
      (later r.reached (
        Semaphore.by_ping (
          subst (λ (q : PingPc). Semaphore.Ping limit (abstract_state s) (ping_pc q) u) (sym e) m)))

pong_reached :
    {limit : ℕ} {s : State} {p : PongPc} {u : Semaphore.State} (t : State)
    → s.pong ≡ p
    → Simulated limit s
    → Semaphore.Pong limit (abstract_state s) (pong_pc p) u
    → u ≡ abstract_state t
    → Reach (Semaphore.Step limit) Semaphore.init (abstract_state t)
pong_reached {limit} {s} {u = u} t e r m same =
    subst (λ (x : Semaphore.State). Reach (Semaphore.Step limit) Semaphore.init x) same
      (later r.reached (
        Semaphore.by_pong (
          subst (λ (q : PongPc). Semaphore.Pong limit (abstract_state s) (pong_pc q) u) (sym e) m)))

-- A step that the other program does not see.
stutter :
    {limit : ℕ} {s : State} (t : State)
    → Simulated limit s
    → abstract_state s ≡ abstract_state t
    → Reach (Semaphore.Step limit) Semaphore.init (abstract_state t)
stutter {limit} t r same =
    subst (λ (x : Semaphore.State). Reach (Semaphore.Step limit) Semaphore.init x) same r.reached

ping_Simulated :
    {limit : ℕ} {s t : State} {p : PingPc}
    → s.ping ≡ p
    → Simulated limit s
    → Ping limit s p t
    → Simulated limit t
ping_Simulated {t = t} e r (Ping.enter h) = record {
  reached = ping_reached t e r (Semaphore.Ping.enter h) refl;
  waited = ground arith;
}
ping_Simulated {t = t} e r (Ping.leave h) = record {
  reached = ping_reached t e r (Semaphore.Ping.leave h) refl;
  waited = ground arith;
}
ping_Simulated {t = t} e r (Ping.waited h) = record {
  reached = stutter t r (ground arith);
  waited = ground arith;
}
ping_Simulated {t = t} e r Ping.clear = record {
  reached = ping_reached t e r (Semaphore.Ping.acquire (ground arith)) (ground arith);
  waited = ground arith;
}
ping_Simulated {t = t} e r Ping.count = record {
  reached = ping_reached t e r Semaphore.Ping.count refl;
  waited = ground arith;
}
ping_Simulated {t = t} e r Ping.set = record {
  reached = ping_reached t e r Semaphore.Ping.release (ground (arith, bounds r));
  waited = ground arith;
}

pong_Simulated :
    {limit : ℕ} {s t : State} {p : PongPc}
    → s.pong ≡ p
    → Simulated limit s
    → Pong limit s p t
    → Simulated limit t
pong_Simulated {t = t} e r (Pong.enter h) = record {
  reached = pong_reached t e r (Semaphore.Pong.enter h) refl;
  waited = ground arith;
}
pong_Simulated {t = t} e r (Pong.leave h) = record {
  reached = pong_reached t e r (Semaphore.Pong.leave h) refl;
  waited = ground arith;
}
pong_Simulated {t = t} e r (Pong.waited h) = record {
  reached = stutter t r (ground arith);
  waited = ground arith;
}
pong_Simulated {t = t} e r Pong.clear = record {
  reached = pong_reached t e r (Semaphore.Pong.acquire (ground arith)) (ground arith);
  waited = ground arith;
}
pong_Simulated {t = t} e r Pong.set = record {
  reached = pong_reached t e r Semaphore.Pong.release (ground (arith, bounds r));
  waited = ground arith;
}

Reach-Simulated : {limit : ℕ} {s : State} → Reach (Step limit) init s → Simulated limit s
Reach-Simulated start = record { reached = start; waited = ground arith }
Reach-Simulated (later r (by_ping m)) = ping_Simulated refl (Reach-Simulated r) m
Reach-Simulated (later r (by_pong m)) = pong_Simulated refl (Reach-Simulated r) m

-- Every state that the program with flags reaches stands for a state that the program with
-- semaphores reaches: a set flag for the count 1, and a thread between its `wait` and its `clear`
-- for one at `acquire`. A thread between the two finds its flag set.
pub atomic_flags_refine :
    (limit : ℕ) (s : State)
    → Reach (Step limit) init s
    → Reach (Semaphore.Step limit) Semaphore.init (abstract_state s)
      × (s.ping ≡ clear_flag1 → s.flag1 ≡ true)
      × (s.pong ≡ clear_flag2 → s.flag2 ≡ true)
atomic_flags_refine limit s r =
    let i = Reach-Simulated r in (i.reached, i.waited.ping_waited, i.waited.pong_waited)

ping_step :
    {limit : ℕ} {s t : State} {p : PingPc}
    → s.ping ≡ p
    → Ping limit s p t
    → (u : State) × Step limit s u
ping_step {limit} {s} {t} e m = (t, by_ping (subst (λ (q : PingPc). Ping limit s q t) (sym e) m))

pong_step :
    {limit : ℕ} {s t : State} {p : PongPc}
    → s.pong ≡ p
    → Pong limit s p t
    → (u : State) × Step limit s u
pong_step {limit} {s} {t} e m = (t, by_pong (subst (λ (q : PongPc). Pong limit s q t) (sym e) m))

-- Where the other program can move, this one can.
ping_moves :
    {limit : ℕ} {s : State} {u : Semaphore.State} (p : PingPc)
    → s.ping ≡ p
    → Semaphore.Ping limit (abstract_state s) (ping_pc p) u
    → (t : State) × Step limit s t
ping_moves test_ping e (Semaphore.Ping.enter h) = ping_step e (Ping.enter h)
ping_moves test_ping e (Semaphore.Ping.leave h) = ping_step e (Ping.leave h)
ping_moves wait_flag1 e (Semaphore.Ping.acquire h) = ping_step e (Ping.waited (ground arith))
ping_moves clear_flag1 e m = ping_step e Ping.clear
ping_moves increment e m = ping_step e Ping.count
ping_moves set_flag2 e m = ping_step e Ping.set
ping_moves ping_done e m = elim m [ ]

pong_moves :
    {limit : ℕ} {s : State} {u : Semaphore.State} (p : PongPc)
    → s.pong ≡ p
    → Semaphore.Pong limit (abstract_state s) (pong_pc p) u
    → (t : State) × Step limit s t
pong_moves test_pong e (Semaphore.Pong.enter h) = pong_step e (Pong.enter h)
pong_moves test_pong e (Semaphore.Pong.leave h) = pong_step e (Pong.leave h)
pong_moves wait_flag2 e (Semaphore.Pong.acquire h) = pong_step e (Pong.waited (ground arith))
pong_moves clear_flag2 e m = pong_step e Pong.clear
pong_moves set_flag1 e m = pong_step e Pong.set
pong_moves pong_done e m = elim m [ ]

-- No deadlock: in every state that the program reaches, a thread can move, or both threads have
-- left their loops and `counter` has passed the limit by one.
pub atomic_flags_no_deadlock :
    (limit : ℕ) (s : State)
    → Reach (Step limit) init s
    → ((s.ping ≡ ping_done) × (s.pong ≡ pong_done) × (s.counter ≡ limit + 1))
      ⊎ ((t : State) × Step limit s t)
atomic_flags_no_deadlock limit s r =
    elim (semaphore_no_deadlock limit (abstract_state s) (Reach-Simulated r).reached) [
      | inl j ↦ inl (ground arith, ground arith, j.2)
      | inr (u, Semaphore.by_ping m) ↦ inr (ping_moves s.ping refl m)
      | inr (u, Semaphore.by_pong m) ↦ inr (pong_moves s.pong refl m)
    ]
