-- ===== src/PingPong/Semaphore/Safety.antt =====
-- The two threads alternate, and the program ends.
use cpp20examples.Prelude.{
  sym, subst, ◌≢◌, ℕ, suc, ◌+◌, ◌-◌, ◌*◌, ◌≤◌, ◌<◌, ◌≡◌, refl, ◌⊎◌, inl, inr, arith, dec_lt,
}
use cpp20examples.Steps.{Reach, Reach-invariant, Reach-final}
use cpp20examples.PingPong.Semaphore.{
  PingPc, test_ping, acquire_ping, increment, release_pong, ping_done, PongPc, test_pong,
  acquire_pong, release_ping, pong_done, State, init, Ping, Pong, Step, by_ping, by_pong,
}

-- The turn that a thread has taken and not passed on.
abbrev ping_turn : PingPc → ℕ
ping_turn increment = 1
ping_turn release_pong = 1
ping_turn _ = 0

abbrev pong_turn : PongPc → ℕ
pong_turn release_ping = 1
pong_turn _ = 0

-- What `ping` knows of the counter, which only it changes.
abbrev PingKnows : ℕ → PingPc → ℕ → Type 0
PingKnows limit acquire_ping counter = counter ≤ limit
PingKnows limit increment counter = counter ≤ limit
PingKnows limit ping_done counter = limit < counter
PingKnows limit _ counter = counter ≤ limit + 1

-- What `pong` knows: if it waits and has no turn to take, the counter has not passed the limit,
-- unless `ping` is about to give it the turn.
abbrev PongKnows : ℕ → PongPc → State → Type 0
PongKnows limit acquire_pong s = s.signal2_pong ≡ 0 → (s.ping ≡ release_pong) ⊎ (s.counter ≤ limit)
PongKnows limit pong_done s = limit < s.counter
PongKnows limit _ s = Unit

-- There is one turn, in a semaphore or with a thread.
pub record Inv (limit : ℕ) (s : State) : Type 0 where
  pub one_turn : s.signal2_ping + s.signal2_pong + ping_turn s.ping + pong_turn s.pong ≡ 1
  pub bounded : s.counter ≤ limit + 1
  pub ping_knows : PingKnows limit s.ping s.counter
  pub pong_knows : PongKnows limit s.pong s

init-Inv : (limit : ℕ) → Inv limit init
init-Inv limit = record {
  one_turn = refl;
  bounded = omega arith;
  ping_knows = omega arith;
  pong_knows = tt;
}

Ping-Inv :
    {limit : ℕ} {s t : State} {p : PingPc}
    → s.ping ≡ p
    → Inv limit s
    → Ping limit s p t
    → Inv limit t
Ping-Inv e i (Ping.enter h) = ground arith
Ping-Inv e i (Ping.leave h) = ground arith
Ping-Inv e i (Ping.acquire h) = ground arith
Ping-Inv e i Ping.count = ground arith
Ping-Inv e i Ping.release = ground arith

Pong-Inv :
    {limit : ℕ} {s t : State} {p : PongPc}
    → s.pong ≡ p
    → Inv limit s
    → Pong limit s p t
    → Inv limit t
Pong-Inv e i (Pong.enter h) = ground arith
Pong-Inv e i (Pong.leave h) = ground arith
Pong-Inv e i (Pong.acquire h) = ground arith
Pong-Inv e i Pong.release = ground arith

Step-Inv : {limit : ℕ} (s t : State) → Inv limit s → Step limit s t → Inv limit t
Step-Inv s t i (by_ping m) = Ping-Inv refl i m
Step-Inv s t i (by_pong m) = Pong-Inv refl i m

Reach-Inv : {limit : ℕ} {s : State} → Reach (Step limit) init s → Inv limit s
Reach-Inv {limit} r = Reach-invariant (Step limit) (Inv limit) Step-Inv (init-Inv limit) r

-- In every state that the program reaches, whichever way the threads are interleaved, the counts of
-- the two semaphores add up to 1 at most, so no `release` exceeds their bound 1; both are 0 while
-- `ping` counts; and `counter` is at most one above the limit.
pub semaphore_bounds :
    (limit : ℕ) (s : State)
    → Reach (Step limit) init s
    → (s.signal2_ping + s.signal2_pong ≤ 1)
      × (s.ping ≡ release_pong → s.signal2_pong ≡ 0)
      × (s.pong ≡ release_ping → s.signal2_ping ≡ 0)
      × (s.ping ≡ increment → (s.signal2_ping ≡ 0) × (s.signal2_pong ≡ 0) × (s.pong ≢ release_ping))
      × (s.counter ≤ limit + 1)
semaphore_bounds limit s r =
    let i = Reach-Inv r in
    (
      omega (arith, i.one_turn),
      λ e. ground (arith, i.one_turn),
      λ e. ground (arith, i.one_turn),
      λ e. (
        ground (arith, i.one_turn),
        ground (arith, i.one_turn),
        λ e'. ground (arith, i.one_turn),
      ),
      i.bounded,
    )

-- How much is left to do.
ping_rank : PingPc → ℕ
ping_rank test_ping = 3
ping_rank acquire_ping = 2
ping_rank increment = 1
ping_rank release_pong = 15
ping_rank ping_done = 0

pong_rank : PongPc → ℕ
pong_rank test_pong = 2
pong_rank acquire_pong = 1
pong_rank release_ping = 6
pong_rank pong_done = 0

pub measure : ℕ → State → ℕ
measure limit s =
    20 * (limit + 1 - s.counter)
    + ping_rank s.ping
    + pong_rank s.pong
    + s.signal2_ping
    + 8 * s.signal2_pong

Ping-falls :
    {limit : ℕ} {s t : State} {p : PingPc}
    → s.ping ≡ p
    → Inv limit s
    → Ping limit s p t
    → measure limit t < measure limit s
unfolding measure ping_rank pong_rank
Ping-falls e i (Ping.enter h) = ground arith
Ping-falls e i (Ping.leave h) = ground arith
Ping-falls e i (Ping.acquire h) = ground arith
Ping-falls e i Ping.count = ground arith
Ping-falls e i Ping.release = ground arith

Pong-falls :
    {limit : ℕ} {s t : State} {p : PongPc}
    → s.pong ≡ p
    → Inv limit s
    → Pong limit s p t
    → measure limit t < measure limit s
unfolding measure ping_rank pong_rank
Pong-falls e i (Pong.enter h) = ground arith
Pong-falls e i (Pong.leave h) = ground arith
Pong-falls e i (Pong.acquire h) = ground arith
Pong-falls e i Pong.release = ground arith

Step-falls :
    {limit : ℕ} (s t : State) → Inv limit s → Step limit s t → measure limit t < measure limit s
Step-falls s t i (by_ping m) = Ping-falls refl i m
Step-falls s t i (by_pong m) = Pong-falls refl i m

-- Both threads have left their loops, and `counter` has passed the limit by one.
abbrev pub Joined : ℕ → State → Type 0
Joined limit s = (s.ping ≡ ping_done) × (s.pong ≡ pong_done) × (s.counter ≡ limit + 1)

ping_step :
    {limit : ℕ} {s t : State} {p : PingPc}
    → s.ping ≡ p
    → Ping limit s p t
    → (u : State) × Step limit s u
ping_step {limit} {s} {t} e m = (t, by_ping (subst (λ (x : PingPc). Ping limit s x t) (sym e) m))

pong_step :
    {limit : ℕ} {s t : State} {p : PongPc}
    → s.pong ≡ p
    → Pong limit s p t
    → (u : State) × Step limit s u
pong_step {limit} {s} {t} e m = (t, by_pong (subst (λ (x : PongPc). Pong limit s x t) (sym e) m))

-- While `ping` cannot move, `pong` can, or both have ended.
pong_moves :
    {limit : ℕ} (s : State) (q : PongPc)
    → s.pong ≡ q
    → Inv limit s
    → (s.ping ≡ ping_done) ⊎ ((s.ping ≡ acquire_ping) × (s.signal2_ping ≡ 0))
    → Joined limit s ⊎ ((t : State) × Step limit s t)
pong_moves {limit} s test_pong e i w = elim (dec_lt limit s.counter) [
  | yes h ↦ inr (pong_step e (Pong.leave h))
  | no h ↦ inr (pong_step e (Pong.enter (omega arith)))
]
pong_moves s acquire_pong e i w = elim (dec_lt 0 s.signal2_pong) [
  | yes h ↦ inr (pong_step e (Pong.acquire h))
  | no h ↦ absurd (ground arith)
]
pong_moves s release_ping e i w = inr (pong_step e Pong.release)
pong_moves s pong_done e i (inl w) = inl (w, e, ground arith)
pong_moves s pong_done e i (inr w) = absurd (ground arith)

moves_at :
    {limit : ℕ} (s : State) (p : PingPc)
    → s.ping ≡ p
    → Inv limit s
    → Joined limit s ⊎ ((t : State) × Step limit s t)
moves_at {limit} s test_ping e i = elim (dec_lt limit s.counter) [
  | yes h ↦ inr (ping_step e (Ping.leave h))
  | no h ↦ inr (ping_step e (Ping.enter (omega arith)))
]
moves_at s acquire_ping e i = elim (dec_lt 0 s.signal2_ping) [
  | yes h ↦ inr (ping_step e (Ping.acquire h))
  | no h ↦ pong_moves s s.pong refl i (inr (e, omega arith))
]
moves_at s increment e i = inr (ping_step e Ping.count)
moves_at s release_pong e i = inr (ping_step e Ping.release)
moves_at s ping_done e i = pong_moves s s.pong refl i (inl e)

-- No deadlock: in every state that the program reaches, a thread can move, or both threads have
-- left their loops and `counter` has passed the limit by one.
pub semaphore_no_deadlock :
    (limit : ℕ) (s : State)
    → Reach (Step limit) init s
    → Joined limit s ⊎ ((t : State) × Step limit s t)
semaphore_no_deadlock limit s r = moves_at s s.ping refl (Reach-Inv r)

-- From every state that the program reaches it goes on to a state in which both threads have left
-- their loops, with `counter` one above the limit; and no run goes on for ever, since a number
-- falls with every step.
pub semaphore_ends :
    (limit : ℕ) (s : State)
    → Reach (Step limit) init s
    → ((t : State) × Reach (Step limit) s t × Joined limit t)
      × ((t : State) → Step limit s t → measure limit t < measure limit s)
semaphore_ends limit s r = (
  Reach-final (Step limit) (Inv limit) (Joined limit) (measure limit) Step-Inv Step-falls
      (λ u i. moves_at u u.ping refl i) (suc (measure limit s)) s (Reach-Inv r) (omega arith),
  λ t st. Step-falls s t (Reach-Inv r) st,
)
