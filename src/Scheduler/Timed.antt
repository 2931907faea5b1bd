-- ===== src/Scheduler/Timed.antt =====
-- coroutines/utils/cooperative_tasks_with_asynchrony/main.cpp: coroutines that wait for a time. The
-- clock is not under the program's control: what passes up to each reading of it is a parameter, in
-- milliseconds, and it does not go back.
pub mod Round
pub mod Ends
mod Tests
use cpp20examples.Prelude.{
  Bool, ℕ, zero, suc, ◌+◌, ◌==◌, ltb, ◌&&◌, ◌||◌, if◌then◌else◌, List, [], ◌∷◌, ◌++◌, Option, none,
  some, map,
}
use cpp20examples.Prelude.Exec.{Exec, ok, undefined, out_of_fuel, ◌>>=◌}
use cpp20examples.Coroutine.{write}

-- `std::chrono::system_clock`, by its last reading and what passes before each of the next ones.
pub record Clock : Type 0 where
  pub reading : ℕ
  pub passing : ℕ → ℕ

-- `now()`, and the return from `std::this_thread::sleep_until`, which is not before its time.
abbrev pub now : Clock → Clock
now c = record { reading = c.reading + c.passing 0; passing = λ k. c.passing (suc k) }

abbrev pub sleep_until : ℕ → Clock → Clock
sleep_until t c = record { reading = t + c.passing 0; passing = λ k. c.passing (suc k) }

-- A coroutine of type `Task` from a suspend point on: `auto time = now()`, a line with `now()`,
-- `co_await` of a time, and the end.
pub data Code : Type 0 where
  read_now : (ℕ → Code) → Code
  puts_now : Code → Code
  co_await : ℕ → Code → Code
  co_return : Code

-- `timed_coroutine`
pub record Timed : Type 0 where
  pub time : ℕ
  pub handle : ℕ

-- `operator<` of pairs, by which `std::greater` puts the earliest on top.
abbrev pub before : Timed → Timed → Bool
before a b = ltb a.time b.time || ((a.time == b.time) && ltb a.handle b.handle)

-- The scheduler's `pending_coroutines_` in the order in which they leave, the frames, the clock and the
-- output, with the time at which each coroutine was due and that at which it went on.
pub record State : Type 0 where
  pub pending : List Timed
  pub frames : ℕ → Option Code
  pub clock : Clock
  pub printed : List ℕ
  pub resumed : List (ℕ × ℕ)

-- `enqueue`
unfoldable pub push : Timed → List Timed → List Timed
push a [] = a ∷ []
push a (b ∷ q) = let rest = push a q in if before a b then a ∷ b ∷ q else b ∷ rest

-- `resume`: up to `co_await`, whose `await_suspend` enqueues the coroutine, or to the end, after which
-- `run` destroys it.
unfoldable pub resume : ℕ → Code → State → State
unfolding push
resume h (read_now k) s = resume h (k (now s.clock).reading) (record s { clock = now s.clock })
resume h (puts_now c) s =
    resume h c (record s { clock = now s.clock; printed = s.printed ++ (now s.clock).reading ∷ [] })
resume h (co_await t c) s = record s {
  pending = push (record { time = t; handle = h }) s.pending;
  frames = write s.frames h (some c);
}
resume h co_return s = record s { frames = write s.frames h none }

-- `sleep_until` where the time on top is still to come.
abbrev pub wait_for : ℕ → Clock → Clock
wait_for t c = let c' = now c in if ltb c'.reading t then sleep_until t c' else c'

-- One round of `run`: `resume` of a frame that is not there is undefined.
abbrev pub round : Timed → List Timed → Option Code → State → Exec State
round top q none s = undefined
round top q (some c) s =
    let clock' = wait_for top.time s.clock in
    ok (
      resume top.handle c (record s {
        pending = q;
        clock = clock';
        resumed = (top.time, clock'.reading) ∷ s.resumed;
      }))

-- `run`: its loop, by what `pending_coroutines_` holds.
abbrev pub rounds : (State → Exec State) → List Timed → State → Exec State
rounds loop [] s = ok s
rounds loop (top ∷ q) s = round top q (s.frames top.handle) s >>= loop

unfoldable pub run : ℕ → State → Exec State
unfolding resume
run zero s = out_of_fuel
run (suc fuel) s = rounds (run fuel) s.pending s

-- A call of the coroutine and `detach`, which enqueues it for now.
unfoldable pub detach : ℕ → Code → State → State
unfolding push
detach h c s = record s {
  pending = push (record { time = (now s.clock).reading; handle = h }) s.pending;
  frames = write s.frames h (some c);
  clock = now s.clock;
}

-- `coro` of `main`
unfoldable pub coro : Code
coro =
    read_now λ time.
      puts_now (co_await (time + 200) (puts_now (co_await (time + 400) (puts_now co_return))))

-- No coroutine, at the start of `main`.
abbrev pub start : Clock → State
start c = record { pending = []; frames = λ h. none; clock = c; printed = []; resumed = [] }

-- Some coroutines are called and detached, at the addresses below `n`; `main` has two, both `coro`.
unfoldable pub detach_all : (ℕ → Code) → ℕ → Clock → State
unfolding detach
detach_all codes zero c = start c
detach_all codes (suc n) c = detach n (codes n) (detach_all codes n c)

unfoldable pub main : ℕ → Clock → Exec State
unfolding detach_all run coro
main fuel c = run fuel (detach_all (λ i. coro) 2 c)
