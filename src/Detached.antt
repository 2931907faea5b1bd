-- ===== src/Detached.antt =====
-- coroutines/basic_examples/co_await_external/main.cpp and co_await_transform/main.cpp: a coroutine is
-- resumed by a detached thread after a delay, while `main` sleeps, prints the value of the promise and
-- destroys the frame. Nothing but the two sleeps keeps the threads apart, so each sleep may end at any time
-- later. The lines of the loggers are left out.
pub mod Invariant
pub mod Outcomes
use cpp20examples.Prelude.{◌&&◌, not, ◌||◌, true, false, Bool, ℕ, ◌<◌, ◌≡◌, Option, none, some}

-- The frame of `f`: not made yet, suspended at `co_await`, resumed, at its final suspend point, destroyed.
pub data Frame : Type 0 where
  not_made suspended resumed final destroyed : Frame

-- The thread that `await_suspend` starts: not there, asleep, before `h.resume()`, in the coroutine, ended;
-- or it has used a frame that was destroyed, which is undefined.
pub data Timer : Type 0 where
  no_thread asleep before_resume running ended undefined_resume : Timer

-- Where `main` is: before `f()`, asleep, before it prints, before the destructor of `task`, ended; or it has
-- destroyed a frame that was not suspended, which is undefined.
pub data Main : Type 0 where
  start sleeping print destroy finished undefined_destroy : Main

-- With `mReturnedValue`, what was printed as it, and whether two unsynchronised accesses to the frame or
-- to `mReturnedValue` have been made by the two threads, one of which changes it: a data race, which is
-- undefined.
pub data State : Type 0 where
  state :
      (frame : Frame) (timer : Timer) (main_ : Main) (returned_value : ℕ) (printed : Option ℕ)
      (raced : Bool)
      → State

abbrev pub init : State
init = state not_made no_thread start 0 none false

abbrev is_some : Option ℕ → Bool
is_some none = false
is_some (some x) = true

abbrev has_ended : Timer → Bool
has_ended ended = true
has_ended _ = false

-- The steps, for an `mReturnedValue` that is atomic or not and a delay in milliseconds; both programs have
-- 1000. Nothing orders what the two threads do after the start of the second one: not the sleeps, and
-- not an atomic `mReturnedValue` for what follows the write of it, the final suspend point.
pub data Step (atomic : Bool) (delay : ℕ) : State → State → Type 0 where
  -- `await_ready` is true: `f` does not suspend before its final suspend point.
  call_ready :
      {f : Frame} {t : Timer} {v : ℕ} {p : Option ℕ} {r : Bool}
      → delay ≡ 0
      → Step atomic delay (state f t start v p r) (state final t sleeping 42 p r)
  -- `await_suspend` starts the thread and detaches it.
  call_suspend :
      {f : Frame} {t : Timer} {v : ℕ} {p : Option ℕ} {r : Bool}
      → 0 < delay
      → Step atomic delay (state f t start v p r) (state suspended asleep sleeping v p r)
  timer_wakes :
      {f : Frame} {m : Main} {v : ℕ} {p : Option ℕ} {r : Bool}
      → Step atomic delay (state f asleep m v p r) (state f before_resume m v p r)
  resume :
      {m : Main} {v : ℕ} {p : Option ℕ} {r : Bool}
      → Step atomic delay (state suspended before_resume m v p r) (state resumed running m v p r)
  resume_destroyed :
      {m : Main} {v : ℕ} {p : Option ℕ} {r : Bool}
      → Step atomic delay
          (state destroyed before_resume m v p r)
          (state destroyed undefined_resume m v p r)
  -- `co_return 42` and the final suspend point; `main` may have read the value.
  return_value :
      {f : Frame} {m : Main} {v : ℕ} {p : Option ℕ} {r : Bool}
      → Step atomic delay
          (state f running m v p r)
          (state final ended m 42 p (r || (not atomic && is_some p)))
  main_wakes :
      {f : Frame} {t : Timer} {v : ℕ} {p : Option ℕ} {r : Bool}
      → Step atomic delay (state f t sleeping v p r) (state f t print v p r)
  -- The other thread may have written the value.
  get_returned_value :
      {f : Frame} {t : Timer} {v : ℕ} {p : Option ℕ} {r : Bool}
      → Step atomic delay
          (state f t print v p r)
          (state f t destroy v (some v) (r || (not atomic && has_ended t)))
  destroy_resumed :
      {t : Timer} {v : ℕ} {p : Option ℕ} {r : Bool}
      → Step atomic delay (state resumed t destroy v p r) (state resumed t undefined_destroy v p r)
  destroy_suspended :
      {t : Timer} {v : ℕ} {p : Option ℕ} {r : Bool}
      → Step atomic delay (state suspended t destroy v p r) (state destroyed t finished v p r)
  -- The other thread may have brought the coroutine to its final suspend point.
  destroy_final :
      {t : Timer} {v : ℕ} {p : Option ℕ} {r : Bool}
      → Step atomic delay
          (state final t destroy v p r)
          (state destroyed t finished v p (r || has_ended t))

-- co_await_external/main.cpp: `mReturnedValue` is an `int`.
abbrev pub ExternalStep : ℕ → State → State → Type 0
ExternalStep = Step false

-- co_await_transform/main.cpp: `await_transform` of the promise makes the same awaiter, and
-- `mReturnedValue` is atomic.
abbrev pub TransformStep : ℕ → State → State → Type 0
TransformStep = Step true
