-- ===== src/Logged/Programs.antt =====
-- coroutines/basic_examples/*/main.cpp: the promise types, coroutines and `main` functions. Numbers
-- are mathematical integers: these programs stay far from the limits of `int`.
use cpp20examples.Prelude.{
  ℕ, zero, suc, Bool, true, false, if◌then◌else◌, String, List, [], ◌∷◌, length,
}
use cpp20examples.Prelude.Exec.{Exec, ok, undefined, out_of_fuel, ◌>>=◌}
use cpp20examples.Prelude.Int.{ℤ, pos}
use cpp20examples.Coroutine.{text, num, suspend_always, suspend_never}
use cpp20examples.Logged.{Log, log, enter, leave}
use cpp20examples.Logged.Task.{
  Code, print, co_yield, co_await, co_return, throw, Promise, by_default, PromiseType, Frame,
  resume, create, drop_task, done, promise_of,
}

-- `main` up to and with the call of `f`, and from the end of its last statement on.
abbrev pub main_starts : PromiseType → Code → Exec (Frame × Log)
main_starts t c = create t c (enter "main" (record { indent = 0; lines = [] }))

abbrev pub main_ends : PromiseType → Frame × Log → Exec Log
main_ends t (frame, l) = drop_task t frame l >>= λ l'. ok (leave "main" l')

abbrev pub report : String → ℤ → Log → Log
report name v = log (text name ∷ num v ∷ [])

-- `get_returned_value`, reported.
abbrev pub report_returned : Frame × Log → Exec (Frame × Log)
report_returned (frame, l) =
    promise_of frame >>= λ p. ok (frame, report "ReturnedValue " p.returned_value l)

-- `get_yielded_value` of one value
abbrev pub yielded_value : Promise → ℤ
yielded_value p = elim p.yielded [ [] ↦ pos 0 | v ∷ vs ↦ v ]

abbrev pub resume_pair : PromiseType → Frame × Log → Exec (Frame × Log)
resume_pair t (frame, l) = resume t frame l

-- value_co_return
abbrev pub plain : PromiseType
plain = record {
  initial = suspend_never;
  yielding = suspend_always;
  final = suspend_always;
  allocation = by_default;
  frame_size = 0;
  logs_destructor = false;
  logs_promise = false;
  handles_exceptions = false;
}

unfoldable pub value_main : Exec Log
unfolding create drop_task
value_main =
    main_starts plain (co_return (pos 42))
    >>= (λ (frame, l). promise_of frame >>= λ p. ok (frame, log (num p.returned_value ∷ []) l))
    >>= main_ends plain

-- co_yield_simple, co_yield_suspended_loop: `f` yields some values and returns one.
abbrev pub yields : List ℤ → ℤ → Code
yields [] r = co_return r
yields (v ∷ vs) r = co_yield v (yields vs r)

abbrev pub report_yielded : Frame × Log → Exec (Frame × Log)
report_yielded (frame, l) =
    promise_of frame >>= λ p. ok (frame, report "YieldedValue " (yielded_value p) l)

-- co_yield_simple: `main` resumes once.
abbrev pub simple : PromiseType
simple = plain

unfoldable pub simple_main : Code → Exec Log
unfolding create resume drop_task
simple_main c =
    main_starts simple c
    >>= report_yielded
    >>= resume_pair simple
    >>= report_returned
    >>= main_ends simple

-- co_yield_suspended_loop: the loop of `main`, whose test resumes.
abbrev pub stopping : PromiseType
stopping = plain

unfoldable pub suspended_loop : ℕ → Frame × Log → Exec (Frame × Log)
unfolding resume
suspended_loop zero s = out_of_fuel
suspended_loop (suc fuel) s = report_yielded s >>= resume_pair stopping >>= λ s'.
    let again = suspended_loop fuel s' in done s'.0 >>= λ d. if d then ok s' else again

unfoldable pub suspended_main : ℕ → Code → Exec Log
unfolding create drop_task suspended_loop
suspended_main fuel c =
    main_starts stopping c >>= suspended_loop fuel >>= report_returned >>= main_ends stopping

-- co_yield_unsuspended_loop: `f` does not stop at its values, which a queue keeps. The loop of `main`
-- copies the queue until `f` is done, and resumes nothing.
abbrev pub unsuspended : PromiseType
unsuspended = record plain { yielding = suspend_never }

unfoldable pub unsuspended_loop : ℕ → List ℤ → Frame × Log → Exec (List ℤ × Frame × Log)
unsuspended_loop zero vs s = out_of_fuel
unsuspended_loop (suc fuel) vs (frame, l) = promise_of frame >>= λ p.
    let s' : Frame × Log = (frame, report "Yielded values count: " (pos (length p.yielded)) l) in
    let again = unsuspended_loop fuel p.yielded s' in
    done frame >>= λ d. if d then ok (p.yielded, s'.0, s'.1) else again

abbrev pub report_all : List ℤ → Log → Log
report_all [] l = l
report_all (v ∷ vs) l = report_all vs (report "Yielded value: " v l)

unfoldable pub unsuspended_main : ℕ → Code → Exec Log
unfolding create drop_task unsuspended_loop
unsuspended_main fuel c =
    main_starts unsuspended c
    >>= unsuspended_loop fuel []
    >>= (λ (vs, frame, l). ok (frame, report_all vs l))
    >>= report_returned
    >>= main_ends unsuspended

-- co_await_simple, co_await_simple_instant: whether `await_ready` holds.
unfoldable pub awaiting : Bool → Code
awaiting ready =
    co_await ready λ value. print (text "AwaitedValue " ∷ num value ∷ []) (co_return (pos 42))

-- `set_awaited_value`
abbrev pub set_awaited_value : ℤ → Frame → Exec Frame
set_awaited_value v frame = elim frame [
  | Frame.not_started c p ↦ ok (Frame.not_started c (record p { awaited_value = v }))
  | Frame.suspended c p ↦ ok (Frame.suspended c (record p { awaited_value = v }))
  | Frame.final_suspended p ↦ ok (Frame.final_suspended (record p { awaited_value = v }))
  | Frame.freed ↦ undefined
]

abbrev pub waiting : PromiseType
waiting = plain

unfoldable pub await_main : ℤ → Exec Log
unfolding create resume drop_task awaiting
await_main v =
    main_starts waiting (awaiting false)
    >>= (λ (frame, l). set_awaited_value v frame >>= λ frame'. resume waiting frame' l)
    >>= report_returned
    >>= main_ends waiting

abbrev pub instant : PromiseType
instant = plain

unfoldable pub await_instant_main : ℤ → Exec Log
unfolding create drop_task awaiting
await_instant_main v =
    main_starts instant (awaiting true)
    >>= (λ (frame, l). set_awaited_value v frame >>= λ frame'. ok (frame', l))
    >>= report_returned
    >>= main_ends instant

-- value_co_return_final_suspend_never: `main` resumes nothing.
abbrev pub never : PromiseType
never = record {
  initial = suspend_always;
  yielding = suspend_always;
  final = suspend_never;
  allocation = by_default;
  frame_size = 0;
  logs_destructor = true;
  logs_promise = true;
  handles_exceptions = false;
}

unfoldable pub never_main : Exec Log
unfolding create drop_task
never_main =
    main_starts never (co_return (pos 42))
    >>= (λ (frame, l). promise_of frame >>= λ p. ok (frame, log (num p.returned_value ∷ []) l))
    >>= main_ends never

-- value_co_return_custom_promise: `Task::resume` reports itself.
abbrev pub custom : PromiseType
custom = record plain { initial = suspend_always }

unfoldable pub custom_main : ℤ → Exec Log
unfolding create resume drop_task
custom_main n =
    main_starts custom (co_return n)
    >>= (λ (frame, l). resume custom frame (enter "resume" l))
    >>= (λ (frame, l). ok (frame, leave "resume" l))
    >>= report_returned
    >>= main_ends custom

-- void_co_return_exception: the `Task` has no handle, so nothing destroys the frame.
abbrev pub handling : PromiseType
handling = record plain { handles_exceptions = true }

unfoldable pub exception_main : Exec (Frame × Log)
unfolding create
exception_main = main_starts handling throw >>= λ (frame, l). ok (frame, leave "main" l)
