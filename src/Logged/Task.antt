-- ===== src/Logged/Task.antt =====
-- coroutines/basic_examples/*/main.cpp: what the compiler makes of the coroutine `f`, and the member
-- functions of `Task` and of `Task::promise_type`, which differ in a few places from program to program.
use cpp20examples.Prelude.{ℕ, Bool, true, false, if◌then◌else◌, leb, List, [], ◌∷◌, ◌++◌}
use cpp20examples.Prelude.Exec.{Exec, ok, undefined, ◌>>=◌}
use cpp20examples.Prelude.Int.{ℤ, pos, negsuc}
use cpp20examples.Coroutine.{Item, text, num, Suspend, suspend_always, suspend_never}
use cpp20examples.Logged.{Log, log, enter, leave, call}

-- What `f` does from a suspend point on; `co_await MyAwiatable{}` comes with the value of
-- `await_ready`, and `await_resume` is where it goes on after a suspension.
pub data Code : Type 0 where
  print : List Item → Code → Code
  co_yield : ℤ → Code → Code
  co_await : Bool → (ℤ → Code) → Code
  await_resume : (ℤ → Code) → Code
  co_return : ℤ → Code
  co_return_void throw overflow : Code

-- The data of `promise_type`. `mYieldedValue` is a list of one value; where `yield_value` does not
-- suspend it is the queue `mYieldedValues`.
pub record Promise : Type 0 where
  pub returned_value : ℤ
  pub awaited_value : ℤ
  pub yielded : List ℤ

-- Where the memory of the frame comes from: the default, `operator new` over `malloc`, over a buffer
-- in the caller with two arguments of `f`, or over a memory resource, if one is set.
pub data Allocation : Type 0 where
  by_default heap : Allocation
  stack : ℤ → ℤ → Allocation
  resource : Bool → Allocation

-- How the programs differ: the suspend points, the memory and the size of the frame, which the
-- compiler chooses, and whether the destructor of `Task`, its constructor and the promise's
-- constructor and destructor, and a handler of exceptions that goes on are there.
pub record PromiseType : Type 0 where
  pub initial : Suspend
  pub yielding : Suspend
  pub final : Suspend
  pub allocation : Allocation
  pub frame_size : ℕ
  pub logs_destructor : Bool
  pub logs_promise : Bool
  pub handles_exceptions : Bool

pub data Frame : Type 0 where
  not_started suspended : Code → Promise → Frame
  final_suspended : Promise → Frame
  freed : Frame

-- `promise_type::operator new`; an `assert` that fails is an outcome like undefined behaviour.
unfoldable pub allocate : Allocation → ℕ → Log → Exec Log
allocate by_default size l = ok l
allocate heap size l = ok (call "operator new" l)
allocate (stack a b) size l =
    let l' =
      log (text "size: " ∷ num (pos size) ∷ [])
        (log (text "arguments: " ∷ num a ∷ text " " ∷ num b ∷ []) (enter "operator new" l)) in
    if leb size 200 then ok (leave "operator new" l') else undefined
allocate (resource is_set) size l =
    let l' = log (text "size: " ∷ num (pos size) ∷ []) (enter "operator new" l) in
    if is_set then ok (leave "operator new" l') else undefined

-- `promise_type::operator delete`
unfoldable pub deallocate : Allocation → Log → Log
deallocate by_default l = l
deallocate _ l = call "operator delete" l

-- The end of a frame: the promise's destructor, and its memory.
unfoldable pub free_frame : PromiseType → Log → Log
unfolding deallocate
free_frame t l = deallocate t.allocation (if t.logs_promise then call "~promise_type" l else l)

-- `yield_value`
unfoldable pub yield_value : Suspend → ℤ → Promise → Promise
yield_value suspend_always v p = record p { yielded = v ∷ [] }
yield_value suspend_never v p = record p { yielded = p.yielded ++ v ∷ [] }

-- `unhandled_exception`: it aborts, or it reports the exception, with no blanks before the line.
unfoldable pub unhandled_exception : Bool → Log → Exec Log
unhandled_exception false l = undefined
unhandled_exception true l =
    let l' =
      log (text "uncaught_exceptions() " ∷ num (pos 0) ∷ []) (enter "unhandled_exception" l) in
    let caught = text "Caught exception: '" ∷ text "std::exception" ∷ text "'" ∷ [] in
    ok (leave "unhandled_exception" (record l' { lines = (0, caught) ∷ l'.lines }))

-- `final_suspend`, once the logger of `f` is gone.
unfoldable pub final_suspend : PromiseType → Promise → Log → Frame × Log
unfolding free_frame
final_suspend t p l = elim t.final [
  | suspend_always ↦ (final_suspended p, call "final_suspend" l)
  | suspend_never ↦ (freed, free_frame t (call "final_suspend" l))
]

-- `f` runs up to a suspend point or to its end.
unfoldable pub run : PromiseType → Code → Promise → Log → Exec (Frame × Log)
unfolding yield_value unhandled_exception final_suspend
run t (print items c) p l = run t c p (log items l)
run t (co_yield v c) p l =
    let runs_on = run t c (yield_value suspend_never v p) (call "yield_value" l) in
    elim t.yielding [
      | suspend_always ↦ ok (suspended c (yield_value suspend_always v p), call "yield_value" l)
      | suspend_never ↦ runs_on
    ]
run t (co_await true k) p l = run t (k (negsuc 0)) p (call "await_resume" (call "await_ready" l))
run t (co_await false k) p l =
    ok (suspended (await_resume k) p, call "await_suspend" (call "await_ready" l))
run t (await_resume k) p l = run t (k p.awaited_value) p (call "await_resume" l)
run t (co_return v) p l =
    ok (final_suspend t (record p { returned_value = v }) (leave "f" (call "return_value" l)))
run t co_return_void p l = ok (final_suspend t p (leave "f" (call "return_void" l)))
run t throw p l =
    unhandled_exception t.handles_exceptions (leave "f" l) >>= λ l'. ok (final_suspend t p l')
run t overflow p l = undefined

-- `handle.resume()`
unfoldable pub resume : PromiseType → Frame → Log → Exec (Frame × Log)
unfolding run
resume t (not_started c p) l = run t c p (enter "f" l)
resume t (suspended c p) l = run t c p l
resume t (final_suspended p) l = undefined
resume t freed l = undefined

-- The promise's constructor, and the data that it starts with.
abbrev pub new_promise : Suspend → Promise
new_promise s = record {
  returned_value = pos 0;
  awaited_value = pos 0;
  yielded = elim s [ suspend_always ↦ pos 0 ∷ [] | suspend_never ↦ [] ];
}

-- `get_return_object`, with what the constructor of `Task` reports.
abbrev pub get_return_object : PromiseType → Log → Log
get_return_object t l =
    let l' = enter "get_return_object" l in
    leave "get_return_object" (if t.logs_promise then call "Task" l' else l')

-- A call of `f`: the frame, the promise, the `Task`, and `initial_suspend`.
unfoldable pub create : PromiseType → Code → Log → Exec (Frame × Log)
unfolding allocate resume
create t c l = allocate t.allocation t.frame_size l >>= λ l1.
    let l2 = if t.logs_promise then call "promise_type" l1 else l1 in
    let l3 = call "initial_suspend" (get_return_object t l2) in
    let frame = not_started c (new_promise t.yielding) in
    elim t.initial [ suspend_always ↦ ok (frame, l3) | suspend_never ↦ resume t frame l3 ]

-- `handle.destroy()`
unfoldable pub destroy : PromiseType → Frame → Log → Exec Log
unfolding free_frame
destroy t (not_started c p) l = ok (free_frame t l)
destroy t (suspended c p) l = ok (free_frame t (leave "f" l))
destroy t (final_suspended p) l = ok (free_frame t l)
destroy t freed l = undefined

-- `~Task`
unfoldable pub drop_task : PromiseType → Frame → Log → Exec Log
unfolding destroy
drop_task t frame l =
    if t.logs_destructor
    then (destroy t frame (enter "~Task" l) >>= λ l'. ok (leave "~Task" l'))
    else destroy t frame l

-- `handle.done()`, which reads the frame.
abbrev pub done : Frame → Exec Bool
done freed = undefined
done (final_suspended p) = ok true
done _ = ok false

-- `handle.promise()`
abbrev pub promise_of : Frame → Exec Promise
promise_of (not_started c p) = ok p
promise_of (suspended c p) = ok p
promise_of (final_suspended p) = ok p
promise_of freed = undefined
