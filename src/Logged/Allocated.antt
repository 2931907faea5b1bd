-- ===== src/Logged/Allocated.antt =====
-- coroutines/basic_examples/co_yield_alloc_*/main.cpp: the Fibonacci numbers, from frames in different
-- memory, with the overflow of `int`.
use cpp20examples.Prelude.{ℕ, zero, suc, ◌+◌, true, false, if◌then◌else◌, leb}
use cpp20examples.Prelude.Exec.{Exec, ok, out_of_fuel, ◌>>=◌}
use cpp20examples.Prelude.Int.{int_max, pos}
use cpp20examples.Coroutine.{suspend_always}
use cpp20examples.Logged.{Log}
use cpp20examples.Logged.Task.{
  stack, resource, heap, Code, co_yield, co_return_void, overflow, Allocation, PromiseType, Frame,
  resume, create, drop_task, done,
}
use cpp20examples.Logged.Programs.{main_starts, main_ends, resume_pair, report_yielded}

-- co_yield_alloc_heap, co_yield_alloc_stack, co_yield_alloc_pmr: they differ in `operator new`.
abbrev pub allocating : Allocation → ℕ → PromiseType
allocating a size = record {
  initial = suspend_always;
  yielding = suspend_always;
  final = suspend_always;
  allocation = a;
  frame_size = size;
  logs_destructor = true;
  logs_promise = false;
  handles_exceptions = false;
}

-- The loop of `f`, with what `a` and `b` hold; a sum beyond `int` is undefined.
unfoldable pub repeats : ℕ → ℕ → ℕ → ℕ → Code
unfolding int_max
repeats zero a b extra = co_return_void
repeats (suc repetitions) a b extra =
    let rest = repeats repetitions b (a + b) extra in
    if leb (a + b) int_max
    then (if leb (b + extra) int_max then co_yield (pos (b + extra)) rest else overflow)
    else overflow

unfoldable pub f : ℕ → ℕ → Code
unfolding repeats
f repetitions extra = co_yield (pos 0) (repeats repetitions 0 1 extra)

-- `while (!task.resume())`
unfoldable pub fibonacci_loop : PromiseType → ℕ → Frame × Log → Exec (Frame × Log)
unfolding resume
fibonacci_loop t zero s = out_of_fuel
fibonacci_loop t (suc fuel) s = resume_pair t s >>= λ s'.
    let again = report_yielded s' >>= fibonacci_loop t fuel in
    done s'.0 >>= λ d. if d then ok s' else again

unfoldable pub fibonacci_main : Allocation → ℕ → ℕ → Code → Exec Log
unfolding create drop_task fibonacci_loop
fibonacci_main a size fuel c =
    main_starts (allocating a size) c
    >>= fibonacci_loop (allocating a size) fuel
    >>= main_ends (allocating a size)

-- co_yield_alloc_heap
unfoldable pub heap_main : ℕ → ℕ → Exec Log
unfolding fibonacci_main f
heap_main size fuel = fibonacci_main heap size fuel (f 5 1)

-- co_yield_alloc_stack
abbrev pub in_buffer : ℕ → PromiseType
in_buffer size = allocating (stack (pos 5) (pos 1)) size

unfoldable pub stack_main : ℕ → ℕ → Exec Log
unfolding fibonacci_main f
stack_main size fuel = fibonacci_main (stack (pos 5) (pos 1)) size fuel (f 5 1)

-- co_yield_alloc_pmr: `main` sets the resource.
abbrev pub in_resource : ℕ → PromiseType
in_resource size = allocating (resource true) size

unfoldable pub pmr_main : ℕ → ℕ → Exec Log
unfolding fibonacci_main f
pmr_main size fuel = fibonacci_main (resource true) size fuel (f 5 1)
