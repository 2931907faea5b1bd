-- ===== src/Lib.antt =====
-- Models of the C++20 example programs: coroutines and their schedulers, generators, a parser of a
-- byte stream, and threads that share atomics, semaphores, mutexes, latches and a barrier.
--
-- Parts, and how they interact:
-- - Coroutine: frames as the compiler makes them of a body and its promise type. A body is cut at its
--   suspend points; the live frames are a store by address. resume, done and destroy of a frame that
--   is not there, or resume of one at its final suspend point, are undefined, an outcome of Exec.
-- - Scheduler/Loop: the loop of Scheduler::schedule over any container, by which all schedulers run
--   frames. Scheduler/Queue is concurrency/queueScheduler.cpp, Scheduler/Stack
--   concurrency/stackScheduler.cpp, and Scheduler/Priority the four programs over
--   std::priority_queue: Plain is concurrency/problems/priority_queueScheduler.cpp, Comparator is
--   priority_queueSchedulerComperator.cpp of concurrency/problems/solutions and, with std::less,
--   concurrency/problems/priority_queueSchedulerSimplified.cpp, and Update is
--   priority_queueSchedulerUpdatePriority.cpp of the solutions. There std::priority_queue is a
--   parameter with its documented contract, Priority/Contract; Priority/Sorted has one that runs.
--   Scheduler/Cooperative is coroutines/utils/cooperative_tasks/main.cpp, where coroutines put
--   themselves back, and Scheduler/TaskScheduler is coroutines/task_scheduler/main.cpp, where they
--   also start at once and free themselves; both refine the round-robin scheduler.
--   Scheduler/Timed is coroutines/utils/cooperative_tasks_with_asynchrony/main.cpp, where coroutines
--   wait for times of a clock that is a parameter.
-- - Parser: coroutines/datastream_parser/main.cpp; Parse is a state machine over its suspend points,
--   SendData and operator() are operations of the generator, ProcessStream the loop over the bytes.
-- - Generator: a frame with the value of its promise. Generator/Exhausted is
--   coroutines/utils/generator/main.cpp, Generator/Range coroutines/utils/generator_range/main.cpp,
--   Generator/Elements concurrency/coroutineGetElements.cpp, and Generator/Interleaved
--   coroutines/generator_2/main.cpp, a coroutine that owns two generators; Generator/Stream is
--   concurrency/infiniteDataStream.cpp with the overflow of int, and Generator/Stream/Commented
--   concurrency/infiniteDataStreamComments.cpp with what its functions print; Generator/Primes is
--   coroutines/generate_primes/main.cpp with the wrap-around of its 64 bits, and Generator/Audio
--   concurrency/producerConsumer.cpp, where one coroutine awaits what another one yields.
-- - Nested: coroutines that wait for coroutines; Nested/StateMachine is coroutines/crsm/main.cpp,
--   where control is transferred, and Nested/Recursion coroutines/recursion/main.cpp, where it goes
--   step by step; Nested/Async is coroutines/nested/main.cpp, where the innermost coroutine waits for
--   data of a scheduler.
-- - Logged: the programs of coroutines/basic_examples whose promise types report every call;
--   Logged/Task is the coroutine f with the members of Task and promise_type, Logged/Programs and
--   Logged/Allocated the programs (co_yield_alloc_heap, co_yield_alloc_stack and co_yield_alloc_pmr),
--   and Logged/Handles the class UniqueCoroHandle of co_return_custom_handle.
-- - Steps: reachability by single atomic actions of threads. PingPong holds the programs of
--   concurrency/ping_pong_performance_test, a module each; Accounts holds
--   concurrency/problems/breakingInvariant.cpp and its solution breakingInvariantSolved.cpp. A thread
--   is the place where it is; a step is one atomic action of one thread, so every interleaving of
--   sequentially consistent actions is a sequence of steps.
-- - Threads: the same for any number of threads that run the same code, with sums over their places.
--   Monitors/ThreadQueue is concurrency/threadSafeQueue.cpp, Monitors/GuardedQueue the programs
--   threadsafequeue1.cpp and threadsafequeue2.cpp with the same actions, and Monitors/Split
--   concurrency/monitorObject.cpp with the classes of concurrency/monitorObjectCpp20.cpp;
--   Monitors/Spinlock is concurrency/problems/spinLock.cpp and its solution spinLockBreak.cpp.
-- - Summation: threads as lists of the actions that they make on a shared sum and a mutex.
--   Summation/Programs has the eight programs of concurrency/ in which four threads add up values:
--   synchronizationWithLock.cpp, synchronizationWithAtomic.cpp, synchronizationWithFetchAdd.cpp,
--   synchroniuationWithFetchAddRelaxed.cpp, localVariable.cpp, localVariableAtomic.cpp,
--   localVariableAtomicRelaxed.cpp and threadLocalSummation.cpp. Summation/Single has the programs
--   with one thread, calculateWithLoop.cpp, calculateWithLock.cpp, calculateWithAtomic.cpp and
--   calculateWithStd.cpp, and tasksSummation.cpp with its promises.
-- - Singleton: getInstance of concurrency/singletonAcquireRelease.cpp,
--   singletonSequentialConsistency.cpp, singletonLock.cpp, singletonCallOnce.cpp, singletonMeyers.cpp,
--   singleton.cpp and concurrency/problems/solutions/singletonMultithreading.cpp. Objects are numbered
--   as they are made, and a pointer is the number of its object.
-- - Latches: threads as lists of the actions that they make on two latches and on the output, for
--   concurrency/latches_barriers/workers.cpp and concurrency/bossWorkers.cpp.
-- - Barrier: concurrency/latches_barriers/fullTimePartTimeWorkers.cpp, with the phases of the barrier.
-- - ReadersWriters: concurrency/readerWriterLock.cpp, where look-ups may make entries; each access is
--   a place of its own, so two threads at accesses are a race.
-- - Detached: coroutines/basic_examples/co_await_external/main.cpp and co_await_transform/main.cpp,
--   where a detached thread resumes the frame that main destroys; undefined outcomes, data races
--   among them, are states.
-- - Functions: coroutines/utils/routine, function and lazy_function, whose coroutines are called like
--   functions; Functions/Awaitable is coroutines/utils/awaitable_coroutines, where they await each other.
-- - ActiveObject: concurrency/activeObject.cpp; the clients of main are threads that enqueue tasks, and
--   the servant runs the list that they have made.
--
-- Bounds and fuel: the loops of the schedulers, of the generators' clients and of isPrime are bounded
-- by fuel; the theorems on them say how much fuel is enough. Widths are written out in
-- Generator/Stream, Logged/Allocated, ActiveObject and Summation/Single (int), and Generator/Primes
-- and Summation (unsigned long long);
-- elsewhere numbers are natural numbers or integers without a width, where the programs stay far from
-- the limits of int.
--
-- Not modelled: most of what is printed around the results, times (but for Scheduler/Timed), the C++
-- memory orders weaker than sequential consistency, and the programs that only call the standard
-- library.
pub mod Prelude
pub mod Coroutine
pub mod Scheduler
pub mod Parser
pub mod Steps
pub mod PingPong
pub mod Accounts
pub mod Generator
pub mod Nested
pub mod Threads
pub mod Monitors
pub mod Logged
pub mod ActiveObject
pub mod Summation
pub mod Singleton
pub mod Latches
pub mod ReadersWriters
pub mod Detached
pub mod Barrier
pub mod Functions
