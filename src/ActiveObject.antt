-- ===== src/ActiveObject.antt =====
-- concurrency/activeObject.cpp: clients that enqueue tasks at the same time, a servant that runs them,
-- and `main`, which sorts the results. The random numbers are a parameter.
pub mod Division
pub mod Results
pub mod Servant
pub mod Order
mod Tests
use cpp20examples.Prelude.{
  ℕ, zero, suc, ◌+◌, ◌*◌, ◌%◌, Bool, true, false, ◌==◌, ◌&&◌, ◌||◌, ltb, leb, if◌then◌else◌, List,
  [], ◌∷◌, ◌++◌, map, Option, none, some,
}
use cpp20examples.Prelude.Exec.{Exec, ok, undefined, out_of_fuel, ◌>>=◌}
use cpp20examples.Prelude.Int.{int_max}
use cpp20examples.Coroutine.{write}
use cpp20examples.Threads.{System, Step}

-- The loop of `IsPrime::operator()`, from the divisor `j` on; a square beyond `int` is undefined.
unfoldable pub no_divisor : ℕ → ℕ → ℕ → Exec (Bool × ℕ)
unfolding int_max
no_divisor zero i j = out_of_fuel
no_divisor (suc fuel) i j =
    let rest = no_divisor fuel i (j + 1) in
    let body = if i % j == 0 then ok (false, i) else rest in
    if leb (j * j) int_max then (if leb (j * j) i then body else ok (true, i)) else undefined

unfoldable pub is_prime : ℕ → ℕ → Exec (Bool × ℕ)
unfolding no_divisor
is_prime fuel i = no_divisor fuel i 2

-- A `packaged_task`, by the number of its shared state, with its argument.
pub record Job : Type 0 where
  pub promise : ℕ
  pub argument : ℕ

-- `ActiveObject`, with the number of the next shared state. The mutex is held for one access to the
-- list at a time.
pub record ActiveObject : Type 0 where
  pub activation_list : List Job
  pub next : ℕ

-- `enqueueTask`; the future is `next` of before.
abbrev pub enqueue_task : ℕ → ActiveObject → ActiveObject
enqueue_task i a = record {
  activation_list = a.activation_list ++ record { promise = a.next; argument = i } ∷ [];
  next = suc a.next;
}

-- The task of `getFutures`: the numbers that it has still to enqueue, and `futures`.
pub record Client : Type 0 where
  pub remaining : List ℕ
  pub futures : List ℕ

pub data Act : ActiveObject → Client → ActiveObject → Client → Type 0 where
  enqueue :
      {a : ActiveObject} {i : ℕ} {rest fs : List ℕ}
      → Act a
          (record { remaining = i ∷ rest; futures = fs })
          (enqueue_task i a)
          (record { remaining = rest; futures = fs ++ a.next ∷ [] })

-- `main` with its clients, and what they do.
abbrev pub init : (ℕ → List ℕ) → System ActiveObject Client
init numbers = record {
  memory = record { activation_list = []; next = 0 };
  pc = λ i. record { remaining = numbers i; futures = [] };
}

abbrev pub MainStep : ℕ → System ActiveObject Client → System ActiveObject Client → Type 0
MainStep n = Step n Act

-- The shared states: the value, once the task has run.
abbrev pub States : Type 0
States = ℕ → Option (Bool × ℕ)

-- `isEmpty` and `dequeueTask`, where `front` of the empty list is undefined.
abbrev pub is_empty : List Job → Bool
is_empty [] = true
is_empty (job ∷ jobs) = false

abbrev pub dequeue_task : List Job → Exec (Job × List Job)
dequeue_task [] = undefined
dequeue_task (job ∷ jobs) = ok (job, jobs)

-- `run`
unfoldable pub run : ℕ → List Job → States → Exec States
unfolding is_prime
run zero jobs states = out_of_fuel
run (suc fuel) jobs states =
    let work = dequeue_task jobs >>= λ taken. is_prime taken.0.argument taken.0.argument >>= λ p.
    run fuel taken.1 (write states taken.0.promise (some p)) in
    if is_empty jobs then ok states else work

-- `get` for each of some futures; there is no value to wait for where the task has not run.
unfoldable pub get_all : List ℕ → States → Exec (List (Bool × ℕ))
get_all [] states = ok []
get_all (f ∷ fs) states =
    let rest = get_all fs states in
    elim (states f) [ none ↦ undefined | some p ↦ rest >>= λ ps. ok (p ∷ ps) ]

-- `operator<=` of pairs, and `std::sort` by it.
abbrev pub leb_pair : Bool × ℕ → Bool × ℕ → Bool
leb_pair (false, m) (true, n) = true
leb_pair (true, m) (false, n) = false
leb_pair (_, m) (_, n) = leb m n

unfoldable pub insert : Bool × ℕ → List (Bool × ℕ) → List (Bool × ℕ)
insert p [] = p ∷ []
insert p (q ∷ ps) = let rest = insert p ps in if leb_pair p q then p ∷ q ∷ ps else q ∷ rest

unfoldable pub sort : List (Bool × ℕ) → List (Bool × ℕ)
unfolding insert
sort [] = []
sort (p ∷ ps) = insert p (sort ps)

-- What `main` prints of the numbers in front of the first pair with true, and of those from it on.
pub record Output : Type 0 where
  pub no_primes : List ℕ
  pub primes : List ℕ

unfoldable pub separate : List (Bool × ℕ) → Output
separate [] = record { no_primes = []; primes = [] }
separate ((true, i) ∷ ps) = record { no_primes = []; primes = i ∷ map (λ (p : Bool × ℕ). p.1) ps }
separate ((false, i) ∷ ps) =
    let rest = separate ps in record rest { no_primes = i ∷ rest.no_primes }

-- The futures of all clients in one vector.
abbrev pub all_futures : ℕ → (ℕ → Client) → List ℕ
all_futures zero pc = []
all_futures (suc n) pc = all_futures n pc ++ (pc n).futures

-- `main` from `activeObject.run()` on.
unfoldable pub main_ends : ℕ → ℕ → System ActiveObject Client → Exec Output
unfolding run get_all sort separate
main_ends fuel n s =
    run fuel s.memory.activation_list (λ f. none) >>= get_all (all_futures n s.pc) >>= λ ps.
    ok (separate (sort ps))
