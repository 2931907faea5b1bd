-- ===== src/Generator/Audio.antt =====
-- concurrency/producerConsumer.cpp: a consumer that awaits what a producer yields. The producer runs
-- only when `main` calls it and when the consumer resumes it, so the program is sequential, although
-- the consumer has a thread of its own. The names that `funcName` prints are the short ones.
pub mod Received
mod Tests
use cpp20examples.Prelude.{
  ℕ, zero, suc, Bool, true, false, if◌then◌else◌, List, [], ◌∷◌, ◌++◌, Option, none, some,
}
use cpp20examples.Prelude.Exec.{Exec, ok, undefined, out_of_fuel, ◌>>=◌}
use cpp20examples.Coroutine.{Item, text}

-- The frame of `producer`: what it has still to yield, whether it is done, and `data_` and
-- `data_ready_` of its promise.
pub record Producer : Type 0 where
  pub to_yield : List (List ℕ)
  pub done : Bool
  pub audio_data : List ℕ
  pub data_ready : Bool

-- What the program prints: a name of `funcName`, the data received, or the end.
pub data Line : Type 0 where
  func_name : List Item → Line
  received : List ℕ → Line
  no_data : Line

-- `yield_value`
abbrev pub yield_value : List ℕ → Producer → Producer
yield_value value p = record p { audio_data = value; data_ready = true }

-- The body of `producer` up to its next `co_yield`; the last value is the exit criterion, in front of
-- which no name is printed.
abbrev pub produce : List (List ℕ) → Producer → List Line × Producer
produce [] p = ([], record p { done = true })
produce (v ∷ []) p = ([], yield_value v (record p { to_yield = [] }))
produce (v ∷ w ∷ vs) p =
    (func_name (text "producer" ∷ []) ∷ [], yield_value v (record p { to_yield = w ∷ vs }))

-- What `producer` yields in `n` rounds of its loop, and after it.
abbrev pub values : ℕ → List ℕ → List (List ℕ)
values zero d = [] ∷ []
values (suc n) d = d ∷ values n d

-- A call of `producer`, which starts at once.
unfoldable pub producer : ℕ → List ℕ → List Line × Producer
producer n d =
    produce (values n d)
      (record { to_yield = []; done = false; audio_data = []; data_ready = false })

-- `AudioDataResult::resume`
abbrev pub resume : Producer → List Line × Producer
resume p =
    if p.done
    then ([], p)
    else (func_name (text "resume" ∷ []) ∷ (produce p.to_yield p).0, (produce p.to_yield p).1)

-- `co_await audioDataResult`: where no data are ready `await_suspend` spins, and nobody resumes the
-- producer meanwhile. A vector that has been moved from is empty.
abbrev pub co_await : Producer → Exec (List ℕ × Producer)
co_await p = if p.data_ready then ok (p.audio_data, record p { audio_data = [] }) else out_of_fuel

abbrev pub printed_first : List Line → List Line × Producer → Exec (List Line × Producer)
printed_first out (out', p) = ok (out ++ out', p)

-- The rest of a round of `consumer`, with the data.
abbrev pub consume :
    (Producer → Exec (List Line × Producer)) → List ℕ → Producer → Exec (List Line × Producer)
consume loop [] p = ok (no_data ∷ [], p)
consume loop (x ∷ xs) p = loop (resume p).1 >>= printed_first (received (x ∷ xs) ∷ (resume p).0)

-- `consumer`
unfoldable pub consumer : ℕ → Producer → Exec (List Line × Producer)
consumer zero p = out_of_fuel
consumer (suc fuel) p =
    co_await p
    >>= (λ (got : List ℕ × Producer). consume (consumer fuel) got.0 got.1)
    >>= printed_first (func_name (text "consumer" ∷ []) ∷ [])

-- `main`: the destructor reports for the result of the consumer and for that of the producer.
unfoldable pub main : ℕ → ℕ → List ℕ → Exec (List Line × Producer)
unfolding producer consumer
main fuel n d =
    let destructor = func_name (text "~AudioDataResult" ∷ []) in
    consumer fuel (producer n d).1 >>= λ (s : List Line × Producer).
    ok ((producer n d).0 ++ (s.0 ++ destructor ∷ destructor ∷ []), s.1)

-- `AudioDataResult::operator=` of a handle from another one, with both after it; `std::swap` moves by
-- `operator=` itself.
unfoldable pub move_assign : ℕ → Option ℕ → Option ℕ → Exec (Option ℕ × Option ℕ)
move_assign zero this other = out_of_fuel
move_assign (suc fuel) this other = move_assign fuel none other >>= λ (a : Option ℕ × Option ℕ).
    move_assign fuel a.1 this >>= λ (b : Option ℕ × Option ℕ). ok (a.0, none)
