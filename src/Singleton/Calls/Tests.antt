-- ===== src/Singleton/Calls/Tests.antt =====
-- Calls of two threads that come to the same object.
use cpp20examples.Prelude.{◌≤◌, ◌≡◌, refl, arith, [], ◌∷◌}
use cpp20examples.Steps.{Reach, start, later}
use cpp20examples.Threads.{System, pick}
use cpp20examples.Singleton.{
  Memory, Pc, first_null, acquire, second_null, make, set_instance, release, return, get_instance,
  acquire_release, entry_of, init, MainStep,
}
use cpp20examples.Singleton.Acts.{AllFirst, length}
use cpp20examples.Singleton.Calls.{all_calls, one_instance}

-- Both threads find no object; the first one makes it and returns it.
abbrev one_made :
    (s : System Memory Pc) × Reach
      (MainStep acquire_release 2)
      (init (entry_of acquire_release) (λ i. 3))
      s
one_made = (
  _,
  later
      (later
        (later
          (later
            (later
              (later
                (later (later start (pick 0 (omega arith) (first_null refl)))
                  (pick 1 (omega arith) (first_null refl)))
                (pick 0 (omega arith) (acquire refl)))
              (pick 0 (omega arith) (second_null refl)))
            (pick 0 (omega arith) make))
          (pick 0 (omega arith) set_instance))
        (pick 0 (omega arith) release))
      (pick 0 (omega arith) return),
)

one_made_test : one_made.0.memory.returned ≡ 0 ∷ []
one_made_test = refl

abbrev empty : Memory
empty = (init (entry_of acquire_release) (λ i. 0)).memory

-- Without threads, the second call gives the object of the first one.
plain_test : (get_instance (get_instance empty).1).0 ≡ (get_instance empty).0
plain_test = refl

one_instance_example :
    (one_made.0.memory.created ≤ 1)
    × AllFirst one_made.0.memory.returned
    × ((t : System Memory Pc) × Reach (MainStep acquire_release 2) one_made.0 t
        × (length t.memory.returned ≡ all_calls 2 (λ i. 3))
        × AllFirst t.memory.returned)
one_instance_example = one_instance acquire_release 2 (λ i. 3) one_made.1
