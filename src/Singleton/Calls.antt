-- ===== src/Singleton/Calls.antt =====
-- All calls return, and each returns the one object.
mod Tests
use cpp20examples.Prelude.{
  ℕ, zero, suc, ◌+◌, ◌*◌, ◌≤◌, ◌<◌, ◌≡◌, refl, arith, Bool, true, false, ◌⊎◌, inl, inr, Option,
  none, some, List, [], ◌∷◌, ap, sym, ◌∙◌, Bool-cases, ℕ_discrete,
}
use cpp20examples.Steps.{Reach, Reach-invariant, Reach-final}
use cpp20examples.Threads.{System, pick, total_pc, total_pc-write, total_pc-zero, le-total_pc}
use cpp20examples.Singleton.{
  Memory, Place, load, want_lock, recheck, create, store, unlock, want_once, once_create,
  once_store, finish_once, read_instance, give, Pc, calls, Act, first_null, first_set, acquire,
  second_null, second_set, make, set_instance, release, once_first, once_done, once_make, once_set,
  once_finish, read, return, Version, acquire_release, sequential_consistency, with_lock,
  with_call_once, meyers, multithreading, entry_of, init, EntryStep, MainStep,
}
use cpp20examples.Singleton.Acts.{set, made, holds, left, AllFirst, length, Safe, SafePc}
use cpp20examples.Singleton.Safety.{Inv, Step-Inv, init-Inv}
use cpp20examples.Singleton.Progress.{Returned, rank, Step-rank, Inv-Moves}

-- Whether the program has a lock, by its entry.
abbrev lock_version_of : Version → ℕ
lock_version_of acquire_release = 1
lock_version_of sequential_consistency = 1
lock_version_of with_lock = 1
lock_version_of with_call_once = 0
lock_version_of meyers = 0
lock_version_of multithreading = 0

entry_of-Safe : (v : Version) (m : Memory) → Safe (lock_version_of v) m (entry_of v)
entry_of-Safe acquire_release m = refl
entry_of-Safe sequential_consistency m = refl
entry_of-Safe with_lock m = refl
entry_of-Safe with_call_once m = refl
entry_of-Safe meyers m = refl
entry_of-Safe multithreading m = refl

entry_of-holds : (v : Version) (k : ℕ) → holds (calls k (entry_of v)) ≡ 0
entry_of-holds acquire_release k = refl
entry_of-holds sequential_consistency k = refl
entry_of-holds with_lock k = refl
entry_of-holds with_call_once k = refl
entry_of-holds meyers k = refl
entry_of-holds multithreading k = refl

-- The sum of the calls of all threads.
abbrev pub all_calls : ℕ → (ℕ → ℕ) → ℕ
all_calls zero iterations = 0
all_calls (suc n) iterations = iterations n + all_calls n iterations

all_calls-left :
    (n : ℕ) (iterations : ℕ → ℕ) (entry : Place)
    → total_pc left n (λ i. calls (iterations i) entry) ≡ all_calls n iterations
all_calls-left zero iterations entry = refl
all_calls-left (suc n) iterations entry =
    ap (λ (x : ℕ). iterations n + x) (all_calls-left n iterations entry)

entry-one_instance :
    (v : Version) (n : ℕ) (iterations : ℕ → ℕ) {s : System Memory Pc}
    → Reach (EntryStep (entry_of v) n) (init (entry_of v) iterations) s
    → (s.memory.created ≤ 1)
      × AllFirst s.memory.returned
      × ((t : System Memory Pc) × Reach (EntryStep (entry_of v) n) s t
          × (length t.memory.returned ≡ all_calls n iterations)
          × AllFirst t.memory.returned)
entry-one_instance v n iterations {s} r =
    let lock_version : ℕ = lock_version_of v in
    let all : ℕ = all_calls n iterations in
    let entry : Place = entry_of v in
    let keep : (u w : System Memory Pc)
        → Inv lock_version n all u
        → EntryStep entry n u w
        → Inv lock_version n all w =
      Step-Inv lock_version n all entry (entry_of-Safe v) (entry_of-holds v) in
    let inv : Inv lock_version n all s =
      Reach-invariant (EntryStep entry n) (Inv lock_version n all) keep
        (init-Inv lock_version n all entry (entry_of-Safe v) (entry_of-holds v) iterations
          (all_calls-left n iterations entry))
        r in
    let (t, q, returned) =
      Reach-final (EntryStep entry n) (Inv lock_version n all) (Returned n)
        (λ u. total_pc rank n u.pc) keep (λ u w i st. Step-rank lock_version n all entry u w st)
        (Inv-Moves lock_version n all entry) (suc (total_pc rank n s.pc)) s inv (omega arith) in
    let final : Inv lock_version n all t =
      Reach-invariant (EntryStep entry n) (Inv lock_version n all) keep inv q in
    (
      inv.good.numbers.2,
      inv.good.all_first,
      (t, q, omega (arith, returned, final.counted), final.good.all_first),
    )

-- In each of the programs, for any number of threads and of calls of each, in every state that is
-- reached: at most one object is made, and all calls that have returned gave that object, the one with
-- number 0. From there a state is reached in which all calls of all threads have returned it.
pub one_instance :
    (v : Version) (n : ℕ) (iterations : ℕ → ℕ) {s : System Memory Pc}
    → Reach (MainStep v n) (init (entry_of v) iterations) s
    → (s.memory.created ≤ 1)
      × AllFirst s.memory.returned
      × ((t : System Memory Pc) × Reach (MainStep v n) s t
          × (length t.memory.returned ≡ all_calls n iterations)
          × AllFirst t.memory.returned)
one_instance acquire_release n iterations r = entry-one_instance acquire_release n iterations r
one_instance sequential_consistency n iterations r =
    entry-one_instance sequential_consistency n iterations r
one_instance with_lock n iterations r = entry-one_instance with_lock n iterations r
one_instance with_call_once n iterations r = entry-one_instance with_call_once n iterations r
one_instance meyers n iterations r = entry-one_instance meyers n iterations r
one_instance multithreading n iterations r = entry-one_instance multithreading n iterations r
