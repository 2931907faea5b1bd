-- ===== src/Monitors/ThreadQueue/Sum/Weights.antt =====
-- What the threads carry and have done, in numbers, and how an action changes these.
use cpp20examples.Prelude.{
  ℕ, zero, suc, ◌+◌, ◌≡◌, refl, arith, List, [], ◌∷◌, length, length-append, total, total-append,
  ap,
}
use cpp20examples.Monitors.ThreadQueue.{
  Pc, remove_lock, test, asleep, front, pop, remove_unlock, add_to_sum, removed, crashed, count,
  add_lock, push, add_unlock, notify, added, Memory, Act, lock_remove, found, sleep, wake,
  read_front, no_front, pop_front, no_pop, unlock_remove, sum, increment, lock_add, push_back,
  unlock_add, notify_one,
}
use cpp20examples.Monitors.ThreadQueue.Order.{Knows}

-- The number that a thread has counted and not pushed, or has popped and not added.
abbrev pub carried : Pc → ℕ
carried (add_lock v) = v
carried (push v) = v
carried (remove_unlock v) = v
carried (add_to_sum v) = v
carried _ = 0

-- 1 for a thread that has counted, pushed, or popped
abbrev pub has_counted : Pc → ℕ
has_counted (add_lock v) = 1
has_counted (push v) = 1
has_counted add_unlock = 1
has_counted notify = 1
has_counted added = 1
has_counted _ = 0

abbrev pub has_pushed : Pc → ℕ
has_pushed add_unlock = 1
has_pushed notify = 1
has_pushed added = 1
has_pushed _ = 0

abbrev pub has_popped : Pc → ℕ
has_popped (remove_unlock v) = 1
has_popped (add_to_sum v) = 1
has_popped removed = 1
has_popped _ = 0

-- 1 for a thread that adds, and for one that removes
abbrev pub adds : Pc → ℕ
adds count = 1
adds (add_lock v) = 1
adds (push v) = 1
adds add_unlock = 1
adds notify = 1
adds added = 1
adds _ = 0

abbrev pub removes : Pc → ℕ
removes crashed = 1
removes remove_lock = 1
removes test = 1
removes asleep = 1
removes front = 1
removes (pop v) = 1
removes (remove_unlock v) = 1
removes (add_to_sum v) = 1
removes removed = 1
removes _ = 0

-- 1 + 2 + ... + n
unfoldable pub triangle : ℕ → ℕ
triangle zero = 0
triangle (suc n) = suc n + triangle n

triangle-add_one : (n : ℕ) → triangle (n + 1) ≡ n + 1 + triangle n
unfolding triangle
triangle-add_one n = let e : n + 1 ≡ suc n = omega arith in omega (arith, ap triangle e)

abbrev pub sum_of : List ℕ → ℕ
sum_of = total (λ x. x)

-- No number is lost: what the threads carry, the queue holds and the sum has changes as the counter does.
pub Act-sum :
    {m m' : Memory} {p p' : Pc}
    → Act add_to_sum m p m' p'
    → Knows p m.queue
    → carried p' + sum_of m'.queue + m'.shared_sum + triangle m.shared_counter
      ≡ carried p + sum_of m.queue + m.shared_sum + triangle m'.shared_counter
Act-sum (lock_remove h) k = ground arith
Act-sum (found h) k = ground arith
Act-sum (sleep h) k = ground arith
Act-sum wake k = ground arith
Act-sum (read_front h) k = ground arith
Act-sum (no_front h) k = ground arith
Act-sum (pop_front h) (q, e) = ground (arith, h, e)
Act-sum (no_pop h) k = ground arith
Act-sum unlock_remove k = ground arith
Act-sum sum k = ground arith
Act-sum {m} increment k = omega (arith, triangle-add_one m.shared_counter)
Act-sum (lock_add h) k = ground arith
Act-sum {m} (push_back {v}) k = omega (arith, total-append (λ x. x) m.queue (v ∷ []))
Act-sum unlock_add k = ground arith
Act-sum notify_one k = ground arith

pub Act-counted :
    {m m' : Memory} {p p' : Pc}
    → Act add_to_sum m p m' p'
    → has_counted p' + m.shared_counter ≡ has_counted p + m'.shared_counter
Act-counted (lock_remove h) = ground arith
Act-counted (found h) = ground arith
Act-counted (sleep h) = ground arith
Act-counted wake = ground arith
Act-counted (read_front h) = ground arith
Act-counted (no_front h) = ground arith
Act-counted (pop_front h) = ground arith
Act-counted (no_pop h) = ground arith
Act-counted unlock_remove = ground arith
Act-counted sum = ground arith
Act-counted increment = ground arith
Act-counted (lock_add h) = ground arith
Act-counted push_back = ground arith
Act-counted unlock_add = ground arith
Act-counted notify_one = ground arith

pub Act-moved :
    {m m' : Memory} {p p' : Pc}
    → Act add_to_sum m p m' p'
    → Knows p m.queue
    → has_pushed p' + has_popped p + length m.queue ≡ has_pushed p + has_popped p' + length m'.queue
Act-moved (lock_remove h) k = ground arith
Act-moved (found h) k = ground arith
Act-moved (sleep h) k = ground arith
Act-moved wake k = ground arith
Act-moved (read_front h) k = ground arith
Act-moved (no_front h) k = ground arith
Act-moved (pop_front h) k = omega (arith, ap length h)
Act-moved (no_pop h) k = ground arith
Act-moved unlock_remove k = ground arith
Act-moved sum k = ground arith
Act-moved increment k = ground arith
Act-moved (lock_add h) k = ground arith
Act-moved {m} (push_back {v}) k = omega (arith, length-append m.queue (v ∷ []))
Act-moved unlock_add k = ground arith
Act-moved notify_one k = ground arith

pub Act-adds : {m m' : Memory} {p p' : Pc} → Act add_to_sum m p m' p' → adds p' ≡ adds p
Act-adds (lock_remove h) = refl
Act-adds (found h) = refl
Act-adds (sleep h) = refl
Act-adds wake = refl
Act-adds (read_front h) = refl
Act-adds (no_front h) = refl
Act-adds (pop_front h) = refl
Act-adds (no_pop h) = refl
Act-adds unlock_remove = refl
Act-adds sum = refl
Act-adds increment = refl
Act-adds (lock_add h) = refl
Act-adds push_back = refl
Act-adds unlock_add = refl
Act-adds notify_one = refl

pub Act-removes : {m m' : Memory} {p p' : Pc} → Act add_to_sum m p m' p' → removes p' ≡ removes p
Act-removes (lock_remove h) = refl
Act-removes (found h) = refl
Act-removes (sleep h) = refl
Act-removes wake = refl
Act-removes (read_front h) = refl
Act-removes (no_front h) = refl
Act-removes (pop_front h) = refl
Act-removes (no_pop h) = refl
Act-removes unlock_remove = refl
Act-removes sum = refl
Act-removes increment = refl
Act-removes (lock_add h) = refl
Act-removes push_back = refl
Act-removes unlock_add = refl
Act-removes notify_one = refl
