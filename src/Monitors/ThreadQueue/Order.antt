-- ===== src/Monitors/ThreadQueue/Order.antt =====
-- At most one thread has the mutex, `front` and `pop_front` never meet the empty queue, and the numbers
-- leave the queue in the order in which they came.
use cpp20examples.Prelude.{
  ℕ, zero, suc, ◌+◌, ◌≤◌, ◌<◌, ◌≡◌, ◌≢◌, refl, arith, Bool, true, false, List, ◌∷◌, ◌++◌, ◌⊎◌, inl,
  inr, ℕ_discrete, append_assoc, sym, subst,
}
use cpp20examples.Threads.{
  System, Step, pick, total_pc, total_pc-write, le-total_pc, two-le-total_pc, write_self,
  write_other,
}
use cpp20examples.Monitors.ThreadQueue.{
  Pc, remove_lock, test, asleep, front, pop, remove_unlock, add_to_sum, removed, crashed, count,
  add_lock, push, add_unlock, notify, added, Memory, is_empty, Act, lock_remove, found, sleep, wake,
  read_front, no_front, pop_front, no_pop, unlock_remove, sum, increment, lock_add, push_back,
  unlock_add, notify_one, init,
}

-- 1 for a thread that has the mutex
abbrev pub inside : Pc → ℕ
inside test = 1
inside front = 1
inside (pop v) = 1
inside (remove_unlock v) = 1
inside (push v) = 1
inside add_unlock = 1
inside _ = 0

abbrev pub held : Bool → ℕ
held true = 1
held false = 0

-- What a thread knows of the queue, and that it has not crashed.
abbrev pub Knows : Pc → List ℕ → Type 0
Knows front queue = is_empty queue ≡ false
Knows (pop v) queue = (q : List ℕ) × (queue ≡ v ∷ q)
Knows crashed queue = ⊥
Knows _ queue = Unit

-- A thread that has removed a number is outside, and has not crashed.
pub record Free (after : ℕ → Pc) : Type 0 where
  pub outside : (v : ℕ) → inside (after v) ≡ 0
  pub no_crash : (v : ℕ) (q : List ℕ) → Knows (after v) q

pub add_to_sum-Free : Free add_to_sum
add_to_sum-Free = record { outside = λ v. refl; no_crash = λ v q. tt }

-- An action changes the number of holders as it changes the mutex.
Act-inside :
    {after : ℕ → Pc} {m m' : Memory} {p p' : Pc}
    → Free after
    → Act after m p m' p'
    → inside p ≤ held m.locked
    → Knows p m.queue
    → inside p' + held m.locked ≡ inside p + held m'.locked
Act-inside f (lock_remove h) k q = ground arith
Act-inside f (found h) k q = ground arith
Act-inside f (sleep h) k q = ground arith
Act-inside f wake k q = ground arith
Act-inside f (read_front h) k q = ground arith
Act-inside f (no_front h) k q = ground arith
Act-inside f (pop_front h) k q = ground arith
Act-inside f (no_pop h) k q = ground arith
Act-inside f (unlock_remove {v = v}) k q = ground (arith, f.outside v)
Act-inside f sum k q = ground arith
Act-inside f increment k q = ground arith
Act-inside f (lock_add h) k q = ground arith
Act-inside f push_back k q = ground arith
Act-inside f unlock_add k q = ground arith
Act-inside f notify_one k q = ground arith

-- The thread that acts knows of the queue what it has to.
Act-Knows :
    {after : ℕ → Pc} {m m' : Memory} {p p' : Pc}
    → Free after
    → Act after m p m' p'
    → Knows p m.queue
    → Knows p' m'.queue
Act-Knows f (lock_remove h) k = tt
Act-Knows f (found h) k = h
Act-Knows f (sleep h) k = tt
Act-Knows f wake k = tt
Act-Knows f (read_front {q = q} h) k = (q, h)
Act-Knows f (no_front h) k = ground arith
Act-Knows f (pop_front h) k = tt
Act-Knows f (no_pop h) k = ground (arith, k.1)
Act-Knows {m = m} f (unlock_remove {v = v}) k = f.no_crash v m.queue
Act-Knows f sum k = tt
Act-Knows f increment k = tt
Act-Knows f (lock_add h) k = tt
Act-Knows f push_back k = tt
Act-Knows f unlock_add k = tt
Act-Knows f notify_one k = tt

-- The queue is changed only by a thread that has the mutex.
Act-queue :
    {after : ℕ → Pc} {m m' : Memory} {p p' : Pc}
    → Act after m p m' p'
    → (m'.queue ≡ m.queue) ⊎ (inside p ≡ 1)
Act-queue (lock_remove h) = inl refl
Act-queue (found h) = inl refl
Act-queue (sleep h) = inl refl
Act-queue wake = inl refl
Act-queue (read_front h) = inl refl
Act-queue (no_front h) = inl refl
Act-queue (pop_front h) = inr refl
Act-queue (no_pop h) = inl refl
Act-queue unlock_remove = inl refl
Act-queue sum = inl refl
Act-queue increment = inl refl
Act-queue (lock_add h) = inl refl
Act-queue push_back = inr refl
Act-queue unlock_add = inl refl
Act-queue notify_one = inl refl

-- What has been pushed is what has been popped, and then the queue.
Act-fifo :
    {after : ℕ → Pc} {m m' : Memory} {p p' : Pc}
    → Act after m p m' p'
    → m.pushed ≡ m.popped ++ m.queue
    → m'.pushed ≡ m'.popped ++ m'.queue
Act-fifo (lock_remove h) e = e
Act-fifo (found h) e = e
Act-fifo (sleep h) e = e
Act-fifo wake e = e
Act-fifo (read_front h) e = e
Act-fifo (no_front h) e = e
Act-fifo (pop_front h) e = simp (e, h, append_assoc)
Act-fifo (no_pop h) e = e
Act-fifo unlock_remove e = e
Act-fifo sum e = e
Act-fifo increment e = e
Act-fifo (lock_add h) e = e
Act-fifo push_back e = simp (e, append_assoc)
Act-fifo unlock_add e = e
Act-fifo notify_one e = e

Knows-outside : (p : Pc) (q q' : List ℕ) → inside p ≡ 0 → Knows p q → Knows p q'
Knows-outside remove_lock q q' e k = tt
Knows-outside test q q' e k = tt
Knows-outside asleep q q' e k = tt
Knows-outside front q q' e k = absurd (omega arith)
Knows-outside (pop v) q q' e k = absurd (omega arith)
Knows-outside (remove_unlock v) q q' e k = tt
Knows-outside (add_to_sum v) q q' e k = tt
Knows-outside removed q q' e k = tt
Knows-outside crashed q q' e k = k
Knows-outside count q q' e k = tt
Knows-outside (add_lock v) q q' e k = tt
Knows-outside (push v) q q' e k = tt
Knows-outside add_unlock q q' e k = tt
Knows-outside notify q q' e k = tt
Knows-outside added q q' e k = tt

inside-le_one : (p : Pc) → inside p ≤ 1
inside-le_one p = ground arith

pub record Inv (n : ℕ) (s : System Memory Pc) : Type 0 where
  pub exclusive : total_pc inside n s.pc ≡ held s.memory.locked
  pub knows : (i : ℕ) → i < n → Knows (s.pc i) s.memory.queue
  pub fifo : s.memory.pushed ≡ s.memory.popped ++ s.memory.queue

-- An action of thread `i` leaves what another thread knows.
Knows-other :
    {after : ℕ → Pc} (n i k : ℕ) (s : System Memory Pc) {m : Memory} {p : Pc}
    → Inv n s
    → i < n
    → k < n
    → i ≢ k
    → Act after s.memory (s.pc i) m p
    → Knows (s.pc k) m.queue
Knows-other n i k s {m} inv h h' d a = elim (Act-queue a) [
  | inl same ↦ subst (Knows (s.pc k)) (sym same) (inv.knows k h')
  | inr has ↦
      Knows-outside (s.pc k) s.memory.queue m.queue
        (ground (arith, inv.exclusive, has, two-le-total_pc inside n i k s.pc h h' d))
        (inv.knows k h')
]

pub Step-Inv :
    {after : ℕ → Pc}
    → Free after
    → (n : ℕ) (s t : System Memory Pc) → Inv n s
    → Step n (Act after) s t
    → Inv n t
Step-Inv f n s t inv (pick i h {m} {p} a) = record {
  exclusive = omega (
    arith,
    inv.exclusive,
    total_pc-write inside n i s.pc p h,
    Act-inside f a (omega (arith, inv.exclusive, le-total_pc inside n i s.pc h)) (inv.knows i h),
  );
  knows = λ k h'. elim (ℕ_discrete i k) [
    | yes e ↦
        subst (λ (x : Pc). Knows x m.queue) (sym (write_self s.pc i k p e))
          (Act-Knows f a (inv.knows i h))
    | no d ↦
        subst (λ (x : Pc). Knows x m.queue) (sym (write_other s.pc i k p d))
          (Knows-other n i k s inv h h' d a)
  ];
  fifo = Act-fifo a inv.fifo;
}

init-outside : (k n : ℕ) → total_pc inside n (init k).pc ≡ 0
init-outside k zero = refl
init-outside k (suc n) = ground (arith, init-outside k n)

pub init-Inv : (k n : ℕ) → Inv n (init k)
init-Inv k n = record { exclusive = init-outside k n; knows = λ i h. ground arith; fifo = refl }
