-- ===== src/Singleton/Acts.antt =====
-- What an action of a thread does to the object, the lock and the thread itself.
use cpp20examples.Prelude.{
  ℕ, suc, ◌+◌, ◌≤◌, ◌≡◌, refl, arith, Bool, true, false, Option, none, some, List, [], ◌∷◌, ap,
  subst,
}
use cpp20examples.Singleton.{
  Memory, Place, load, want_lock, recheck, create, store, unlock, want_once, once_create,
  once_store, finish_once, read_instance, give, Pc, calls, Act, first_null, first_set, acquire,
  second_null, second_set, make, set_instance, release, once_first, once_done, once_make, once_set,
  once_finish, read, return,
}

abbrev pub set : Bool → ℕ
set true = 1
set false = 0

-- 1 where `instance` points to an object.
abbrev pub made : Option ℕ → ℕ
made none = 0
made (some x) = 1

abbrev pub holds : Pc → ℕ
holds (calls k recheck) = 1
holds (calls k create) = 1
holds (calls k (store sin)) = 1
holds (calls k (unlock sin)) = 1
holds (calls k once_create) = 1
holds (calls k (once_store sin)) = 1
holds (calls k finish_once) = 1
holds _ = 0

abbrev pub left : Pc → ℕ
left (calls k p) = k

-- The object has the number 0.
abbrev pub First : Option ℕ → Type 0
First none = 0 ≤ 0
First (some x) = x ≡ 0

abbrev pub AllFirst : List ℕ → Type 0
AllFirst [] = 0 ≤ 0
AllFirst (x ∷ xs) = (x ≡ 0) × AllFirst xs

abbrev pub length : List ℕ → ℕ
length [] = 0
length (x ∷ xs) = suc (length xs)

-- What a thread at a place knows; `lock_version` is 1 in the programs with a lock, and 0 in those with
-- `call_once`.
abbrev pub Safe : ℕ → Memory → Place → Type 0
Safe lock_version m load = lock_version ≡ 1
Safe lock_version m want_lock = lock_version ≡ 1
Safe lock_version m recheck = (lock_version ≡ 1) × (m.created ≡ made m.instance_)
Safe lock_version m create = (lock_version ≡ 1) × (made m.instance_ ≡ 0) × (m.created ≡ 0)
Safe lock_version m (store sin) =
    (lock_version ≡ 1) × (made m.instance_ ≡ 0) × (m.created ≡ 1) × (sin ≡ 0)
Safe lock_version m (unlock sin) = (lock_version ≡ 1) × (m.created ≡ made m.instance_) × (sin ≡ 0)
Safe lock_version m want_once = lock_version ≡ 0
Safe lock_version m once_create = (lock_version ≡ 0) × (made m.instance_ ≡ 0) × (m.created ≡ 0)
Safe lock_version m (once_store sin) =
    (lock_version ≡ 0) × (made m.instance_ ≡ 0) × (m.created ≡ 1) × (sin ≡ 0)
Safe lock_version m finish_once = (lock_version ≡ 0) × (m.created ≡ 1) × (made m.instance_ ≡ 1)
Safe lock_version m read_instance = (lock_version ≡ 0) × (made m.instance_ ≡ 1)
Safe lock_version m (give sin) = sin ≡ 0

abbrev pub SafePc : ℕ → Memory → Pc → Type 0
SafePc lock_version m (calls k p) = Safe lock_version m p

-- The numbers of objects made and pointed to, the lock and the flag.
abbrev pub Numbers : (lock_version created made locked done : ℕ) → Type 0
Numbers lock_version created made locked done =
    (created ≤ made + locked)
    × (made ≤ created)
    × (created ≤ 1)
    × (done ≤ made)
    × (made ≤ done + locked + lock_version)

pub record Good (lock_version : ℕ) (m : Memory) : Type 0 where
  pub first : First m.instance_
  pub all_first : AllFirst m.returned
  pub numbers : Numbers lock_version m.created (made m.instance_) (set m.locked) (set m.done)

First-some : {sin : ℕ} (o : Option ℕ) → First o → o ≡ some sin → sin ≡ 0
First-some o f e = subst First e f

pub set_le : (b : Bool) → set b ≤ 1
set_le b = ground arith

pub Act-Numbers :
    (lock_version : ℕ) {entry : Place} {m m' : Memory} {p p' : Pc}
    → Act entry m p m' p'
    → Good lock_version m
    → SafePc lock_version m p
    → holds p ≤ set m.locked
    → Numbers lock_version m'.created (made m'.instance_) (set m'.locked) (set m'.done)
Act-Numbers lock_version (first_null e) g s h = g.numbers
Act-Numbers lock_version (first_set e) g s h = g.numbers
Act-Numbers lock_version {m = m} (acquire e) g s h = ground (arith, g.numbers, ap set e, s)
Act-Numbers lock_version (second_null e) g s h = g.numbers
Act-Numbers lock_version (second_set e) g s h = g.numbers
Act-Numbers lock_version make g s h = ground (arith, g.numbers, s, h)
Act-Numbers lock_version set_instance g s h = ground (arith, g.numbers, s, h)
Act-Numbers lock_version release g s h = ground (arith, g.numbers, s, h)
Act-Numbers lock_version (once_first e e') g s h = ground (arith, g.numbers, s, ap set e, ap set e')
Act-Numbers lock_version (once_done e) g s h = g.numbers
Act-Numbers lock_version once_make g s h = ground (arith, g.numbers, s, h)
Act-Numbers lock_version once_set g s h = ground (arith, g.numbers, s, h)
Act-Numbers lock_version once_finish g s h = ground (arith, g.numbers, s, h)
Act-Numbers lock_version (read e) g s h = g.numbers
Act-Numbers lock_version return g s h = g.numbers

pub Act-First :
    (lock_version : ℕ) {entry : Place} {m m' : Memory} {p p' : Pc}
    → Act entry m p m' p'
    → Good lock_version m
    → SafePc lock_version m p
    → First m'.instance_ × AllFirst m'.returned
Act-First lock_version (first_null e) g s = (g.first, g.all_first)
Act-First lock_version (first_set e) g s = (g.first, g.all_first)
Act-First lock_version (acquire e) g s = (g.first, g.all_first)
Act-First lock_version (second_null e) g s = (g.first, g.all_first)
Act-First lock_version (second_set e) g s = (g.first, g.all_first)
Act-First lock_version make g s = (g.first, g.all_first)
Act-First lock_version set_instance g (v, n, c, z) = (z, g.all_first)
Act-First lock_version release g s = (g.first, g.all_first)
Act-First lock_version (once_first e e') g s = (g.first, g.all_first)
Act-First lock_version (once_done e) g s = (g.first, g.all_first)
Act-First lock_version once_make g s = (g.first, g.all_first)
Act-First lock_version once_set g (v, n, c, z) = (z, g.all_first)
Act-First lock_version once_finish g s = (g.first, g.all_first)
Act-First lock_version (read e) g s = (g.first, g.all_first)
Act-First lock_version return g s = (g.first, (s, g.all_first))

-- The place that follows knows what it should.
pub Act-Safe :
    (lock_version : ℕ) {entry : Place} {m m' : Memory} {p p' : Pc}
    → ((m'' : Memory) → Safe lock_version m'' entry)
    → Act entry m p m' p'
    → Good lock_version m
    → SafePc lock_version m p
    → SafePc lock_version m' p'
Act-Safe lock_version start (first_null e) g s = s
Act-Safe lock_version {m = m} start (first_set e) g s = First-some m.instance_ g.first e
Act-Safe lock_version start (acquire e) g s = (s, ground (arith, g.numbers, ap set e))
Act-Safe lock_version start (second_null e) g (v, c) = (v, ap made e, omega (arith, c, ap made e))
Act-Safe lock_version {m = m} start (second_set e) g (v, c) =
    (v, c, First-some m.instance_ g.first e)
Act-Safe lock_version start make g (v, n, c) = (v, n, omega (arith, c), c)
Act-Safe lock_version start set_instance g (v, n, c, z) = (v, c, z)
Act-Safe lock_version start release g (v, c, z) = z
Act-Safe lock_version start (once_first e e') g s = (
  s,
  ground (arith, g.numbers, s, ap set e, ap set e'),
  ground (arith, g.numbers, s, ap set e, ap set e'),
)
Act-Safe lock_version start (once_done e) g s = (s, ground (arith, g.numbers, ap set e))
Act-Safe lock_version start once_make g (v, n, c) = (v, n, omega (arith, c), c)
Act-Safe lock_version start once_set g (v, n, c, z) = (v, c, refl)
Act-Safe lock_version start once_finish g (v, c, n) = (v, n)
Act-Safe lock_version {m = m} start (read e) g s = First-some m.instance_ g.first e
Act-Safe lock_version {m' = m'} start return g s = start m'
