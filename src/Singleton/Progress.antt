-- ===== src/Singleton/Progress.antt =====
-- A call comes nearer to its end with each action, and some thread can always go on.
use cpp20examples.Prelude.{
  ℕ, zero, suc, ◌+◌, ◌*◌, ◌≤◌, ◌<◌, ◌≡◌, refl, arith, false, ◌⊎◌, inl, inr, Option, none, some, ap,
  ◌∙◌, Bool-cases, ℕ_discrete,
}
use cpp20examples.Threads.{System, pick, total_pc, total_pc-write, le-total_pc}
use cpp20examples.Singleton.{
  Memory, Place, load, want_lock, recheck, create, store, unlock, want_once, once_create,
  once_store, finish_once, read_instance, give, Pc, calls, Act, first_null, first_set, acquire,
  second_null, second_set, make, set_instance, release, once_first, once_done, once_make, once_set,
  once_finish, read, return, EntryStep,
}
use cpp20examples.Singleton.Acts.{set, made, holds, left, Safe, SafePc}
use cpp20examples.Singleton.Safety.{Inv}

-- How far a call is from its end.
abbrev distance : Place → ℕ
distance load = 8
distance want_lock = 7
distance recheck = 6
distance create = 5
distance (store sin) = 4
distance (unlock sin) = 3
distance want_once = 7
distance once_create = 5
distance (once_store sin) = 4
distance finish_once = 3
distance read_instance = 2
distance (give sin) = 1

distance_le : (p : Place) → distance p ≤ 8
distance_le p = ground arith

abbrev pub rank : Pc → ℕ
rank (calls k p) = 9 * k + distance p

Act-rank : {entry : Place} {m m' : Memory} {p p' : Pc} → Act entry m p m' p' → rank p' < rank p
Act-rank (first_null e) = omega arith
Act-rank (first_set e) = omega arith
Act-rank (acquire e) = omega arith
Act-rank (second_null e) = omega arith
Act-rank (second_set e) = omega arith
Act-rank make = omega arith
Act-rank set_instance = omega arith
Act-rank release = omega arith
Act-rank (once_first e e') = omega arith
Act-rank (once_done e) = omega arith
Act-rank once_make = omega arith
Act-rank once_set = omega arith
Act-rank once_finish = omega arith
Act-rank (read e) = omega arith
Act-rank {entry = entry} return = omega (arith, distance_le entry)

Moves : Place → Memory → Pc → Type 0
Moves entry m p = (m' : Memory) × (p' : Pc) × Act entry m p m' p'

Option-cases : (o : Option ℕ) → (o ≡ none) ⊎ ((x : ℕ) × (o ≡ some x))
Option-cases none = inl refl
Option-cases (some x) = inr (x, refl)

-- Who holds the lock can go on, and where nobody does, every thread with calls left can.
holder-Moves :
    (entry : Place) (m : Memory) (k : ℕ) (p : Place)
    → holds (calls (suc k) p) ≡ 1
    → Moves entry m (calls (suc k) p)
unfolding Moves
holder-Moves entry m k recheck h = elim (Option-cases m.instance_) [
  | inl e ↦ (_, _, second_null e)
  | inr (x, e) ↦ (_, _, second_set e)
]
holder-Moves entry m k create h = (_, _, make)
holder-Moves entry m k (store sin) h = (_, _, set_instance)
holder-Moves entry m k (unlock sin) h = (_, _, release)
holder-Moves entry m k once_create h = (_, _, once_make)
holder-Moves entry m k (once_store sin) h = (_, _, once_set)
holder-Moves entry m k finish_once h = (_, _, once_finish)
holder-Moves entry m k load h = absurd (omega (arith, h))
holder-Moves entry m k want_lock h = absurd (omega (arith, h))
holder-Moves entry m k want_once h = absurd (omega (arith, h))
holder-Moves entry m k read_instance h = absurd (omega (arith, h))
holder-Moves entry m k (give sin) h = absurd (omega (arith, h))

holds_le : (p : Pc) → holds p ≤ 1
holds_le p = ground arith

holds_cases : (p : Pc) → (holds p ≡ 0) ⊎ (holds p ≡ 1)
holds_cases p = elim (ℕ_discrete (holds p) 0) [
  | yes e ↦ inl e
  | no d ↦ inr (omega (arith, d, holds_le p))
]

free-Moves :
    (lock_version : ℕ) (entry : Place) (m : Memory) (k : ℕ) (p : Place)
    → m.locked ≡ false
    → Safe lock_version m p
    → holds (calls (suc k) p) ≡ 0
    → Moves entry m (calls (suc k) p)
unfolding Moves
free-Moves lock_version entry m k load f s h = elim (Option-cases m.instance_) [
  | inl e ↦ (_, _, first_null e)
  | inr (x, e) ↦ (_, _, first_set e)
]
free-Moves lock_version entry m k want_lock f s h = (_, _, acquire f)
free-Moves lock_version entry m k want_once f s h = elim (Bool-cases m.done) [
  | inl e ↦ (_, _, once_done e)
  | inr e ↦ (_, _, once_first f e)
]
free-Moves lock_version entry m k read_instance f (v, o) h = elim (Option-cases m.instance_) [
  | inl e ↦ absurd (omega (arith, o, ap made e))
  | inr (x, e) ↦ (_, _, read e)
]
free-Moves lock_version entry m k (give sin) f s h = (_, _, return)
free-Moves lock_version entry m k recheck f s h = absurd (omega (arith, h))
free-Moves lock_version entry m k create f s h = absurd (omega (arith, h))
free-Moves lock_version entry m k (store sin) f s h = absurd (omega (arith, h))
free-Moves lock_version entry m k (unlock sin) f s h = absurd (omega (arith, h))
free-Moves lock_version entry m k once_create f s h = absurd (omega (arith, h))
free-Moves lock_version entry m k (once_store sin) f s h = absurd (omega (arith, h))
free-Moves lock_version entry m k finish_once f s h = absurd (omega (arith, h))

-- A thread that holds the lock.
holder : (n : ℕ) (pc : ℕ → Pc) → total_pc holds n pc ≡ 1 → (i : ℕ) × (i < n) × (holds (pc i) ≡ 1)
holder zero pc e = absurd (omega (arith, e))
holder (suc n) pc e = elim (holds_cases (pc n)) [
  | inr h ↦ (n, omega arith, h)
  | inl h ↦ let (i, l, h') = holder n pc (omega (arith, e, h)) in (i, omega arith, h')
]

-- All calls have returned.
abbrev pub Returned : ℕ → System Memory Pc → Type 0
Returned n s = total_pc left n s.pc ≡ 0

-- Unless all calls have returned, some thread has calls left.
caller : (n : ℕ) (pc : ℕ → Pc) → (total_pc left n pc ≡ 0) ⊎ ((i : ℕ) × (i < n) × (0 < left (pc i)))
caller zero pc = inl refl
caller (suc n) pc = elim (ℕ_discrete (left (pc n)) 0) [
  | no d ↦ inr (n, omega arith, omega (arith, d))
  | yes e ↦ elim (caller n pc) [
    | inl all ↦ inl (omega (arith, all, e))
    | inr (i, l, more) ↦ inr (i, omega arith, more)
  ]
]

module _ (lock_version n all : ℕ) (entry : Place) where
  thread_holder-Moves : (m : Memory) (p : Pc) → holds p ≡ 1 → holds p ≤ left p → Moves entry m p
  thread_holder-Moves m (calls zero p) h b = absurd (omega (arith, h, b))
  thread_holder-Moves m (calls (suc k) p) h b = holder-Moves entry m k p h

  thread_free-Moves :
      (m : Memory) (p : Pc)
      → m.locked ≡ false
      → SafePc lock_version m p
      → holds p ≡ 0
      → 0 < left p
      → Moves entry m p
  thread_free-Moves m (calls zero p) f s h b = absurd (omega (arith, b))
  thread_free-Moves m (calls (suc k) p) f s h b = free-Moves lock_version entry m k p f s h

  pub Inv-Moves :
      (s : System Memory Pc)
      → Inv lock_version n all s
      → Returned n s ⊎ ((t : System Memory Pc) × EntryStep entry n s t)
  unfolding Moves
  Inv-Moves s inv = elim (Bool-cases s.memory.locked) [
    | inl e ↦
        let (i, l, h) = holder n s.pc (inv.exclusion ∙ ap set e) in
        let (m', p', act) = thread_holder-Moves s.memory (s.pc i) h (inv.busy i l) in
        inr (_, pick i l act)
    | inr e ↦ elim (caller n s.pc) [
      | inl all ↦ inl all
      | inr (i, l, more) ↦
          let (m', p', act) =
            thread_free-Moves s.memory (s.pc i) e (inv.safe i l)
              (omega (arith, inv.exclusion, ap set e, le-total_pc holds n i s.pc l)) more in
          inr (_, pick i l act)
    ]
  ]

  pub Step-rank :
      (s t : System Memory Pc) → EntryStep entry n s t → total_pc rank n t.pc < total_pc rank n s.pc
  Step-rank s t (pick i l {p = p'} act) =
      omega (arith, total_pc-write rank n i s.pc p' l, Act-rank act)
