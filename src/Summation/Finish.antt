-- ===== src/Summation/Finish.antt =====
-- Threads with guarded code end: some thread can always go on, and each action brings its thread nearer to
-- its end.
use cpp20examples.Prelude.{
  ℕ, zero, suc, ◌+◌, ◌%◌, ◌^◌, ◌<◌, ◌≡◌, refl, arith, Bool, false, ◌⊎◌, inl, inr, List, [], ◌∷◌, ap,
  ◌∙◌, Bool-cases, ℕ_discrete,
}
use cpp20examples.Steps.{Reach, Reach-invariant, Reach-final}
use cpp20examples.Threads.{System, pick, total_pc, total_pc-write, total_pc-zero}
use cpp20examples.Summation.{
  Action, lock, unlock, add, fetch_add, Memory, Pc, before, within, Act, acquire, release, read_sum,
  write_sum, increase, threads, ThreadStep,
}
use cpp20examples.Summation.Guarded.{
  held, Guarded, holds, owed, added, set, Inv, Step-Inv, threads-Inv,
}

-- The steps that the code of a thread still makes.
abbrev steps : List Action → ℕ
steps [] = 0
steps (lock ∷ r) = 1 + steps r
steps (unlock ∷ r) = 1 + steps r
steps (add v ∷ r) = 2 + steps r
steps (fetch_add v ∷ r) = 1 + steps r

abbrev rank : Pc → ℕ
rank (before r) = steps r
rank (within read v r) = 1 + steps r

Act-rank : {m m' : Memory} {p p' : Pc} → Act m p m' p' → rank p' < rank p
Act-rank (acquire f) = omega arith
Act-rank release = omega arith
Act-rank read_sum = omega arith
Act-rank write_sum = omega arith
Act-rank increase = omega arith

Step-rank :
    (n : ℕ) (s t : System Memory Pc)
    → ThreadStep n s t
    → total_pc rank n t.pc < total_pc rank n s.pc
Step-rank n s t (pick i l {p = p'} act) =
    omega (arith, total_pc-write rank n i s.pc p' l, Act-rank act)

-- A thread goes on if it holds the lock or the lock is free, unless it has ended.
Moves : Memory → Pc → Type 0
Moves m p = (m' : Memory) × (p' : Pc) × Act m p m' p'

holder-Moves : (m : Memory) (p : Pc) → holds p ≡ 1 → Moves m p
unfolding Moves
holder-Moves m (before []) h = absurd (omega (arith, h))
holder-Moves m (before (lock ∷ r)) h = absurd (omega (arith, h))
holder-Moves m (before (unlock ∷ r)) h = (_, _, release)
holder-Moves m (before (add v ∷ r)) h = (_, _, read_sum)
holder-Moves m (before (fetch_add v ∷ r)) h = absurd (omega (arith, h))
holder-Moves m (within read v r) h = (_, _, write_sum)

free-Moves : (m : Memory) (p : Pc) → m.locked ≡ false → (p ≡ before []) ⊎ Moves m p
unfolding Moves
free-Moves m (before []) f = inl refl
free-Moves m (before (lock ∷ r)) f = inr (_, _, acquire f)
free-Moves m (before (unlock ∷ r)) f = inr (_, _, release)
free-Moves m (before (add v ∷ r)) f = inr (_, _, read_sum)
free-Moves m (before (fetch_add v ∷ r)) f = inr (_, _, increase)
free-Moves m (within read v r) f = inr (_, _, write_sum)

holds_cases : (p : Pc) → (holds p ≡ 0) ⊎ (holds p ≡ 1)
holds_cases (before []) = inl refl
holds_cases (before (lock ∷ r)) = inl refl
holds_cases (before (unlock ∷ r)) = inr refl
holds_cases (before (add v ∷ r)) = inr refl
holds_cases (before (fetch_add v ∷ r)) = inl refl
holds_cases (within read v r) = inr refl

-- Where some thread holds the lock, which one.
holder : (n : ℕ) (pc : ℕ → Pc) → total_pc holds n pc ≡ 1 → (i : ℕ) × (i < n) × (holds (pc i) ≡ 1)
holder zero pc e = absurd (omega (arith, e))
holder (suc n) pc e = elim (holds_cases (pc n)) [
  | inr h ↦ (n, omega arith, h)
  | inl h ↦ let (i, l, h') = holder n pc (omega (arith, e, h)) in (i, omega arith, h')
]

-- All threads have made all their actions.
abbrev pub Finished : ℕ → System Memory Pc → Type 0
Finished n s = (i : ℕ) → i < n → s.pc i ≡ before []

all_or_one :
    (n : ℕ) (m : Memory) (pc : ℕ → Pc)
    → m.locked ≡ false
    → ((i : ℕ) → i < n → pc i ≡ before []) ⊎ ((i : ℕ) × (i < n) × Moves m (pc i))
all_or_one zero m pc f = inl (λ i l. absurd (omega arith))
all_or_one (suc n) m pc f = elim (free-Moves m (pc n) f) [
  | inr moves ↦ inr (n, omega arith, moves)
  | inl e ↦ elim (all_or_one n m pc f) [
    | inr (i, l, moves) ↦ inr (i, omega arith, moves)
    | inl all ↦ inl (λ i l. elim (ℕ_discrete i n) [
      | yes same ↦ ap pc same ∙ e
      | no other ↦ all i (omega arith)
    ])
  ]
]

Inv-moves :
    (locking : Bool) (n expected : ℕ) (s : System Memory Pc)
    → Inv locking n expected s
    → Finished n s ⊎ ((t : System Memory Pc) × ThreadStep n s t)
unfolding Moves
Inv-moves locking n expected s inv = elim (Bool-cases s.memory.locked) [
  | inl e ↦
      let (i, l, h) = holder n s.pc (inv.exclusion ∙ ap set e) in
      let (m', p', act) = holder-Moves s.memory (s.pc i) h in inr (_, pick i l act)
  | inr e ↦ elim (all_or_one n s.memory s.pc e) [
    | inl all ↦ inl all
    | inr (i, l, (m', p', act)) ↦ inr (_, pick i l act)
  ]
]

Finished-sum :
    (locking : Bool) (n expected : ℕ) (s : System Memory Pc)
    → Inv locking n expected s
    → Finished n s
    → s.memory.sum ≡ expected % 2 ^ 64
Finished-sum locking n expected s inv all =
    omega (arith, inv.balance, inv.small, total_pc-zero owed n s.pc (λ i l. ap owed (all i l)))

-- What is in the sum, with what the threads still add, is the total, and all threads can get to their end,
-- where the sum is the total, modulo 2 ^ 64.
abbrev pub SumsTo : (n total : ℕ) → System Memory Pc → Type 0
SumsTo n total s =
    ((s.memory.sum + total_pc owed n s.pc) % 2 ^ 64 ≡ total % 2 ^ 64)
    × ((t : System Memory Pc) × Reach (ThreadStep n) s t
        × Finished n t
        × (t.memory.sum ≡ total % 2 ^ 64))

-- So it is in every state that is reached by threads with guarded code.
pub threads-SumsTo :
    (locking : Bool) (n : ℕ) (code : ℕ → List Action)
    → ((i : ℕ) → i < n → (held (code i) ≡ 0) × Guarded locking (code i))
    → {s : System Memory Pc} → Reach (ThreadStep n) (threads code) s
    → SumsTo n (total_pc added n code) s
threads-SumsTo locking n code ok {s} r =
    let expected : ℕ = total_pc added n code in
    let inv : Inv locking n expected s =
      Reach-invariant (ThreadStep n) (Inv locking n expected) (Step-Inv locking n expected)
        (threads-Inv locking n code ok) r in
    let (t, q, all) =
      Reach-final (ThreadStep n) (Inv locking n expected) (Finished n) (λ u. total_pc rank n u.pc)
        (Step-Inv locking n expected) (λ u v i st. Step-rank n u v st)
        (Inv-moves locking n expected) (suc (total_pc rank n s.pc)) s inv (omega arith) in
    let final : Inv locking n expected t =
      Reach-invariant (ThreadStep n) (Inv locking n expected) (Step-Inv locking n expected) inv q in
    (inv.balance, (t, q, all, Finished-sum locking n expected t final all))
