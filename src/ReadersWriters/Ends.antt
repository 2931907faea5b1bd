-- ===== src/ReadersWriters/Ends.antt =====
-- The races of the accesses to the book, and the end of the threads.
mod Tests
use cpp20examples.Prelude.{
  ℕ, zero, suc, ◌+◌, ◌-◌, ◌≤◌, ◌<◌, ◌≡◌, ◌≢◌, refl, arith, Bool, true, false, List, [], ◌∷◌, ◌==◌,
  ap, sym, subst, ℕ_discrete, if◌then◌else◌, ◌⊎◌, inl, inr,
}
use cpp20examples.Coroutine.{write}
use cpp20examples.Steps.{start, later, Reach, Reach-invariant}
use cpp20examples.Threads.{
  System, pick, total_pc, total_pc-write, le-total_pc, two-le-total_pc, total_pc-zero, write_self,
  write_other,
}
use cpp20examples.ReadersWriters.{
  assign, contains, number, looked_up, Memory, Pc, read_lock, look_up, read_unlock, write_lock,
  update, write_unlock, ended, Act, lock_shared, print, unlock_shared, lock_unique, write_entry,
  unlock_unique, at, started, MainStep,
}
use cpp20examples.Prelude.{Bool-cases, ◌∙◌}
use cpp20examples.Steps.{Reach-final}
use cpp20examples.Threads.{total_pc-positive}
use cpp20examples.ReadersWriters.Lock.{reads, writes, set, set_le}
use cpp20examples.ReadersWriters.Races.{
  Accesses, Overlap, Race, Starts, Inv, Step-Inv, started-Inv, Inv-apart,
}

-- The actions that a thread has still to make.
abbrev pub actions : Pc → ℕ
actions (read_lock na) = 3
actions (look_up na) = 2
actions read_unlock = 1
actions (write_lock na tele) = 3
actions (update na tele) = 2
actions write_unlock = 1
actions ended = 0

Act-actions : {m m' : Memory} {p p' : Pc} → Act m p m' p' → actions p' < actions p
Act-actions (lock_shared e) = omega arith
Act-actions print = omega arith
Act-actions unlock_shared = omega arith
Act-actions (lock_unique e e') = omega arith
Act-actions write_entry = omega arith
Act-actions unlock_unique = omega arith

Step-actions :
    (n : ℕ) (s t : System Memory Pc)
    → MainStep n s t
    → total_pc actions n t.pc < total_pc actions n s.pc
Step-actions n s t (pick i l {p = p'} act) =
    omega (arith, Act-actions act, total_pc-write actions n i s.pc p' l)

Moves : Memory → Pc → Type 0
Moves m p = (m' : Memory) × (p' : Pc) × Act m p m' p'

-- A thread with the lock goes on, and any other one does where nobody has it.
locked-Moves : (m : Memory) (p : Pc) → 0 < reads p + writes p → Moves m p
unfolding Moves
locked-Moves m (read_lock na) h = absurd (omega (arith, h))
locked-Moves m (look_up na) h = (_, _, print)
locked-Moves m read_unlock h = (_, _, unlock_shared)
locked-Moves m (write_lock na tele) h = absurd (omega (arith, h))
locked-Moves m (update na tele) h = (_, _, write_entry)
locked-Moves m write_unlock h = (_, _, unlock_unique)
locked-Moves m ended h = absurd (omega (arith, h))

free-Moves : (m : Memory) (p : Pc) → m.writer ≡ false → m.readers ≡ 0 → 0 < actions p → Moves m p
unfolding Moves
free-Moves m (read_lock na) w r h = (_, _, lock_shared w)
free-Moves m (look_up na) w r h = (_, _, print)
free-Moves m read_unlock w r h = (_, _, unlock_shared)
free-Moves m (write_lock na tele) w r h = (_, _, lock_unique w r)
free-Moves m (update na tele) w r h = (_, _, write_entry)
free-Moves m write_unlock w r h = (_, _, unlock_unique)
free-Moves m ended w r h = absurd (omega (arith, h))

Inv-Moves :
    (n : ℕ) (s : System Memory Pc)
    → Inv n s
    → (total_pc actions n s.pc ≡ 0) ⊎ ((t : System Memory Pc) × MainStep n s t)
unfolding Moves
Inv-Moves n s inv = elim (Bool-cases s.memory.writer) [
  | inl e ↦
      let (i, l, h) = total_pc-positive writes n s.pc (omega (arith, inv.unique, ap set e)) in
      let (m', p', act) = locked-Moves s.memory (s.pc i) (omega (arith, h)) in inr (_, pick i l act)
  | inr e ↦ elim (ℕ_discrete s.memory.readers 0) [
    | no d ↦
        let (i, l, h) = total_pc-positive reads n s.pc (omega (arith, inv.shared, d)) in
        let (m', p', act) = locked-Moves s.memory (s.pc i) (omega (arith, h)) in
        inr (_, pick i l act)
    | yes z ↦ elim (ℕ_discrete (total_pc actions n s.pc) 0) [
      | yes done ↦ inl done
      | no d ↦
          let (i, l, h) = total_pc-positive actions n s.pc (omega (arith, d)) in
          let (m', p', act) = free-Moves s.memory (s.pc i) e z h in inr (_, pick i l act)
    ]
  ]
]

-- Where the first `n` threads start: in every state that is reached no thread is at the assignment of
-- `addToTeleBook` while another one is at an access to the book, and from there all threads get to their
-- end. What the look-ups of two readers at once do is not part of it: each is one action here.
pub readers_writers :
    (n : ℕ) (book : List (ℕ × ℕ)) (ps : List Pc)
    → ((i : ℕ) → i < n → Starts (at ps i))
    → {s : System Memory Pc} → Reach (MainStep n) (started book ps) s
    → (¬ (Overlap n s))
      × ((t : System Memory Pc) × Reach (MainStep n) s t × (total_pc actions n t.pc ≡ 0))
readers_writers n book ps ok {s} r =
    let inv : Inv n s =
      Reach-invariant (MainStep n) (Inv n) (Step-Inv n) (started-Inv n book ps ok) r in
    (
      Inv-apart n s inv,
      Reach-final (MainStep n) (Inv n) (λ u. total_pc actions n u.pc ≡ 0)
          (λ u. total_pc actions n u.pc) (Step-Inv n) (λ u v i st. Step-actions n u v st)
          (Inv-Moves n) (suc (total_pc actions n s.pc)) s inv (omega arith),
    )

-- The state after a reader has taken the lock.
abbrev pub reading : System Memory Pc → ℕ → ℕ → System Memory Pc
reading s i na = record {
  memory = record (s.memory) { readers = suc s.memory.readers };
  pc = write s.pc i (look_up na);
}

reading-Step :
    (n : ℕ) (s : System Memory Pc) (i na : ℕ)
    → i < n
    → s.memory.writer ≡ false
    → s.pc i ≡ read_lock na
    → MainStep n s (reading s i na)
reading-Step n s i na l free e = pick i l (
    subst
      (λ (p : Pc).
        Act s.memory p (record (s.memory) { readers = suc s.memory.readers }) (look_up na))
      (sym e) (lock_shared free))

-- Whatever is in the book, where two of the first `n` threads are readers, a state is reached where both
-- are at their look-ups: these race, since each is a call of `operator[]` of a map that is not const.
pub readers-Race :
    (n : ℕ) (book : List (ℕ × ℕ)) (ps : List Pc) (i k na name : ℕ)
    → i < n
    → k < n
    → i ≢ k
    → at ps i ≡ read_lock na
    → at ps k ≡ read_lock name
    → (s : System Memory Pc) × Reach (MainStep n) (started book ps) s × Race n s
readers-Race n book ps i k na name l l' d e e' =
    let s : System Memory Pc = started book ps in
    let other : write s.pc i (look_up na) k ≡ read_lock name =
      write_other s.pc i k (look_up na) d ∙ e' in
    let first : write (write s.pc i (look_up na)) k (look_up name) i ≡ look_up na =
      write_other (write s.pc i (look_up na)) k i (look_up name) (λ same. d (sym same))
      ∙ write_self s.pc i i (look_up na) refl in
    let second : write (write s.pc i (look_up na)) k (look_up name) k ≡ look_up name =
      write_self (write s.pc i (look_up na)) k k (look_up name) refl in
    (
      reading (reading s i na) k name,
      later (later start (reading-Step n s i na l refl e))
          (reading-Step n (reading s i na) k name l' refl other),
      (i, k, l, l', d, subst Accesses (sym first) tt, subst Accesses (sym second) tt),
    )
