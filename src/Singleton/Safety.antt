-- ===== src/Singleton/Safety.antt =====
-- At most one object is made: the invariant of the lock, of the object and of the calls.
use cpp20examples.Prelude.{ℕ, ◌+◌, ◌≤◌, ◌<◌, ◌≡◌, arith, sym, subst, ℕ_discrete}
use cpp20examples.Coroutine.{write}
use cpp20examples.Threads.{
  System, pick, total_pc, total_pc-write, le-total_pc, two-le-total_pc, total_pc-zero, write_self,
  write_other,
}
use cpp20examples.Singleton.{Memory, Place, Pc, calls, Act, init, EntryStep}
use cpp20examples.Singleton.Others.{Act-others, Act-counts}
use cpp20examples.Singleton.Acts.{
  set, holds, left, length, Safe, SafePc, Good, set_le, Act-Numbers, Act-First, Act-Safe,
}

pub record Inv (lock_version n all : ℕ) (s : System Memory Pc) : Type 0 where
  pub good : Good lock_version s.memory
  pub safe : (i : ℕ) → i < n → SafePc lock_version s.memory (s.pc i)
  pub busy : (i : ℕ) → i < n → holds (s.pc i) ≤ left (s.pc i)
  pub exclusion : total_pc holds n s.pc ≡ set s.memory.locked
  pub counted : length s.memory.returned + total_pc left n s.pc ≡ all

-- A thread that holds the lock has calls left.
abbrev pub Busy : Pc → Type 0
Busy p = holds p ≤ left p

module _ (lock_version n all : ℕ) (entry : Place) (start : (m : Memory) → Safe lock_version m entry)
    (outside : (k : ℕ) → holds (calls k entry) ≡ 0) where
  Step-SafePc :
      (s : System Memory Pc)
      → Inv lock_version n all s
      → (i : ℕ) → i < n
      → {m' : Memory} {p' : Pc} → Act entry s.memory (s.pc i) m' p'
      → (k : ℕ) → k < n
      → SafePc lock_version m' (write s.pc i p' k)
  Step-SafePc s inv i l {m'} {p'} act k l' = elim (ℕ_discrete i k) [
    | yes e ↦
        subst (SafePc lock_version m') (sym (write_self s.pc i k p' e))
          (Act-Safe lock_version start act inv.good (inv.safe i l))
    | no d ↦ subst (SafePc lock_version m') (sym (write_other s.pc i k p' d)) (
        Act-others lock_version (s.pc k) act
          (omega
            (arith, inv.exclusion, set_le s.memory.locked, two-le-total_pc holds n i k s.pc l l' d))
          (inv.safe k l'))
  ]

  pub Step-Inv :
      (s t : System Memory Pc)
      → Inv lock_version n all s
      → EntryStep entry n s t
      → Inv lock_version n all t
  Step-Inv s t inv (pick i l {m = m'} {p = p'} act) =
      let h : holds (s.pc i) ≤ set s.memory.locked =
        omega (arith, inv.exclusion, le-total_pc holds n i s.pc l) in
      let (first, all_first) = Act-First lock_version act inv.good (inv.safe i l) in
      let (exclusion, counted, busy) = Act-counts outside act h in
      record {
        good = record {
          first = first;
          all_first = all_first;
          numbers = Act-Numbers lock_version act inv.good (inv.safe i l) h;
        };
        safe = Step-SafePc s inv i l act;
        busy = λ k l'. elim (ℕ_discrete i k) [
          | yes e ↦ subst Busy (sym (write_self s.pc i k p' e)) busy
          | no d ↦ subst Busy (sym (write_other s.pc i k p' d)) (inv.busy k l')
        ];
        exclusion = omega (arith, exclusion, inv.exclusion, total_pc-write holds n i s.pc p' l);
        counted = omega (arith, counted, inv.counted, total_pc-write left n i s.pc p' l);
      }

  pub init-Inv :
      (iterations : ℕ → ℕ)
      → total_pc left n (λ i. calls (iterations i) entry) ≡ all
      → Inv lock_version n all (init entry iterations)
  init-Inv iterations e = record {
    good = record { first = omega arith; all_first = omega arith; numbers = ground arith };
    safe = λ i l. start (init entry iterations).memory;
    busy = λ i l. omega (arith, outside (iterations i));
    exclusion =
        total_pc-zero holds n (λ i. calls (iterations i) entry) (λ i l. outside (iterations i));
    counted = omega (arith, e);
  }
