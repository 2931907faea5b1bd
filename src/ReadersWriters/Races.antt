-- ===== src/ReadersWriters/Races.antt =====
-- When the accesses of two threads to the book race, and which of them do not.
use cpp20examples.Prelude.{ℕ, ◌+◌, ◌<◌, ◌≡◌, ◌≢◌, refl, arith, List, sym, ◌⊎◌, inl}
use cpp20examples.Threads.{
  System, pick, total_pc, total_pc-write, le-total_pc, two-le-total_pc, total_pc-zero,
}
use cpp20examples.ReadersWriters.{
  Memory, Pc, read_lock, look_up, read_unlock, write_lock, update, write_unlock, ended, at, started,
  MainStep,
}
use cpp20examples.ReadersWriters.Lock.{reads, writes, set, set_le, Act-lock}

-- Whether a thread is at an access to the book, and whether that is the assignment. Both are
-- `operator[]` of a map that is not const, which counts as a change of the map even where the name is
-- there.
abbrev pub Accesses : Pc → Type 0
Accesses (look_up na) = Unit
Accesses (update na tele) = Unit
Accesses _ = ⊥

abbrev pub Assigns : Pc → Type 0
Assigns (update na tele) = Unit
Assigns _ = ⊥

-- Two threads are at accesses to the book.
abbrev pub Race : ℕ → System Memory Pc → Type 0
Race n s = (i : ℕ) × (k : ℕ) × (i < n) × (k < n) × (i ≢ k) × Accesses (s.pc i) × Accesses (s.pc k)

-- A thread is at the assignment, and another one at an access to the book.
abbrev pub Overlap : ℕ → System Memory Pc → Type 0
Overlap n s = (i : ℕ) × (k : ℕ) × (i < n) × (k < n) × (i ≢ k) × Assigns (s.pc i) × Accesses (s.pc k)

-- A thread that starts.
abbrev pub Starts : Pc → Type 0
Starts (read_lock na) = Unit
Starts (write_lock na tele) = Unit
Starts ended = Unit
Starts _ = ⊥

Starts-free : (p : Pc) → Starts p → (reads p ≡ 0) × (writes p ≡ 0)
Starts-free (read_lock na) k = (refl, refl)
Starts-free (write_lock na tele) k = (refl, refl)
Starts-free ended k = (refl, refl)
Starts-free (look_up na) k = elim k [ ]
Starts-free read_unlock k = elim k [ ]
Starts-free (update na tele) k = elim k [ ]
Starts-free write_unlock k = elim k [ ]

pub record Inv (n : ℕ) (s : System Memory Pc) : Type 0 where
  pub shared : s.memory.readers ≡ total_pc reads n s.pc
  pub unique : set s.memory.writer ≡ total_pc writes n s.pc
  pub apart : set s.memory.writer ≡ 0 ⊎ s.memory.readers ≡ 0

pub Step-Inv : (n : ℕ) (s t : System Memory Pc) → Inv n s → MainStep n s t → Inv n t
Step-Inv n s t inv (pick i l {m = m'} {p = p'} act) =
    let (shared, unique, apart) =
      Act-lock act (omega (arith, inv.shared, le-total_pc reads n i s.pc l))
        (omega (arith, inv.unique, le-total_pc writes n i s.pc l)) inv.apart in
    record {
      shared = omega (arith, shared, inv.shared, total_pc-write reads n i s.pc p' l);
      unique = omega (arith, unique, inv.unique, total_pc-write writes n i s.pc p' l);
      apart = apart;
    }

pub started-Inv :
    (n : ℕ) (book : List (ℕ × ℕ)) (ps : List Pc)
    → ((i : ℕ) → i < n → Starts (at ps i))
    → Inv n (started book ps)
started-Inv n book ps ok = record {
  shared = sym (total_pc-zero reads n (at ps) (λ i l. (Starts-free (at ps i) (ok i l)).0));
  unique = sym (total_pc-zero writes n (at ps) (λ i l. (Starts-free (at ps i) (ok i l)).1));
  apart = inl refl;
}

-- A thread at the assignment has the lock, and so has one at an access.
Assigns-writes : (p : Pc) → Assigns p → writes p ≡ 1
Assigns-writes (update na tele) c = refl
Assigns-writes (look_up na) c = elim c [ ]
Assigns-writes (read_lock na) c = elim c [ ]
Assigns-writes read_unlock c = elim c [ ]
Assigns-writes (write_lock na tele) c = elim c [ ]
Assigns-writes write_unlock c = elim c [ ]
Assigns-writes ended c = elim c [ ]

Accesses-locked : (p : Pc) → Accesses p → reads p + writes p ≡ 1
Accesses-locked (look_up na) a = refl
Accesses-locked (update na tele) a = refl
Accesses-locked (read_lock na) a = elim a [ ]
Accesses-locked read_unlock a = elim a [ ]
Accesses-locked (write_lock na tele) a = elim a [ ]
Accesses-locked write_unlock a = elim a [ ]
Accesses-locked ended a = elim a [ ]

pub Inv-apart : (n : ℕ) (s : System Memory Pc) → Inv n s → ¬ (Overlap n s)
Inv-apart n s inv (i, k, l, l', d, c, a) =
    let w : writes (s.pc i) ≡ 1 = Assigns-writes (s.pc i) c in
    ground (
      arith,
      w,
      inv.shared,
      inv.unique,
      inv.apart,
      set_le s.memory.writer,
      Accesses-locked (s.pc k) a,
      le-total_pc reads n k s.pc l',
      two-le-total_pc writes n i k s.pc l l' d,
    )
