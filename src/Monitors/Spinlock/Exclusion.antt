-- ===== src/Monitors/Spinlock/Exclusion.antt =====
-- At most one thread works, and some thread can go on.
use cpp20examples.Prelude.{
  ℕ, zero, suc, ◌+◌, ◌≤◌, ◌<◌, ◌≡◌, ◌≢◌, refl, arith, Bool, true, false, ◌⊎◌, inl, inr, ap,
  Bool-cases, ℕ_discrete, ◌∙◌,
}
use cpp20examples.Steps.{Reach, Reach-invariant}
use cpp20examples.Threads.{
  System, pick, total_pc, total_pc-write, le-total_pc, two-le-total_pc, total_pc-zero,
}
use cpp20examples.Monitors.Spinlock.{
  Pc, locking, working, ended, Act, acquire, spin, release, init, MainStep,
}

-- 1 for a thread that works, and for a flag that is set.
abbrev works : Pc → ℕ
works working = 1
works _ = 0

abbrev set : Bool → ℕ
set true = 1
set false = 0

set_le : (f : Bool) → set f ≤ 1
set_le f = ground arith

Act-works :
    {f f' : Bool} {p p' : Pc}
    → Act f p f' p'
    → works p ≤ set f
    → works p' + set f ≡ works p + set f'
Act-works (acquire h) k = ground arith
Act-works (spin h) k = ground arith
Act-works release k = ground arith

abbrev Inv : ℕ → System Bool Pc → Type 0
Inv n s = total_pc works n s.pc ≡ set s.memory

Step-Inv : (n : ℕ) (s t : System Bool Pc) → Inv n s → MainStep n s t → Inv n t
Step-Inv n s t inv (pick i l {p = p} act) = omega (
  arith,
  inv,
  total_pc-write works n i s.pc p l,
  Act-works act (omega (arith, inv, le-total_pc works n i s.pc l)),
)

-- A thread that has not ended.
Waits : ℕ → (ℕ → Pc) → Type 0
Waits n pc = (i : ℕ) × (i < n) × ((pc i ≡ locking) ⊎ (pc i ≡ working))

pc_cases : (p : Pc) → (p ≡ ended) ⊎ ((p ≡ locking) ⊎ (p ≡ working))
pc_cases ended = inl refl
pc_cases locking = inr (inl refl)
pc_cases working = inr (inr refl)

below_suc :
    (n : ℕ) (pc : ℕ → Pc)
    → pc n ≡ ended
    → ((i : ℕ) → i < n → pc i ≡ ended)
    → (i : ℕ) → i < suc n
    → pc i ≡ ended
below_suc n pc e all i l = elim (ℕ_discrete i n) [
  | yes same ↦ ap pc same ∙ e
  | no other ↦ all i (omega arith)
]

all_or_one : (n : ℕ) (pc : ℕ → Pc) → ((i : ℕ) → i < n → pc i ≡ ended) ⊎ Waits n pc
unfolding Waits
all_or_one zero pc = inl (λ i l. absurd (omega arith))
all_or_one (suc n) pc = elim (pc_cases (pc n)) [
  | inr waits ↦ inr (n, omega arith, waits)
  | inl e ↦ elim (all_or_one n pc) [
    | inl all ↦ inl (below_suc n pc e all)
    | inr (i, l, waits) ↦ inr (i, omega arith, waits)
  ]
]

-- Where some thread works, which one.
worker : (n : ℕ) (pc : ℕ → Pc) → total_pc works n pc ≡ 1 → (i : ℕ) × (i < n) × (pc i ≡ working)
worker zero pc e = absurd (omega (arith, e))
worker (suc n) pc e = elim (pc_cases (pc n)) [
  | inr (inr w) ↦ (n, omega arith, w)
  | inr (inl w) ↦
      let (i, l, w') = worker n pc (omega (arith, e, ap works w)) in (i, omega arith, w')
  | inl w ↦ let (i, l, w') = worker n pc (omega (arith, e, ap works w)) in (i, omega arith, w')
]

-- A thread that can leave its loop, or `unlock`.
abbrev pub CanGoOn : ℕ → System Bool Pc → Type 0
CanGoOn n s = (i : ℕ) × (i < n) × (((s.pc i ≡ locking) × (s.memory ≡ false)) ⊎ (s.pc i ≡ working))

-- For any number of threads, in every state that is reached: no two threads work at the same time, and
-- unless all have ended one of them can leave the loop of `lock`, since the flag is clear, or `unlock`.
pub spinlock_exclusion :
    {n : ℕ} {s : System Bool Pc}
    → Reach (MainStep n) init s
    → ((i k : ℕ) → i < n → k < n → i ≢ k → s.pc i ≡ working → s.pc k ≢ working)
      × (((i : ℕ) → i < n → s.pc i ≡ ended) ⊎ CanGoOn n s)
unfolding Waits
spinlock_exclusion {n} {s} r =
    let inv : Inv n s =
      Reach-invariant (MainStep n) (Inv n) (Step-Inv n)
        (total_pc-zero works n (λ i. locking) (λ i l. refl)) r in
    (
      λ i k l l' d w w'. omega (
        arith,
        inv,
        set_le s.memory,
        two-le-total_pc works n i k s.pc l l' d,
        ap works w,
        ap works w',
      ),
      elim (Bool-cases s.memory) [
        | inl e ↦ let (i, l, w) = worker n s.pc (inv ∙ ap set e) in inr (i, l, inr w)
        | inr e ↦ elim (all_or_one n s.pc) [
          | inl all ↦ inl all
          | inr (i, l, inl w) ↦ inr (i, l, inl (w, e))
          | inr (i, l, inr w) ↦ inr (i, l, inr w)
        ]
      ],
    )
