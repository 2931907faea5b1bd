-- ===== src/Threads.antt =====
-- Programs with any number of threads that run the same kind of code: the shared memory, and the place
-- of each thread. The weights of all places are added up in invariants.
use cpp20examples.Prelude.{ℕ, zero, suc, ◌+◌, ◌≤◌, ◌<◌, ◌≡◌, ◌≢◌, refl, arith, ap, ℕ_discrete}
use cpp20examples.Coroutine.{write}

-- The threads are numbered from 0 on.
pub record System (M Pc : Type 0) : Type 0 where
  pub memory : M
  pub pc : ℕ → Pc

-- One of the `n` threads makes an action, given as the memory and its place before and after.
pub data Step {M Pc : Type 0} (n : ℕ) (Act : M → Pc → M → Pc → Type 0) (s : System M Pc)
    : System M Pc → Type 0 where
  pick :
      (i : ℕ)
      → i < n
      → {m : M} {p : Pc} → Act s.memory (s.pc i) m p
      → Step n Act s (record { memory = m; pc = write s.pc i p })

module _ {Pc : Type 0} (w : Pc → ℕ) where
  -- The sum of a weight over the places of the first `n` threads.
  abbrev pub total_pc : ℕ → (ℕ → Pc) → ℕ
  total_pc zero pc = 0
  total_pc (suc n) pc = w (pc n) + total_pc n pc

  total_pc-write_beyond :
      (n i : ℕ) (pc : ℕ → Pc) (p : Pc) → n ≤ i → total_pc n (write pc i p) ≡ total_pc n pc
  total_pc-write_beyond zero i pc p h = refl
  total_pc-write_beyond (suc n) i pc p h =
      ground (arith, total_pc-write_beyond n i pc p (omega arith))

  -- A step of a thread changes the sum by what it changes at that thread.
  pub total_pc-write :
      (n i : ℕ) (pc : ℕ → Pc) (p : Pc)
      → i < n
      → total_pc n (write pc i p) + w (pc i) ≡ total_pc n pc + w p
  total_pc-write zero i pc p h = absurd (omega arith)
  total_pc-write (suc n) i pc p h = elim (ℕ_discrete i n) [
    | yes e ↦
        ground (arith, total_pc-write_beyond n i pc p (omega arith), ap (λ (k : ℕ). w (pc k)) e)
    | no e ↦ ground (arith, total_pc-write n i pc p (omega arith))
  ]

  pub le-total_pc : (n i : ℕ) (pc : ℕ → Pc) → i < n → w (pc i) ≤ total_pc n pc
  le-total_pc zero i pc h = absurd (omega arith)
  le-total_pc (suc n) i pc h = elim (ℕ_discrete i n) [
    | yes e ↦ omega (arith, ap (λ (k : ℕ). w (pc k)) e)
    | no e ↦ omega (arith, le-total_pc n i pc (omega arith))
  ]

  pub total_pc-zero : (n : ℕ) (pc : ℕ → Pc) → ((i : ℕ) → i < n → w (pc i) ≡ 0) → total_pc n pc ≡ 0
  total_pc-zero zero pc e = refl
  total_pc-zero (suc n) pc e =
      omega (arith, e n (omega arith), total_pc-zero n pc (λ i h. e i (omega arith)))

  -- Where the sum is not 0, a thread with a weight that is not 0.
  pub total_pc-positive :
      (n : ℕ) (pc : ℕ → Pc) → 0 < total_pc n pc → (i : ℕ) × (i < n) × (0 < w (pc i))
  total_pc-positive zero pc h = absurd (omega (arith, h))
  total_pc-positive (suc n) pc h = elim (ℕ_discrete (w (pc n)) 0) [
    | yes e ↦ let (i, l, h') = total_pc-positive n pc (omega (arith, h, e)) in (i, omega arith, h')
    | no d ↦ (n, omega arith, omega (arith, d))
  ]

  pub total_pc-one : (n : ℕ) (pc : ℕ → Pc) → ((i : ℕ) → i < n → w (pc i) ≡ 1) → total_pc n pc ≡ n
  total_pc-one zero pc e = refl
  total_pc-one (suc n) pc e =
      omega (arith, e n (omega arith), total_pc-one n pc (λ i h. e i (omega arith)))

  pub two-le-total_pc :
      (n i k : ℕ) (pc : ℕ → Pc) → i < n → k < n → i ≢ k → w (pc i) + w (pc k) ≤ total_pc n pc
  two-le-total_pc zero i k pc h h' d = absurd (omega arith)
  two-le-total_pc (suc n) i k pc h h' d = elim (ℕ_discrete i n) [
    | yes e ↦ omega (arith, ap (λ (x : ℕ). w (pc x)) e, le-total_pc n k pc (omega arith))
    | no e ↦ elim (ℕ_discrete k n) [
      | yes e' ↦ omega (arith, ap (λ (x : ℕ). w (pc x)) e', le-total_pc n i pc (omega arith))
      | no e' ↦ omega (arith, two-le-total_pc n i k pc (omega arith) (omega arith) d)
    ]
  ]

module _ {Pc : Type 0} where
  pub write_self : (pc : ℕ → Pc) (i k : ℕ) (p : Pc) → i ≡ k → write pc i p k ≡ p
  write_self pc i k p e = ground arith

  pub write_other : (pc : ℕ → Pc) (i k : ℕ) (p : Pc) → i ≢ k → write pc i p k ≡ pc k
  write_other pc i k p d = ground arith

-- Two weights that agree at every thread have the same sum.
pub total_pc-congr :
    {Pc : Type 0} (w v : Pc → ℕ) (n : ℕ) (pc : ℕ → Pc)
    → ((i : ℕ) → i < n → w (pc i) ≡ v (pc i))
    → total_pc w n pc ≡ total_pc v n pc
total_pc-congr w v zero pc e = refl
total_pc-congr w v (suc n) pc e =
    omega (arith, e n (omega arith), total_pc-congr w v n pc (λ i h. e i (omega arith)))

pub total_pc_mono :
    {Pc : Type 0} (w v : Pc → ℕ) (n : ℕ) (pc : ℕ → Pc)
    → ((i : ℕ) → i < n → w (pc i) ≤ v (pc i))
    → total_pc w n pc ≤ total_pc v n pc
total_pc_mono w v zero pc e = omega arith
total_pc_mono w v (suc n) pc e =
    omega (arith, e n (omega arith), total_pc_mono w v n pc (λ i h. e i (omega arith)))
