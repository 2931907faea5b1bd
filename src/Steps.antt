-- ===== src/Steps.antt =====
-- Programs with threads as step relations on a state: the interleavings of atomic actions.
use cpp20examples.Prelude.{ℕ, zero, suc, ◌<◌, arith, ◌⊎◌, inl, inr}

-- The states that are reached in any number of steps.
pub data Reach {S : Type 0} (Step : S → S → Type 0) (s : S) : S → Type 0 where
  start : Reach Step s s
  later : {t u : S} → Reach Step s t → Step t u → Reach Step s u

module _ {S : Type 0} (Step : S → S → Type 0) where
  -- What holds at first and is kept by every step holds in every state that is reached.
  pub Reach-invariant :
      (Inv : S → Type 0)
      → ((s t : S) → Inv s → Step s t → Inv t)
      → {s t : S} → Inv s
      → Reach Step s t
      → Inv t
  Reach-invariant Inv keep h start = h
  Reach-invariant Inv keep h (later r st) = keep _ _ (Reach-invariant Inv keep h r) st

  pub Reach-trans : {s t u : S} → Reach Step s t → Reach Step t u → Reach Step s u
  Reach-trans r start = r
  Reach-trans r (later q st) = later (Reach-trans r q) st

  -- If a measure falls with every step, and a state that is not final has a step, then a final
  -- state is reached.
  pub Reach-final {κ} :
      (Inv : S → Type 0) (Final : S → Type κ) (measure : S → ℕ)
      → ((s t : S) → Inv s → Step s t → Inv t)
      → ((s t : S) → Inv s → Step s t → measure t < measure s)
      → ((s : S) → Inv s → Final s ⊎ ((t : S) × Step s t))
      → (bound : ℕ) (s : S) → Inv s
      → measure s < bound
      → (t : S) × Reach Step s t × Final t
  Reach-final Inv Final measure keep falls moves zero s i m = absurd (omega arith)
  Reach-final Inv Final measure keep falls moves (suc bound) s i m = elim (moves s i) [
    | inl final ↦ (s, start, final)
    | inr (t, st) ↦
        let (u, r, final) =
          Reach-final Inv Final measure keep falls moves bound t (keep s t i st)
            (omega (arith, falls s t i st)) in
        (u, Reach-trans (later start st) r, final)
  ]
