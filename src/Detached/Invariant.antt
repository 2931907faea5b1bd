-- ===== src/Detached/Invariant.antt =====
-- Which states of frame, thread and `main` go together: an invariant of the steps.
use cpp20examples.Prelude.{
  ℕ, ◌<◌, ◌≡◌, ◌≢◌, refl, arith, ◌⊎◌, inl, inr, Option, none, some, ap, sym, subst,
}
use cpp20examples.Detached.{
  Bool, Frame, not_made, suspended, resumed, final, destroyed, Timer, no_thread, asleep,
  before_resume, running, ended, undefined_resume, Main, sleeping, print, destroy, finished,
  undefined_destroy, State, state, init, Step, call_ready, call_suspend, timer_wakes, resume,
  resume_destroyed, return_value, main_wakes, get_returned_value, destroy_resumed,
  destroy_suspended, destroy_final,
}

-- Which frames, threads and values of the promise go together.
abbrev pub Possible : (delay : ℕ) → Frame → Timer → ℕ → Type 0
Possible delay not_made no_thread v = v ≡ 0
Possible delay suspended asleep v = (0 < delay) × (v ≡ 0)
Possible delay suspended before_resume v = (0 < delay) × (v ≡ 0)
Possible delay resumed running v = (0 < delay) × (v ≡ 0)
Possible delay final no_thread v = (delay ≡ 0) × (v ≡ 42)
Possible delay final ended v = (0 < delay) × (v ≡ 42)
Possible delay destroyed no_thread v = (delay ≡ 0) × (v ≡ 42)
Possible delay destroyed asleep v = (0 < delay) × (v ≡ 0)
Possible delay destroyed before_resume v = (0 < delay) × (v ≡ 0)
Possible delay destroyed undefined_resume v = (0 < delay) × (v ≡ 0)
Possible delay destroyed ended v = (0 < delay) × (v ≡ 42)
Possible delay _ _ v = ⊥

-- 1 for a frame that `main` has made and not destroyed.
abbrev pub alive : Frame → ℕ
alive not_made = 0
alive destroyed = 0
alive _ = 1

-- `main` has printed 0, which takes a delay, or 42.
abbrev pub Early : ℕ → Option ℕ → Type 0
Early delay p = (p ≡ some 0) × (0 < delay)

abbrev pub Printed : ℕ → Option ℕ → ℕ → Type 0
Printed delay p v = Early delay p ⊎ ((p ≡ some 42) × (v ≡ 42))

-- What goes with the place of `main`.
abbrev pub Fits : ℕ → Main → Frame → ℕ → Option ℕ → Type 0
Fits delay Main.start f v p = (p ≡ none) × (f ≡ not_made)
Fits delay sleeping f v p = (p ≡ none) × (alive f ≡ 1)
Fits delay print f v p = (p ≡ none) × (alive f ≡ 1)
Fits delay destroy f v p = Printed delay p v × (alive f ≡ 1)
Fits delay finished f v p = Printed delay p v × (f ≡ destroyed)
Fits delay undefined_destroy f v p = Early delay p × (alive f ≡ 1) × (f ≢ suspended)

abbrev pub Inv : ℕ → State → Type 0
Inv delay (state f t m v p r) = Possible delay f t v × Fits delay m f v p

Fits-resumed :
    (delay : ℕ) (m : Main) (v : ℕ) (p : Option ℕ)
    → Fits delay m suspended v p
    → Fits delay m resumed v p
Fits-resumed delay Main.start v p (e, h) = ground arith
Fits-resumed delay sleeping v p h = h
Fits-resumed delay print v p h = h
Fits-resumed delay destroy v p h = h
Fits-resumed delay finished v p (e, h) = ground arith
Fits-resumed delay undefined_destroy v p (e, a, h) = absurd (h refl)

Fits-final :
    (delay : ℕ) (m : Main) (v : ℕ) (p : Option ℕ)
    → v ≡ 0
    → Fits delay m resumed v p
    → Fits delay m final 42 p
Fits-final delay Main.start v p z (e, h) = ground arith
Fits-final delay sleeping v p z h = h
Fits-final delay print v p z h = h
Fits-final delay destroy v p z (inl e, a) = (inl e, a)
Fits-final delay destroy v p z (inr (e, h), a) = absurd (omega (arith, z, h))
Fits-final delay finished v p z (e, h) = ground arith
Fits-final delay undefined_destroy v p z (e, a, h) = (e, a, λ same. ground arith)

asleep-Possible :
    (delay : ℕ) (f : Frame) (v : ℕ) → Possible delay f asleep v → Possible delay f before_resume v
asleep-Possible delay f v h = ground arith

pub running-Possible :
    (delay : ℕ) (f : Frame) (v : ℕ)
    → Possible delay f running v
    → (f ≡ resumed) × (0 < delay) × (v ≡ 0)
running-Possible delay f v h = ground arith

not_made-Possible :
    (delay : ℕ) (f : Frame) (t : Timer) (v : ℕ)
    → f ≡ not_made
    → Possible delay f t v
    → (t ≡ no_thread) × (v ≡ 0)
not_made-Possible delay f t v h = ground arith

value-Possible :
    (delay : ℕ) (f : Frame) (t : Timer) (v : ℕ)
    → alive f ≡ 1
    → Possible delay f t v
    → ((v ≡ 0) × (0 < delay)) ⊎ (v ≡ 42)
value-Possible delay f t v n h = ground arith

destroyed-Possible :
    (delay : ℕ) (t : Timer) (v : ℕ)
    → (Possible delay suspended t v → Possible delay destroyed t v)
      × (Possible delay final t v → Possible delay destroyed t v)
destroyed-Possible delay t v = (λ h. ground arith, λ h. ground arith)

resumed-Possible : (delay : ℕ) (t : Timer) (v : ℕ) → Possible delay resumed t v → v ≡ 0
resumed-Possible delay t v h = ground arith

pub Step-Inv :
    {atomic : Bool} (delay : ℕ) (s t : State) → Step atomic delay s t → Inv delay s → Inv delay t
Step-Inv delay _ _ (call_ready {f = f} {t = t} {v = v} d) (a, (e, n)) =
    let (same, z) = not_made-Possible delay f t v n a in
    (subst (λ (x : Timer). Possible delay final x 42) (sym same) (d, refl), (e, refl))
Step-Inv delay _ _ (call_suspend {f = f} {t = t} {v = v} d) (a, (e, n)) =
    let (same, z) = not_made-Possible delay f t v n a in ((d, z), (e, refl))
Step-Inv delay _ _ (timer_wakes {f = f} {v = v}) (a, b) = (asleep-Possible delay f v a, b)
Step-Inv delay _ _ (resume {m = m} {v = v} {p = p}) (a, b) = (a, Fits-resumed delay m v p b)
Step-Inv delay _ _ resume_destroyed (a, b) = (a, b)
Step-Inv delay _ _ (return_value {f = f} {m = m} {v = v} {p = p}) (a, b) =
    let (same, d, z) = running-Possible delay f v a in
    ((d, refl), Fits-final delay m v p z (subst (λ (x : Frame). Fits delay m x v p) same b))
Step-Inv delay _ _ main_wakes (a, b) = (a, b)
Step-Inv delay _ _ (get_returned_value {f = f} {t = t} {v = v}) (a, (e, n)) =
    elim (value-Possible delay f t v n a) [
      | inl (z, d) ↦ (a, (inl (ap some z, d), n))
      | inr z ↦ (a, (inr (ap some z, z), n))
    ]
Step-Inv delay _ _ (destroy_resumed {t = t} {v = v}) (a, (inl e, n)) =
    (a, (e, n, λ same. ground arith))
Step-Inv delay _ _ (destroy_resumed {t = t} {v = v}) (a, (inr (e, h), n)) =
    absurd (omega (arith, h, resumed-Possible delay t v a))
Step-Inv delay _ _ (destroy_suspended {t = t} {v = v}) (a, (b, n)) =
    ((destroyed-Possible delay t v).0 a, (b, refl))
Step-Inv delay _ _ (destroy_final {t = t} {v = v}) (a, (b, n)) =
    ((destroyed-Possible delay t v).1 a, (b, refl))

pub init-Inv : (delay : ℕ) → Inv delay init
init-Inv delay = (refl, (refl, refl))

pub undefined-Possible :
    (delay : ℕ) (f : Frame) (v : ℕ)
    → Possible delay f undefined_resume v
    → (f ≡ destroyed) × (v ≡ 0)
undefined-Possible delay f v h = ground arith
