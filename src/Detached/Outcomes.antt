-- ===== src/Detached/Outcomes.antt =====
-- What comes of a run, without a delay and with one.
mod Tests
use cpp20examples.Prelude.{
  ◌+◌, ℕ, zero, suc, ◌<◌, ◌≡◌, ◌≢◌, refl, arith, ◌⊎◌, inl, inr, Option, none, some, ap, sym, subst,
}
use cpp20examples.Steps.{Reach, Reach-invariant, start, later}
use cpp20examples.Detached.{
  true, false, Bool, Frame, not_made, suspended, resumed, final, destroyed, Timer, no_thread,
  asleep, before_resume, running, ended, undefined_resume, Main, sleeping, print, destroy, finished,
  undefined_destroy, State, state, init, Step, call_ready, call_suspend, timer_wakes, resume,
  resume_destroyed, return_value, main_wakes, get_returned_value, destroy_resumed,
  destroy_suspended, destroy_final,
}
use cpp20examples.Detached.Invariant.{
  running-Possible, Possible, alive, Early, Printed, Fits, Inv, Step-Inv, init-Inv,
  undefined-Possible,
}

-- The frame was used where it must not be, or two accesses raced.
abbrev pub Undefined : State → Type 0
Undefined (state f t m v p r) = (t ≡ undefined_resume) ⊎ ((m ≡ undefined_destroy) ⊎ (r ≡ true))

-- Whatever steps follow, a state is reached where something undefined has been done.
pub data Doomed (atomic : Bool) (delay : ℕ) : State → Type 0 where
  now : {s : State} → Undefined s → Doomed atomic delay s
  soon :
      {s t : State}
      → Step atomic delay s t
      → ((u : State) → Step atomic delay s u → Doomed atomic delay u)
      → Doomed atomic delay s

-- Nothing undefined has been done, and `main` has printed nothing or 42.
abbrev pub Defined : State → Type 0
Defined (state f t m v p r) =
    (t ≢ undefined_resume) × (m ≢ undefined_destroy) × (r ≡ false) × ((p ≡ none) ⊎ (p ≡ some 42))

-- Whether accesses have raced, as far as it matters: not without a delay, and always where `main` has
-- destroyed the frame of a coroutine that the thread has resumed.
abbrev pub Late : Timer → Main → Bool → Type 0
Late ended finished r = r ≡ true
Late _ _ r = Unit

abbrev pub Races : ℕ → State → Type 0
Races delay (state f t m v p r) = Late t m r × ((0 < delay) ⊎ (r ≡ false))

Step-Races :
    {atomic : Bool} (delay : ℕ) (s t : State)
    → Step atomic delay s t
    → Inv delay s
    → Races delay s
    → Races delay t
Step-Races delay _ _ (call_ready d) i x = ground arith
Step-Races delay _ _ (call_suspend d) i x = ground arith
Step-Races delay _ _ (timer_wakes {m = m}) i x = ground arith
Step-Races delay _ _ (resume {m = m}) i x = ground arith
Step-Races delay _ _ resume_destroyed i x = ground arith
Step-Races delay _ _ (return_value {f = f} {m = m} {v = v} {p = p}) i x =
    let (same, d, z) = running-Possible delay f v i.0 in ground arith
Step-Races delay _ _ (main_wakes {t = t}) i x = ground arith
Step-Races delay _ _ (get_returned_value {f = f} {t = t} {v = v}) i x = ground arith
Step-Races delay _ _ (destroy_resumed {t = t}) i x = ground arith
Step-Races delay _ _ (destroy_suspended {t = t}) i x = ground arith
Step-Races delay _ _ (destroy_final {t = t}) i x = ground arith

-- What is left to do.
abbrev left_main : Main → ℕ
left_main Main.start = 7
left_main sleeping = 3
left_main print = 2
left_main destroy = 1
left_main _ = 0

abbrev left_timer : Timer → ℕ
left_timer no_thread = 3
left_timer asleep = 3
left_timer before_resume = 2
left_timer running = 1
left_timer _ = 0

abbrev left : State → ℕ
left (state f t m v p r) = left_main m + left_timer t

Step-left : {atomic : Bool} (delay : ℕ) (s u : State) → Step atomic delay s u → left u < left s
Step-left delay _ _ (call_ready d) = omega arith
Step-left delay _ _ (call_suspend d) = omega arith
Step-left delay _ _ timer_wakes = omega arith
Step-left delay _ _ resume = omega arith
Step-left delay _ _ resume_destroyed = omega arith
Step-left delay _ _ return_value = omega arith
Step-left delay _ _ main_wakes = omega arith
Step-left delay _ _ get_returned_value = omega arith
Step-left delay _ _ destroy_resumed = omega arith
Step-left delay _ _ destroy_suspended = omega arith
Step-left delay _ _ destroy_final = omega arith

-- With a delay a run ends only where something undefined has been done.
Moves : Bool → ℕ → State → Type 0
Moves atomic delay s = Undefined s ⊎ ((u : State) × Step atomic delay s u)

destroy-Moves :
    (atomic : Bool) (delay : ℕ) (f : Frame) (t : Timer) (v : ℕ) (p : Option ℕ) (r : Bool)
    → alive f ≡ 1
    → Moves atomic delay (state f t destroy v p r)
unfolding Moves
destroy-Moves atomic delay suspended t v p r a = inr (_, destroy_suspended)
destroy-Moves atomic delay resumed t v p r a = inr (_, destroy_resumed)
destroy-Moves atomic delay final t v p r a = inr (_, destroy_final)
destroy-Moves atomic delay not_made t v p r a = absurd (omega (arith, a))
destroy-Moves atomic delay destroyed t v p r a = absurd (omega (arith, a))

finished-Moves :
    (atomic : Bool) (delay : ℕ) (t : Timer) (v : ℕ) (p : Option ℕ) (r : Bool)
    → 0 < delay
    → Possible delay destroyed t v
    → Late t finished r
    → Moves atomic delay (state destroyed t finished v p r)
unfolding Moves
finished-Moves atomic delay no_thread v p r d h x = absurd (omega (arith, h.0))
finished-Moves atomic delay asleep v p r d h x = inr (_, timer_wakes)
finished-Moves atomic delay before_resume v p r d h x = inr (_, resume_destroyed)
finished-Moves atomic delay running v p r d h x = elim h [ ]
finished-Moves atomic delay ended v p r d h x = inl (inr (inr x))
finished-Moves atomic delay undefined_resume v p r d h x = inl (inl refl)

Inv-Moves :
    (atomic : Bool) (delay : ℕ) (f : Frame) (t : Timer) (m : Main) (v : ℕ) (p : Option ℕ) (r : Bool)
    → 0 < delay
    → Inv delay (state f t m v p r)
    → Late t m r
    → Moves atomic delay (state f t m v p r)
unfolding Moves
Inv-Moves atomic delay f t Main.start v p r d (a, b) x = inr (_, call_suspend d)
Inv-Moves atomic delay f t sleeping v p r d (a, b) x = inr (_, main_wakes)
Inv-Moves atomic delay f t print v p r d (a, b) x = inr (_, get_returned_value)
Inv-Moves atomic delay f t destroy v p r d (a, (b, n)) x = destroy-Moves atomic delay f t v p r n
Inv-Moves atomic delay f t finished v p r d (a, (b, n)) x =
    subst (λ (y : Frame). Moves atomic delay (state y t finished v p r)) (sym n)
      (finished-Moves atomic delay t v p r d (subst (λ (y : Frame). Possible delay y t v) n a) x)
Inv-Moves atomic delay f t undefined_destroy v p r d (a, b) x = inl (inr (inl refl))

Inv-Doomed :
    {atomic : Bool} (delay bound : ℕ) (s : State)
    → 0 < delay
    → Inv delay s
    → Races delay s
    → left s < bound
    → Doomed atomic delay s
unfolding Moves
Inv-Doomed delay zero s d i x h = absurd (omega (arith, h))
Inv-Doomed {atomic} delay (suc bound) (state f t m v p r) d i x h =
    elim (Inv-Moves atomic delay f t m v p r d i x.0) [
      | inl undefined_ ↦ now undefined_
      | inr (u, st) ↦ soon st (λ u' st'.
          Inv-Doomed delay bound u' d (Step-Inv delay _ u' st' i) (Step-Races delay _ u' st' i x)
            (omega (arith, Step-left delay _ u' st', h)))
    ]

-- Without a delay the thread is never started.
Inv-Defined :
    (delay : ℕ) (f : Frame) (t : Timer) (m : Main) (v : ℕ) (p : Option ℕ) (r : Bool)
    → delay ≡ 0
    → Inv delay (state f t m v p r)
    → (0 < delay) ⊎ (r ≡ false)
    → Defined (state f t m v p r)
Inv-Defined delay f t Main.start v p r z (a, (e, n)) x =
    (λ y. ground arith, λ y. ground arith, ground arith, inl e)
Inv-Defined delay f t sleeping v p r z (a, (e, n)) x =
    (λ y. ground arith, λ y. ground arith, ground arith, inl e)
Inv-Defined delay f t print v p r z (a, (e, n)) x =
    (λ y. ground arith, λ y. ground arith, ground arith, inl e)
Inv-Defined delay f t destroy v p r z (a, (inl e, n)) x = absurd (omega (arith, e.1))
Inv-Defined delay f t destroy v p r z (a, (inr e, n)) x =
    (λ y. ground arith, λ y. ground arith, ground arith, inr e.0)
Inv-Defined delay f t finished v p r z (a, (inl e, n)) x = absurd (omega (arith, e.1))
Inv-Defined delay f t finished v p r z (a, (inr e, n)) x =
    (λ y. ground arith, λ y. ground arith, ground arith, inr e.0)
Inv-Defined delay f t undefined_destroy v p r z (a, (e, n, k)) x = absurd (omega (arith, e.1))

reached-Inv :
    {atomic : Bool} (delay : ℕ) {s : State}
    → Reach (Step atomic delay) init s
    → Inv delay s × Races delay s
reached-Inv {atomic} delay r =
    Reach-invariant (Step atomic delay) (λ (s : State). Inv delay s × Races delay s)
      (λ s u i st. (Step-Inv delay s u st i.0, Step-Races delay s u st i.0 i.1))
      (init-Inv delay, (tt, inr refl)) r

pub detached_outcome :
    (atomic : Bool) (delay : ℕ) {s : State}
    → Reach (Step atomic delay) init s
    → ((delay ≡ 0) × Defined s) ⊎ ((0 < delay) × Doomed atomic delay s)
detached_outcome atomic zero {s = state f t m v p r} reached =
    let (i, x) = reached-Inv zero reached in inl (refl, Inv-Defined zero f t m v p r refl i x.1)
detached_outcome atomic (suc delay) {s} reached =
    let (i, x) = reached-Inv (suc delay) reached in
    inr (omega arith, Inv-Doomed (suc delay) (suc (left s)) s (omega arith) i x (omega arith))
