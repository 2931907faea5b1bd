-- ===== src/Scheduler/Timed/Ends.antt =====
-- Every coroutine goes on when it is due or later, and all come to their end.
use cpp20examples.Prelude.{
  ℕ, zero, suc, ◌+◌, ◌≤◌, ◌<◌, ◌≡◌, refl, ap, arith, ◌==◌, if◌then◌else◌, List, [], ◌∷◌, none, some,
  count, inl, inr, ℕ_discrete, ◌⊎◌, sym, ◌∙◌, subst,
}
use cpp20examples.Prelude.Exec.{Exec, ok, ◌>>=◌}
use cpp20examples.Threads.{write_self, write_other}
use cpp20examples.Scheduler.Timed.{detach_all, rounds, Clock, Code, Timed, State, run}
use cpp20examples.Scheduler.Timed.Round.{
  Awaits, handles, bit, AwaitsFrame, OnTime, Inv, measure, frame_cases, push-total, Progress,
  round-Progress,
}

pending_cases : (q : List Timed) → (q ≡ []) ⊎ ((top : Timed) × (q' : List Timed) × (q ≡ top ∷ q'))
pending_cases [] = inl refl
pending_cases (top ∷ q) = inr (top, q, refl)

-- Nothing is left of the coroutines, and all went on in time.
abbrev pub AllEnded : State → Type 0
AllEnded s = (s.pending ≡ []) × ((h : ℕ) → s.frames h ≡ none) × OnTime s.resumed

ended-AllEnded : (b : ℕ → ℕ) (s : State) → Inv b s → s.pending ≡ [] → AllEnded s
unfolding handles
ended-AllEnded b s inv e = (
  e,
  λ h. elim (frame_cases (s.frames h)) [
    | inl none_left ↦ none_left
    | inr (c, live) ↦
        absurd
          (omega (arith, inv.once h, ap (λ (l : List Timed). count h (handles l)) e, ap bit live))
  ],
  inv.on_time,
)

Ends : ℕ → State → Type 0
Ends fuel s = (s' : State) × (run fuel s ≡ ok s') × AllEnded s'

run-Ends : (b : ℕ → ℕ) (fuel : ℕ) (s : State) → Inv b s → measure b s < fuel → Ends fuel s
unfolding Ends run Progress
run-Ends b zero s inv m = absurd (omega arith)
run-Ends b (suc fuel) s inv m = elim (pending_cases s.pending) [
  | inl e ↦ (s, ap (λ (l : List Timed). rounds (run fuel) l s) e, ended-AllEnded b s inv e)
  | inr (top, q, e) ↦
      let (s1, b1, ran, inv1, fewer) = round-Progress b s inv top q e in
      let (s2, ran2, ended) = run-Ends b1 fuel s1 inv1 (omega (arith, fewer, m)) in
      (
        s2,
        ap (λ (l : List Timed). rounds (run fuel) l s) e
            ∙ ap (λ (r : Exec State). r >>= run fuel) ran
            ∙ ran2,
        ended,
      )
]

-- The resumptions of the coroutines below `n`, where they await at most `b` times.
abbrev pub resumptions : (ℕ → ℕ) → ℕ → ℕ
resumptions b zero = 0
resumptions b (suc n) = suc (b n) + resumptions b n

module _ (b : ℕ → ℕ) (codes : ℕ → Code) (a : (i : ℕ) → Awaits (b i) (codes i)) (c : Clock) where
  free_above : (n h : ℕ) → n ≤ h → (detach_all codes n c).frames h ≡ none
  unfolding detach_all
  free_above zero h l = refl
  free_above (suc n) h l =
      write_other (detach_all codes n c).frames n h (some (codes n))
        (λ (e : n ≡ h). omega (arith, e))
      ∙ free_above n h (omega arith)

  detach_all-once :
      (n h : ℕ)
      → count h (handles (detach_all codes n c).pending) ≡ bit ((detach_all codes n c).frames h)
  unfolding detach_all handles
  detach_all-once zero h = refl
  detach_all-once (suc n) h =
      push-total (λ x. if x == h then 1 else 0) _ (detach_all codes n c).pending
      ∙ ground (arith, detach_all-once n h, ap bit (free_above n n (omega arith)))

  detach_all-bounded : (n h : ℕ) → AwaitsFrame (b h) ((detach_all codes n c).frames h)
  unfolding detach_all
  detach_all-bounded zero h = tt
  detach_all-bounded (suc n) h = elim (ℕ_discrete n h) [
    | yes same ↦
        subst (AwaitsFrame (b h))
          (sym (write_self (detach_all codes n c).frames n h (some (codes n)) same))
          (subst (λ (k : ℕ). Awaits (b k) (codes n)) same (a n))
    | no other ↦
        subst (AwaitsFrame (b h))
          (sym (write_other (detach_all codes n c).frames n h (some (codes n)) other))
          (detach_all-bounded n h)
  ]

  detach_all-measure : (n : ℕ) → measure b (detach_all codes n c) ≡ resumptions b n
  unfolding detach_all measure handles
  detach_all-measure zero = refl
  detach_all-measure (suc n) =
      push-total (λ h. suc (b h)) _ (detach_all codes n c).pending
      ∙ ap (λ x. suc (b n) + x) (detach_all-measure n)

  detach_all-OnTime : (n : ℕ) → OnTime (detach_all codes n c).resumed
  unfolding detach_all
  detach_all-OnTime zero = tt
  detach_all-OnTime (suc n) = detach_all-OnTime n

-- For any number of coroutines at different addresses that await at most `b` times each, any clock
-- that does not go back, and fuel for all their resumptions: the run succeeds, so no frame is resumed
-- that is not there. At its end no coroutine is pending, every frame has been destroyed, and each
-- coroutine has gone on at the time at which it was due or later.
pub timed_run_lem :
    (b : ℕ → ℕ) (codes : ℕ → Code) (c : Clock) (n fuel : ℕ)
    → ((i : ℕ) → Awaits (b i) (codes i))
    → resumptions b n < fuel
    → (s : State) × (run fuel (detach_all codes n c) ≡ ok s) × AllEnded s
unfolding Ends
timed_run_lem b codes c n fuel a h =
    run-Ends b fuel (detach_all codes n c)
      (record {
        once = detach_all-once b codes a c n;
        bounded = detach_all-bounded b codes a c n;
        on_time = detach_all-OnTime b codes a c n;
      })
      (omega (arith, h, detach_all-measure b codes a c n))
