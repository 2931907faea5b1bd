-- ===== src/Scheduler/Timed/Round.antt =====
-- A round of the scheduler: the coroutine goes on when it is due or later, and less is left to do.
use cpp20examples.Prelude.{
  ℕ, zero, suc, ◌+◌, ◌≤◌, ◌<◌, ◌≡◌, ◌≢◌, refl, ap, arith, ltb, ◌==◌, false, Bool-cases,
  if◌then◌else◌, List, [], ◌∷◌, Option, none, some, map, total, count, inl, inr, ℕ_discrete, ◌⊎◌,
  sym, ◌∙◌, total-congr, subst,
}
use cpp20examples.Prelude.Exec.{ok}
use cpp20examples.Coroutine.{write}
use cpp20examples.Threads.{write_self, write_other}
use cpp20examples.Scheduler.Timed.{
  Clock, now, Code, read_now, puts_now, co_await, co_return, Timed, before, State, push, resume,
  wait_for, round,
}

-- It awaits no more than so many times.
abbrev pub Awaits : ℕ → Code → Type 0
Awaits n (read_now k) = (t : ℕ) → Awaits n (k t)
Awaits n (puts_now c) = Awaits n c
Awaits zero (co_await t c) = ⊥
Awaits (suc n) (co_await t c) = Awaits n c
Awaits n co_return = Unit {0}

unfoldable pub handles : List Timed → List ℕ
handles = map (λ (a : Timed). a.handle)

pub push-total :
    (w : ℕ → ℕ) (a : Timed) (q : List Timed)
    → total w (handles (push a q)) ≡ w a.handle + total w (handles q)
unfolding push handles
push-total w a [] = refl
push-total w a (b ∷ q) = elim (Bool-cases (before a b)) [
  | inl e ↦ simp e refl
  | inr e ↦ simp e (omega (arith, push-total w a q))
]

abbrev pub bit : Option Code → ℕ
bit none = 0
bit (some c) = 1

abbrev pub AwaitsFrame : ℕ → Option Code → Type 0
AwaitsFrame n none = Unit {0}
AwaitsFrame n (some c) = Awaits n c

-- The times of the resumptions are not before those that were due.
abbrev pub OnTime : List (ℕ × ℕ) → Type 0
OnTime [] = Unit {0}
OnTime ((due, at) ∷ rest) = (due ≤ at) × OnTime rest

-- Each frame stands once in the queue, and awaits at most `b` times.
pub record Inv (b : ℕ → ℕ) (s : State) : Type 0 where
  pub once : (h : ℕ) → count h (handles s.pending) ≡ bit (s.frames h)
  pub bounded : (h : ℕ) → AwaitsFrame (b h) (s.frames h)
  pub on_time : OnTime s.resumed

pub Inv-of :
    (b : ℕ → ℕ) (s : State) (p : List Timed) (f : ℕ → Option Code)
    → s.pending ≡ p
    → s.frames ≡ f
    → ((h : ℕ) → count h (handles p) ≡ bit (f h))
    → ((h : ℕ) → AwaitsFrame (b h) (f h))
    → OnTime s.resumed
    → Inv b s
Inv-of b s p f e e' o a t = record {
  once = λ h.
      ap (λ (l : List Timed). count h (handles l)) e
      ∙ o h
      ∙ ap (λ (g : ℕ → Option Code). bit (g h)) (sym e');
  bounded = λ h. subst (λ (g : ℕ → Option Code). AwaitsFrame (b h) (g h)) (sym e') (a h);
  on_time = t;
}

-- The resumptions that are left at most.
abbrev pub work : (ℕ → ℕ) → List Timed → ℕ
work b q = total (λ h. suc (b h)) (handles q)

unfoldable pub measure : (ℕ → ℕ) → State → ℕ
measure b s = work b s.pending

not_ltb : (m n : ℕ) → ltb m n ≡ false → n ≤ m
not_ltb m n e = ground arith

wait_for-late : (t : ℕ) (c : Clock) → t ≤ (wait_for t c).reading
wait_for-late t c = elim (Bool-cases (ltb (now c).reading t)) [
  | inl e ↦ simp e (omega arith)
  | inr e ↦ simp e (not_ltb (now c).reading t e)
]

-- How a coroutine that awaits at most `n` times has been resumed.
pub frame_cases : (f : Option Code) → (f ≡ none) ⊎ ((c : Code) × (f ≡ some c))
frame_cases none = inl refl
frame_cases (some c) = inr (c, refl)

Ended : ℕ → State → State → Type 0
Ended h s s' = (s'.pending ≡ s.pending) × (s'.frames ≡ write s.frames h none)

Awaiting : ℕ → ℕ → State → State → Type 0
Awaiting h n s s' =
    (t : ℕ) × (c' : Code) × (m : ℕ) × (n ≡ suc m)
    × Awaits m c'
    × (s'.pending ≡ push (record { time = t; handle = h }) s.pending)
    × (s'.frames ≡ write s.frames h (some c'))

Resumed : ℕ → ℕ → State → State → Type 0
Resumed h n s s' = (s'.resumed ≡ s.resumed) × (Ended h s s' ⊎ Awaiting h n s s')

resume-Resumed : (h n : ℕ) (c : Code) (s : State) → Awaits n c → Resumed h n s (resume h c s)
unfolding resume Resumed Ended Awaiting
resume-Resumed h n (read_now k) s a =
    resume-Resumed h n (k (now s.clock).reading) _ (a (now s.clock).reading)
resume-Resumed h n (puts_now c) s a = resume-Resumed h n c _ a
resume-Resumed h zero (co_await t c) s a = absurd a
resume-Resumed h (suc m) (co_await t c) s a = (refl, inr (t, c, m, refl, a, refl, refl))
resume-Resumed h n co_return s a = (refl, inl (refl, refl))

module _ (b : ℕ → ℕ) (s : State) (inv : Inv b s) (top : Timed) (q : List Timed)
    (e : s.pending ≡ top ∷ q) where
  in_queue : (k : ℕ) → (if top.handle == k then 1 else 0) + count k (handles q) ≡ bit (s.frames k)
  unfolding handles
  in_queue k = sym (ap (λ (l : List Timed). count k (handles l)) e) ∙ inv.once k

  top_live : (c : Code) × (s.frames top.handle ≡ some c)
  top_live = elim (frame_cases (s.frames top.handle)) [
    | inl none_left ↦ absurd (ground (arith, in_queue top.handle, none_left))
    | inr live ↦ live
  ]

  not_again : count top.handle (handles q) ≡ 0
  not_again = ground (arith, in_queue top.handle, top_live.1)

  -- The queue without the one on top has less to do.
  less :
      (b' : ℕ → ℕ)
      → ((k : ℕ) → k ≢ top.handle → b' k ≡ b k)
      → total (λ k. suc (b' k)) (handles q) + suc (b top.handle) ≡ measure b s
  unfolding handles measure
  less b' h = omega (
    arith,
    ap (λ (l : List Timed). total (λ x. suc (b x)) (handles l)) e,
    total-congr (λ k. suc (b' k)) (λ k. suc (b k)) (handles q)
        (λ k p.
          ap suc
            (h k (λ same. p (subst (λ (x : ℕ). count x (handles q) ≡ 0) (sym same) not_again)))),
  )

  once_ended : (k : ℕ) → count k (handles q) ≡ bit (write s.frames top.handle none k)
  once_ended k = ground (arith, in_queue k, top_live.1, not_again)

  once_awaiting :
      (t : ℕ) (c' : Code) (k : ℕ)
      → count k (handles (push (record { time = t; handle = top.handle }) q))
        ≡ bit (write s.frames top.handle (some c') k)
  once_awaiting t c' k =
      push-total (λ x. if x == k then 1 else 0) (record { time = t; handle = top.handle }) q
      ∙ ground (arith, in_queue k, top_live.1, not_again)

  bounded_ended : (k : ℕ) → AwaitsFrame (b k) (write s.frames top.handle none k)
  bounded_ended k = elim (ℕ_discrete top.handle k) [
    | yes same ↦ subst (AwaitsFrame (b k)) (sym (write_self s.frames top.handle k none same)) tt
    | no other ↦
        subst (AwaitsFrame (b k)) (sym (write_other s.frames top.handle k none other))
          (inv.bounded k)
  ]

  bounded_awaiting :
      (m : ℕ) (c' : Code)
      → Awaits m c'
      → (k : ℕ) → AwaitsFrame (write b top.handle m k) (write s.frames top.handle (some c') k)
  bounded_awaiting m c' a k = elim (ℕ_discrete top.handle k) [
    | yes same ↦
        rw (write_self s.frames top.handle k (some c') same, write_self b top.handle k m same) a
    | no other ↦
        rw (write_other s.frames top.handle k (some c') other, write_other b top.handle k m other)
          (inv.bounded k)
  ]

  top-Awaits : Awaits (b top.handle) top_live.0
  top-Awaits = subst (AwaitsFrame (b top.handle)) top_live.1 (inv.bounded top.handle)

  unfoldable pub Progress : Type 0
  Progress =
      (s' : State) × (b' : ℕ → ℕ) × (round top q (s.frames top.handle) s ≡ ok s')
      × Inv b' s'
      × (measure b' s' < measure b s)

  pub round-Progress : Progress
  unfolding Progress Resumed Ended Awaiting measure
  round-Progress =
      let clock' : Clock = wait_for top.time s.clock in
      let s0 : State = record s {
        pending = q;
        clock = clock';
        resumed = (top.time, clock'.reading) ∷ s.resumed;
      } in
      let s' : State = resume top.handle top_live.0 s0 in
      let ran : round top q (s.frames top.handle) s ≡ ok s' = rw top_live.1 refl in
      let (same_resumed, ends) =
        resume-Resumed top.handle (b top.handle) top_live.0 s0 top-Awaits in
      let on_time' : OnTime s'.resumed =
        subst OnTime (sym same_resumed) (wait_for-late top.time s.clock, inv.on_time) in
      elim ends [
        | inl (p, f) ↦ (
          s',
          b,
          ran,
          Inv-of b s' q _ p f once_ended bounded_ended on_time',
          omega (arith, ap (work b) p, less b (λ k d. refl)),
        )
        | inr (t, c', m, n, a, p, f) ↦ (
          s',
          write b top.handle m,
          ran,
          Inv-of (write b top.handle m) s' _ _ p f (once_awaiting t c') (bounded_awaiting m c' a)
              on_time',
          omega (
            arith,
            n,
            ap (work (write b top.handle m)) p,
            push-total (λ k. suc (write b top.handle m k))
                (record { time = t; handle = top.handle }) q,
            ap suc (write_self b top.handle top.handle m refl),
            less (write b top.handle m)
                (λ k d. write_other b top.handle k m (λ (same : top.handle ≡ k). d (sym same))),
          ),
        )
      ]
