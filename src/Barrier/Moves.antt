-- ===== src/Barrier/Moves.antt =====
-- Some worker can always go on until all have ended.
use cpp20examples.Prelude.{ℕ, ◌+◌, ◌<◌, ◌≡◌, arith, ◌⊎◌, inl, inr, ℕ_discrete}
use cpp20examples.Threads.{System, pick, total_pc, le-total_pc, total_pc-positive}
use cpp20examples.Barrier.{
  Memory, Pc, full_morning, full_arrive, full_wait, full_afternoon, full_arrive_again,
  full_wait_again, full_ended, part_morning, part_drop, part_ended, Act, print_morning, arrive,
  arrive_last, pass, print_afternoon, arrive_again, arrive_again_last, pass_again, print_part, drop,
  drop_last, MainStep,
}
use cpp20examples.Barrier.Phases.{early, second, last, actions, Token}
use cpp20examples.Barrier.Invariant.{Inv, parts_le}

Moves : Memory → Pc → Type 0
Moves m p = (m' : Memory) × (p' : Pc) × Act m p m' p'

one_or_more : (x : ℕ) → 0 < x → (x ≡ 1) ⊎ (1 < x)
one_or_more x h = elim (ℕ_discrete x 1) [ yes e ↦ inl e | no d ↦ inr (omega (arith, d, h)) ]

-- A worker before the first arrival goes on, as does one between both arrivals in the second phase, and
-- any one behind the second phase.
early-Moves : (m : Memory) (p : Pc) → 0 < m.pending → 0 < early p → Moves m p
unfolding Moves
early-Moves m full_morning h k = (_, _, print_morning)
early-Moves m full_arrive h k = elim (one_or_more m.pending h) [
  | inl e ↦ (_, _, arrive_last e)
  | inr l ↦ (_, _, arrive l)
]
early-Moves m part_morning h k = (_, _, print_part)
early-Moves m part_drop h k = elim (one_or_more m.pending h) [
  | inl e ↦ (_, _, drop_last e)
  | inr l ↦ (_, _, drop l)
]
early-Moves m (full_wait token) h k = absurd (omega (arith, k))
early-Moves m full_afternoon h k = absurd (omega (arith, k))
early-Moves m full_arrive_again h k = absurd (omega (arith, k))
early-Moves m (full_wait_again token) h k = absurd (omega (arith, k))
early-Moves m full_ended h k = absurd (omega (arith, k))
early-Moves m part_ended h k = absurd (omega (arith, k))

second-Moves :
    (m : Memory) (p : Pc) → 0 < m.pending → m.phase ≡ 1 → Token p → 0 < second p → Moves m p
unfolding Moves
second-Moves m (full_wait token) h e t k = (_, _, pass (λ x. omega (arith, x, e, t)))
second-Moves m full_afternoon h e t k = (_, _, print_afternoon)
second-Moves m full_arrive_again h e t k = elim (one_or_more m.pending h) [
  | inl e' ↦ (_, _, arrive_again_last e')
  | inr l ↦ (_, _, arrive_again l)
]
second-Moves m full_morning h e t k = absurd (omega (arith, k))
second-Moves m full_arrive h e t k = absurd (omega (arith, k))
second-Moves m (full_wait_again token) h e t k = absurd (omega (arith, k))
second-Moves m full_ended h e t k = absurd (omega (arith, k))
second-Moves m part_morning h e t k = absurd (omega (arith, k))
second-Moves m part_drop h e t k = absurd (omega (arith, k))
second-Moves m part_ended h e t k = absurd (omega (arith, k))

last-Moves :
    (m : Memory) (p : Pc)
    → m.phase ≡ 2
    → Token p
    → early p + second p ≡ 0
    → 0 < actions p
    → Moves m p
unfolding Moves
last-Moves m (full_wait_again token) e t z k = (_, _, pass_again (λ x. omega (arith, x, e, t)))
last-Moves m full_morning e t z k = absurd (omega (arith, z))
last-Moves m full_arrive e t z k = absurd (omega (arith, z))
last-Moves m (full_wait token) e t z k = absurd (omega (arith, z))
last-Moves m full_afternoon e t z k = absurd (omega (arith, z))
last-Moves m full_arrive_again e t z k = absurd (omega (arith, z))
last-Moves m full_ended e t z k = absurd (omega (arith, k))
last-Moves m part_morning e t z k = absurd (omega (arith, z))
last-Moves m part_drop e t z k = absurd (omega (arith, z))
last-Moves m part_ended e t z k = absurd (omega (arith, k))

counted : (p : Pc) → 0 < actions p → 0 < early p + second p + last p
counted p h = ground arith

module _ (full n all : ℕ) where
  pub Inv-Moves :
      (s : System Memory Pc)
      → Inv full n all s
      → (total_pc actions n s.pc ≡ 0) ⊎ ((t : System Memory Pc) × MainStep n s t)
  unfolding Moves
  Inv-Moves s inv = elim inv.phase [
    | inl (e, some_early, pending, x, y, z) ↦
        let (i, l, h) = total_pc-positive early n s.pc some_early in
        let (m', p', act) = early-Moves s.memory (s.pc i) (omega (arith, pending, some_early)) h in
        inr (_, pick i l act)
    | inr (inl (e, none_early, pending, x, some_second)) ↦
        elim (ℕ_discrete (total_pc second n s.pc) 0) [
          | no d ↦
              let (i, l, h) = total_pc-positive second n s.pc (omega (arith, d)) in
              let (m', p', act) =
                second-Moves s.memory (s.pc i) (omega (arith, pending, d)) e (inv.token i l) h in
              inr (_, pick i l act)
          | yes z ↦ elim (ℕ_discrete (total_pc actions n s.pc) 0) [
            | yes done ↦ inl done
            | no d ↦
                let (i, l, h) = total_pc-positive actions n s.pc (omega (arith, d)) in
                absurd (
                  ground (
                    arith,
                    z,
                    none_early,
                    some_second,
                    inv.sum,
                    parts_le n s.pc,
                    counted (s.pc i) h,
                    le-total_pc early n i s.pc l,
                    le-total_pc second n i s.pc l,
                    le-total_pc last n i s.pc l,
                  ))
          ]
        ]
    | inr (inr (e, none_early, none_second)) ↦ elim (ℕ_discrete (total_pc actions n s.pc) 0) [
      | yes done ↦ inl done
      | no d ↦
          let (i, l, h) = total_pc-positive actions n s.pc (omega (arith, d)) in
          let (m', p', act) =
            last-Moves s.memory (s.pc i) e (inv.token i l)
              (omega (
                arith,
                none_early,
                none_second,
                le-total_pc early n i s.pc l,
                le-total_pc second n i s.pc l,
              ))
              h in
          inr (_, pick i l act)
    ]
  ]
