-- ===== src/Barrier/Day.antt =====
-- All workers get through the day, and no afternoon starts before all work of the morning is done.
mod Tests
use cpp20examples.Prelude.{
  ℕ, zero, suc, ◌+◌, ◌-◌, ◌≤◌, ◌<◌, ◌≡◌, ◌≢◌, refl, arith, ◌⊎◌, inl, inr, List, [], ◌∷◌, ap, ltb,
  ◌∙◌, if◌then◌else◌, ℕ_discrete,
}
use cpp20examples.Steps.{Reach, Reach-invariant, Reach-final}
use cpp20examples.Threads.{System, pick, total_pc, le-total_pc, total_pc-positive, total_pc_mono}
use cpp20examples.Barrier.{
  Memory, Pc, full_morning, full_arrive, full_wait, full_afternoon, full_arrive_again,
  full_wait_again, full_ended, part_morning, part_drop, part_ended, Act, print_morning, arrive,
  arrive_last, pass, print_afternoon, arrive_again, arrive_again_last, pass_again, print_part, drop,
  drop_last, init, MainStep,
}
use cpp20examples.Barrier.Phases.{
  early, second, last, late, parts, mornings, lines, actions, Token, length, AfterMorning, Phase,
}
use cpp20examples.Barrier.Invariant.{Inv, Step-Inv, Step-actions, parts_le}
use cpp20examples.Barrier.Moves.{Inv-Moves}

-- `k` times `a`
times : ℕ → ℕ → ℕ
times zero a = 0
times (suc k) a = a + times k a

module _ (full part : ℕ) where
  full-first : (i : ℕ) → i < full → (init full part).pc i ≡ full_morning
  full-first i l = ground arith

  part-first : (i : ℕ) → full ≤ i → (init full part).pc i ≡ part_morning
  part-first i l = ground arith

  total_full :
      (w : Pc → ℕ) (k : ℕ) → k ≤ full → total_pc w k (init full part).pc ≡ times k (w full_morning)
  unfolding times
  total_full w zero l = refl
  total_full w (suc k) l =
      omega (arith, ap w (full-first k (omega arith)), total_full w k (omega arith))

  -- The sum of a weight over the workers at their first places.
  total_first :
      (w : Pc → ℕ) (j m : ℕ)
      → m ≡ j + full
      → total_pc w m (init full part).pc ≡ times j (w part_morning) + times full (w full_morning)
  unfolding times
  total_first w zero m e =
      ap (λ (x : ℕ). total_pc w x (init full part).pc) (omega (arith, e))
      ∙ (total_full w full (omega arith) ∙ omega arith)
  total_first w (suc j) zero e = absurd (omega (arith, e))
  total_first w (suc j) (suc m) e =
      omega (arith, ap w (part-first m (omega (arith, e))), total_first w j m (omega (arith, e)))

times-zero : (k : ℕ) → times k 0 ≡ 0
unfolding times
times-zero zero = refl
times-zero (suc k) = omega (arith, times-zero k)

times-one : (k : ℕ) → times k 1 ≡ k
unfolding times
times-one zero = refl
times-one (suc k) = omega (arith, times-one k)

times-two : (k : ℕ) → times k 2 ≡ k + k
unfolding times
times-two zero = refl
times-two (suc k) = omega (arith, times-two k)

init-Inv :
    (full part : ℕ) → 0 < full + part → Inv full (full + part) (full + full + part) (init full part)
init-Inv full part some =
    let first_sum : (w : Pc → ℕ)
        → total_pc w (full + part) (init full part).pc
          ≡ times part (w part_morning) + times full (w full_morning) =
      λ w. total_first full part w part (full + part) (omega arith) in
    let early_sum : total_pc early (full + part) (init full part).pc ≡ full + part =
      omega (arith, first_sum early, times-one full, times-one part) in
    let parts_sum : total_pc parts (full + part) (init full part).pc ≡ part =
      omega (arith, first_sum parts, times-zero full, times-one part) in
    let last_sum : total_pc last (full + part) (init full part).pc ≡ 0 =
      omega (arith, first_sum last, times-zero full, times-zero part) in
    record {
      phase = inl (
        refl,
        omega (arith, early_sum, some),
        omega (arith, early_sum),
        omega (arith, first_sum late, times-zero full, times-zero part),
        last_sum,
        omega (arith, parts_sum),
      );
      token = λ i l. ground arith;
      sum = omega (
        arith,
        early_sum,
        parts_sum,
        last_sum,
        first_sum second,
        times-zero full,
        times-zero part,
      );
      said = omega (arith, first_sum mornings, times-one full, times-one part);
      printed = omega (arith, first_sum lines, times-two full, times-one part);
      order = tt;
    }

-- For any number of workers of both kinds, at least one of them, in every state that is reached: each line
-- of an afternoon was printed after the lines of the morning of all workers. From there a state is
-- reached in which all workers have printed all their lines, two of each full-time worker and one of
-- each part-time worker.
pub day_ends :
    (full part : ℕ) {s : System Memory Pc}
    → 0 < full + part
    → Reach (MainStep (full + part)) (init full part) s
    → AfterMorning (full + part) s.memory.output
      × ((t : System Memory Pc) × Reach (MainStep (full + part)) s t
          × (length t.memory.output ≡ full + full + part)
          × AfterMorning (full + part) t.memory.output)
day_ends full part {s} some r =
    let n : ℕ = full + part in
    let all : ℕ = full + full + part in
    let inv : Inv full n all s =
      Reach-invariant (MainStep n) (Inv full n all) (Step-Inv full n all) (init-Inv full part some)
        r in
    let (t, q, ended) =
      Reach-final (MainStep n) (Inv full n all) (λ u. total_pc actions n u.pc ≡ 0)
        (λ u. total_pc actions n u.pc) (Step-Inv full n all) (Step-actions full n all)
        (Inv-Moves full n all) (suc (total_pc actions n s.pc)) s inv (omega arith) in
    let final : Inv full n all t =
      Reach-invariant (MainStep n) (Inv full n all) (Step-Inv full n all) inv q in
    let none_left : total_pc lines n t.pc ≤ total_pc actions n t.pc =
      total_pc_mono lines actions n t.pc (λ i l. ground arith) in
    (inv.order, (t, q, omega (arith, ended, none_left, final.printed), final.order))
