-- ===== src/Barrier/Invariant.antt =====
-- The invariant of the barrier, its workers and their lines, and that some worker can always go on.
use cpp20examples.Prelude.{ℕ, ◌+◌, ◌≤◌, ◌<◌, ◌≡◌, refl, arith, sym, subst, ℕ_discrete}
use cpp20examples.Coroutine.{write}
use cpp20examples.Threads.{
  System, pick, total_pc, total_pc-write, le-total_pc, total_pc_mono, write_self, write_other,
}
use cpp20examples.Barrier.{
  Memory, Pc, Act, print_morning, arrive, arrive_last, pass, print_afternoon, arrive_again,
  arrive_again_last, pass_again, print_part, drop, drop_last, MainStep,
}
use cpp20examples.Barrier.Phases.{
  early, second, last, late, parts, mornings, lines, actions, Token, length, morning_lines,
  AfterMorning, Phase, Moved, Act-Phase, Act-lines,
}

-- `full` full-time workers among `n`, and `all` lines.
pub record Inv (full n all : ℕ) (s : System Memory Pc) : Type 0 where
  pub phase :
      Phase full s.memory
        (total_pc early n s.pc)
        (total_pc second n s.pc)
        (total_pc last n s.pc)
        (total_pc late n s.pc)
        (total_pc parts n s.pc)
  pub token : (i : ℕ) → i < n → Token (s.pc i)
  pub sum :
      total_pc early n s.pc + total_pc second n s.pc + total_pc last n s.pc
      ≡ full + total_pc parts n s.pc
  pub said : morning_lines s.memory.output + total_pc mornings n s.pc ≡ n
  pub printed : length s.memory.output + total_pc lines n s.pc ≡ all
  pub order : AfterMorning n s.memory.output

pub parts_le : (n : ℕ) (pc : ℕ → Pc) → total_pc parts n pc ≤ total_pc early n pc
parts_le n pc = total_pc_mono parts early n pc (λ i l. ground arith)

mornings_le : (n : ℕ) (pc : ℕ → Pc) → total_pc mornings n pc ≤ total_pc early n pc
mornings_le n pc = total_pc_mono mornings early n pc (λ i l. ground arith)

step-Moved :
    (w : Pc → ℕ) (n i : ℕ) (pc : ℕ → Pc) (p : Pc)
    → i < n
    → Moved w (pc i) p (total_pc w n pc) (total_pc w n (write pc i p))
step-Moved w n i pc p l = (total_pc-write w n i pc p l, le-total_pc w n i pc l)

-- An arrival moves a worker from one number to the next, a part-time worker out of two.
kinds :
    {m m' : Memory} {p p' : Pc}
    → Act m p m' p'
    → early p' + second p' + last p' + parts p ≡ early p + second p + last p + parts p'
kinds print_morning = refl
kinds (arrive x) = refl
kinds (arrive_last x) = refl
kinds (pass x) = refl
kinds print_afternoon = refl
kinds (arrive_again x) = refl
kinds (arrive_again_last x) = refl
kinds (pass_again x) = refl
kinds print_part = refl
kinds (drop x) = refl
kinds (drop_last x) = refl

module _ (full n all : ℕ) where
  pub Step-Inv : (s t : System Memory Pc) → Inv full n all s → MainStep n s t → Inv full n all t
  Step-Inv s t inv (pick i l {m = m'} {p = p'} act) =
      let (phase, token) =
        Act-Phase full _ _ _ _ _ _ _ _ _ _ act (inv.token i l) inv.phase inv.sum (parts_le n s.pc)
          (parts_le n (write s.pc i p')) (step-Moved early n i s.pc p' l)
          (step-Moved second n i s.pc p' l) (step-Moved last n i s.pc p' l)
          (step-Moved late n i s.pc p' l) (step-Moved parts n i s.pc p' l) in
      let (order, said, printed, less) =
        Act-lines full n _ _ _ _ _ act inv.phase (le-total_pc late n i s.pc l)
          (λ z. omega (arith, z, inv.said, mornings_le n s.pc)) inv.order in
      record {
        phase = phase;
        token = λ k l'. elim (ℕ_discrete i k) [
          | yes e ↦ subst Token (sym (write_self s.pc i k p' e)) token
          | no d ↦ subst Token (sym (write_other s.pc i k p' d)) (inv.token k l')
        ];
        sum = omega (
          arith,
          inv.sum,
          kinds act,
          total_pc-write early n i s.pc p' l,
          total_pc-write second n i s.pc p' l,
          total_pc-write last n i s.pc p' l,
          total_pc-write parts n i s.pc p' l,
        );
        said = omega (arith, said, inv.said, total_pc-write mornings n i s.pc p' l);
        printed = omega (arith, printed, inv.printed, total_pc-write lines n i s.pc p' l);
        order = order;
      }

  pub Step-actions :
      (s t : System Memory Pc)
      → Inv full n all s
      → MainStep n s t
      → total_pc actions n t.pc < total_pc actions n s.pc
  Step-actions s t inv (pick i l {p = p'} act) =
      let (order, said, printed, less) =
        Act-lines full n _ _ _ _ _ act inv.phase (le-total_pc late n i s.pc l)
          (λ z. omega (arith, z, inv.said, mornings_le n s.pc)) inv.order in
      omega (arith, less, total_pc-write actions n i s.pc p' l)
