-- ===== src/Latches/Order.antt =====
-- Nobody leaves before all work is done, and everybody leaves.
use cpp20examples.Prelude.{
  ℕ, suc, ◌+◌, ◌≤◌, ◌<◌, ◌≡◌, arith, ◌⊎◌, inl, inr, List, [], ◌∷◌, sym, subst, ℕ_discrete,
}
use cpp20examples.Threads.{
  System, pick, total_pc, total_pc-write, le-total_pc, total_pc-positive, write_self, write_other,
}
use cpp20examples.Latches.{
  Action, print, count_down, wait_work, count_home, wait_home, Memory, Act, out, arrive, pass_work,
  send_home, pass_home, WorkStep,
}
use cpp20examples.Steps.{Reach, Reach-invariant, Reach-final}
use cpp20examples.Threads.{total_pc_mono}
use cpp20examples.Latches.Code.{
  reported, AfterWork, to_report, to_arrive, to_send, to_print, length, steps, Proper, Proper-lower,
  to_report_le, Good, Act-effects, Act-prints,
}

-- `n` reports and `lines` lines, by `k` threads.
pub record Inv (homes n lines k : ℕ) (s : System Memory (List Action)) : Type 0 where
  pub good : Good homes n s.memory
  pub proper : (i : ℕ) → i < k → Proper homes s.memory.work (s.pc i)
  pub works : s.memory.work ≡ total_pc to_arrive k s.pc
  pub home : s.memory.home ≡ total_pc to_send k s.pc
  pub reported_ : reported s.memory.output + total_pc to_report k s.pc ≡ n
  pub printed : length s.memory.output + total_pc to_print k s.pc ≡ lines

module _ (homes n lines k : ℕ) where
  -- Where `workDone` is at 0, all work has been reported.
  all_reported :
      (s : System Memory (List Action))
      → Inv homes n lines k s
      → s.memory.work ≡ 0
      → reported s.memory.output ≡ n
  all_reported s inv z = omega (
    arith,
    z,
    inv.works,
    inv.reported_,
    total_pc_mono to_report to_arrive k s.pc
        (λ i l. to_report_le homes s.memory.work (s.pc i) (inv.proper i l)),
  )

  Step-Inv :
      (s t : System Memory (List Action))
      → Inv homes n lines k s
      → WorkStep k s t
      → Inv homes n lines k t
  Step-Inv s t inv (pick i l {m = m'} {p = c'} act) =
      let (works, home, reports', lower, proper, good) =
        Act-effects homes n act inv.good (inv.proper i l)
          (omega (arith, inv.works, le-total_pc to_arrive k i s.pc l))
          (omega (arith, inv.home, le-total_pc to_send k i s.pc l)) (all_reported s inv) in
      let (printed, less) = Act-prints act in
      record {
        good = good;
        proper = λ j l'. elim (ℕ_discrete i j) [
          | yes e ↦ subst (Proper homes m'.work) (sym (write_self s.pc i j c' e)) proper
          | no d ↦
              subst (Proper homes m'.work) (sym (write_other s.pc i j c' d))
                (Proper-lower homes (s.pc j) lower (inv.proper j l'))
        ];
        works = omega (arith, works, inv.works, total_pc-write to_arrive k i s.pc c' l);
        home = omega (arith, home, inv.home, total_pc-write to_send k i s.pc c' l);
        reported_ = omega (arith, reports', inv.reported_, total_pc-write to_report k i s.pc c' l);
        printed = omega (arith, printed, inv.printed, total_pc-write to_print k i s.pc c' l);
      }

  Step-steps :
      (s t : System Memory (List Action))
      → WorkStep k s t
      → total_pc steps k t.pc < total_pc steps k s.pc
  Step-steps s t (pick i l {p = c'} act) =
      omega (arith, (Act-prints act).1, total_pc-write steps k i s.pc c' l)

  Moves : Memory → List Action → Type 0
  Moves m c = (m' : Memory) × (c' : List Action) × Act m c m' c'

  arrives-Moves :
      (m : Memory) (c : List Action) → Proper homes m.work c → 0 < to_arrive c → Moves m c
  unfolding Moves
  arrives-Moves m [] p h = absurd (omega (arith, h))
  arrives-Moves m (print l ∷ r) p h = (_, _, out)
  arrives-Moves m (count_down ∷ r) p h = (_, _, arrive)
  arrives-Moves m (wait_work ∷ r) (a, b, p) h = absurd (omega (arith, a, h))
  arrives-Moves m (wait_home ∷ r) (a, b, c, pos, p) h = absurd (omega (arith, a, h))
  arrives-Moves m (count_home ∷ r) p h = (_, _, send_home)

  sends-Moves :
      (m : Memory) (c : List Action)
      → m.work ≡ 0
      → Proper homes m.work c
      → 0 < to_send c
      → Moves m c
  unfolding Moves
  sends-Moves m [] z p h = absurd (omega (arith, h))
  sends-Moves m (print l ∷ r) z p h = (_, _, out)
  sends-Moves m (count_down ∷ r) z p h = (_, _, arrive)
  sends-Moves m (wait_work ∷ r) z p h = (_, _, pass_work z)
  sends-Moves m (wait_home ∷ r) z (a, b, c, pos, p) h = absurd (omega (arith, c, h))
  sends-Moves m (count_home ∷ r) z p h = (_, _, send_home)

  any-Moves : (m : Memory) (c : List Action) → m.work ≡ 0 → m.home ≡ 0 → 0 < steps c → Moves m c
  unfolding Moves
  any-Moves m [] z z' h = absurd (omega (arith, h))
  any-Moves m (print l ∷ r) z z' h = (_, _, out)
  any-Moves m (count_down ∷ r) z z' h = (_, _, arrive)
  any-Moves m (wait_work ∷ r) z z' h = (_, _, pass_work z)
  any-Moves m (wait_home ∷ r) z z' h = (_, _, pass_home z')
  any-Moves m (count_home ∷ r) z z' h = (_, _, send_home)

  Inv-Moves :
      (s : System Memory (List Action))
      → Inv homes n lines k s
      → (total_pc steps k s.pc ≡ 0) ⊎ ((t : System Memory (List Action)) × WorkStep k s t)
  unfolding Moves
  Inv-Moves s inv = elim (ℕ_discrete s.memory.work 0) [
    | no d ↦
        let (i, l, h) = total_pc-positive to_arrive k s.pc (omega (arith, d, inv.works)) in
        let (m', c', act) = arrives-Moves s.memory (s.pc i) (inv.proper i l) h in
        inr (_, pick i l act)
    | yes z ↦ elim (ℕ_discrete s.memory.home 0) [
      | no d ↦
          let (i, l, h) = total_pc-positive to_send k s.pc (omega (arith, d, inv.home)) in
          let (m', c', act) = sends-Moves s.memory (s.pc i) z (inv.proper i l) h in
          inr (_, pick i l act)
      | yes z' ↦ elim (ℕ_discrete (total_pc steps k s.pc) 0) [
        | yes e ↦ inl e
        | no d ↦
            let (i, l, h) = total_pc-positive steps k s.pc (omega (arith, d)) in
            let (m', c', act) = any-Moves s.memory (s.pc i) z z' h in inr (_, pick i l act)
      ]
    ]
  ]

to_print_le : (c : List Action) → to_print c ≤ steps c
to_print_le [] = omega arith
to_print_le (print l ∷ r) = omega (arith, to_print_le r)
to_print_le (count_down ∷ r) = omega (arith, to_print_le r)
to_print_le (wait_work ∷ r) = omega (arith, to_print_le r)
to_print_le (wait_home ∷ r) = omega (arith, to_print_le r)
to_print_le (count_home ∷ r) = omega (arith, to_print_le r)

-- What a state shows: the order of its lines, and a state from there with all lines.
abbrev pub Leaves : (n lines k : ℕ) → System Memory (List Action) → Type 0
Leaves n lines k s =
    AfterWork n s.memory.output
    × ((t : System Memory (List Action)) × Reach (WorkStep k) s t
        × (length t.memory.output ≡ lines)
        × AfterWork n t.memory.output)

pub Inv-Leaves :
    (homes n lines k : ℕ) {u s : System Memory (List Action)}
    → Inv homes n lines k u
    → Reach (WorkStep k) u s
    → Leaves n lines k s
Inv-Leaves homes n lines k {s = s} first r =
    let inv : Inv homes n lines k s =
      Reach-invariant (WorkStep k) (Inv homes n lines k) (Step-Inv homes n lines k) first r in
    let (t, q, ended) =
      Reach-final (WorkStep k) (Inv homes n lines k) (λ u. total_pc steps k u.pc ≡ 0)
        (λ u. total_pc steps k u.pc) (Step-Inv homes n lines k)
        (λ u w i st. Step-steps homes n lines k u w st) (Inv-Moves homes n lines k)
        (suc (total_pc steps k s.pc)) s inv (omega arith) in
    let final : Inv homes n lines k t =
      Reach-invariant (WorkStep k) (Inv homes n lines k) (Step-Inv homes n lines k) inv q in
    let none_left : total_pc to_print k t.pc ≤ total_pc steps k t.pc =
      total_pc_mono to_print steps k t.pc (λ i l. to_print_le (t.pc i)) in
    (inv.good.lines, (t, q, omega (arith, ended, none_left, final.printed), final.good.lines))
