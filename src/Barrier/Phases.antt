-- ===== src/Barrier/Phases.antt =====
-- What an action of a worker does to the phases of the barrier and to the lines.
use cpp20examples.Prelude.{ℕ, ◌+◌, ◌≤◌, ◌<◌, ◌≡◌, refl, arith, ◌⊎◌, List, [], ◌∷◌}
use cpp20examples.Barrier.{
  Line, morning_work_done, afternoon_work_done, Memory, Pc, full_morning, full_arrive, full_wait,
  full_afternoon, full_arrive_again, full_wait_again, full_ended, part_morning, part_drop,
  part_ended, Act, print_morning, arrive, arrive_last, pass, print_afternoon, arrive_again,
  arrive_again_last, pass_again, print_part, drop, drop_last,
}

-- 1 for a worker before the first arrival; between both arrivals; behind the second one; behind the first
-- phase; a part-time worker before the arrival; a worker before the morning's line.
abbrev pub early : Pc → ℕ
early full_morning = 1
early full_arrive = 1
early part_morning = 1
early part_drop = 1
early _ = 0

abbrev pub second : Pc → ℕ
second (full_wait token) = 1
second full_afternoon = 1
second full_arrive_again = 1
second _ = 0

abbrev pub last : Pc → ℕ
last (full_wait_again token) = 1
last full_ended = 1
last _ = 0

abbrev pub late : Pc → ℕ
late full_afternoon = 1
late full_arrive_again = 1
late (full_wait_again token) = 1
late full_ended = 1
late _ = 0

abbrev pub parts : Pc → ℕ
parts part_morning = 1
parts part_drop = 1
parts _ = 0

abbrev pub mornings : Pc → ℕ
mornings full_morning = 1
mornings part_morning = 1
mornings _ = 0

-- The lines that a worker has still to print.
abbrev pub lines : Pc → ℕ
lines full_morning = 2
lines full_arrive = 1
lines (full_wait token) = 1
lines full_afternoon = 1
lines part_morning = 1
lines _ = 0

-- The actions that a worker has still to make.
abbrev pub actions : Pc → ℕ
actions full_morning = 6
actions full_arrive = 5
actions (full_wait token) = 4
actions full_afternoon = 3
actions full_arrive_again = 2
actions (full_wait_again token) = 1
actions full_ended = 0
actions part_morning = 2
actions part_drop = 1
actions part_ended = 0

-- The token of a worker who waits is the phase of the arrival.
abbrev pub Token : Pc → Type 0
Token (full_wait token) = token ≡ 0
Token (full_wait_again token) = token ≡ 1
Token _ = Unit

abbrev pub length : List Line → ℕ
length [] = 0
length (l ∷ ls) = 1 + length ls

abbrev pub morning_lines : List Line → ℕ
morning_lines [] = 0
morning_lines (morning_work_done ∷ ls) = 1 + morning_lines ls
morning_lines (afternoon_work_done ∷ ls) = morning_lines ls

-- Each line of an afternoon stands above `n` lines of the morning.
abbrev pub AfterMorning : ℕ → List Line → Type 0
AfterMorning n [] = Unit
AfterMorning n (morning_work_done ∷ ls) = AfterMorning n ls
AfterMorning n (afternoon_work_done ∷ ls) = (morning_lines ls ≡ n) × AfterMorning n ls

-- How the barrier and the numbers of workers at the places go together, for `full` full-time workers.
abbrev pub Phase : (full : ℕ) → Memory → (e s l t p : ℕ) → Type 0
Phase full m e s l t p =
    ((m.phase ≡ 0) × (0 < e) × (m.pending ≡ e) × (t ≡ 0) × (l ≡ 0) × (m.expected ≡ full + p))
    ⊎ (((m.phase ≡ 1) × (e ≡ 0) × (m.pending ≡ s) × (m.expected ≡ full) × ((full ≡ 0) ⊎ (0 < s)))
        ⊎ ((m.phase ≡ 2) × (e ≡ 0) × (s ≡ 0)))

-- The new numbers at the places, given the old ones and the places of the thread that acts.
abbrev pub Moved : (w : Pc → ℕ) (p p' : Pc) (x x' : ℕ) → Type 0
Moved w p p' x x' = (x' + w p ≡ x + w p') × (w p ≤ x)

pub Act-Phase :
    (full : ℕ) {m m' : Memory} {q q' : Pc} (e s l t p e' s' l' t' p' : ℕ)
    → Act m q m' q'
    → Token q
    → Phase full m e s l t p
    → e + s + l ≡ full + p
    → p ≤ e
    → p' ≤ e'
    → Moved early q q' e e'
    → Moved second q q' s s'
    → Moved last q q' l l'
    → Moved late q q' t t'
    → Moved parts q q' p p'
    → Phase full m' e' s' l' t' p' × Token q'
Act-Phase full e s l t p e' s' l' t' p' print_morning k h sum le le' a b c d f = ground arith
Act-Phase full e s l t p e' s' l' t' p' (arrive x) k h sum le le' a b c d f = ground arith
Act-Phase full e s l t p e' s' l' t' p' (arrive_last x) k h sum le le' a b c d f = ground arith
Act-Phase full e s l t p e' s' l' t' p' (pass x) k h sum le le' a b c d f = ground arith
Act-Phase full e s l t p e' s' l' t' p' print_afternoon k h sum le le' a b c d f = ground arith
Act-Phase full e s l t p e' s' l' t' p' (arrive_again x) k h sum le le' a b c d f = ground arith
Act-Phase full e s l t p e' s' l' t' p' (arrive_again_last x) k h sum le le' a b c d f =
    ground arith
Act-Phase full e s l t p e' s' l' t' p' (pass_again x) k h sum le le' a b c d f = ground arith
Act-Phase full e s l t p e' s' l' t' p' print_part k h sum le le' a b c d f = ground arith
Act-Phase full e s l t p e' s' l' t' p' (drop x) k h sum le le' a b c d f = ground arith
Act-Phase full e s l t p e' s' l' t' p' (drop_last x) k h sum le le' a b c d f = ground arith

-- In the second part of the day nobody is before the first arrival.
Phase-late : (full : ℕ) (m : Memory) (e s l t p : ℕ) → Phase full m e s l t p → 0 < t → e ≡ 0
Phase-late full m e s l t p k h = ground arith

-- The lines that are printed, and the actions that are left.
pub Act-lines :
    (full n : ℕ) {m m' : Memory} {q q' : Pc} (e s l t p : ℕ)
    → Act m q m' q'
    → Phase full m e s l t p
    → late q ≤ t
    → (e ≡ 0 → morning_lines m.output ≡ n)
    → AfterMorning n m.output
    → AfterMorning n m'.output
      × (morning_lines m'.output + mornings q' ≡ morning_lines m.output + mornings q)
      × (length m'.output + lines q' ≡ length m.output + lines q)
      × (actions q' < actions q)
Act-lines full n e s l t p print_morning k h all a = (a, omega arith, omega arith, omega arith)
Act-lines full n e s l t p (arrive x) k h all a = (a, refl, refl, omega arith)
Act-lines full n e s l t p (arrive_last x) k h all a = (a, refl, refl, omega arith)
Act-lines full n e s l t p (pass x) k h all a = (a, refl, refl, omega arith)
Act-lines full n {m = m} e s l t p print_afternoon k h all a =
    ((all (Phase-late full m e s l t p k (omega (arith, h))), a), refl, omega arith, omega arith)
Act-lines full n e s l t p (arrive_again x) k h all a = (a, refl, refl, omega arith)
Act-lines full n e s l t p (arrive_again_last x) k h all a = (a, refl, refl, omega arith)
Act-lines full n e s l t p (pass_again x) k h all a = (a, refl, refl, omega arith)
Act-lines full n e s l t p print_part k h all a = (a, omega arith, omega arith, omega arith)
Act-lines full n e s l t p (drop x) k h all a = (a, refl, refl, omega arith)
Act-lines full n e s l t p (drop_last x) k h all a = (a, refl, refl, omega arith)
