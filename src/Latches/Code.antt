-- ===== src/Latches/Code.antt =====
-- What an action of a thread does to the latches and to the lines printed.
use cpp20examples.Prelude.{ℕ, ◌+◌, ◌≤◌, ◌<◌, ◌≡◌, refl, arith, List, [], ◌∷◌}
use cpp20examples.Latches.{
  Line, work_done, good_bye, see_you_tomorrow, go_home, Action, print, count_down, wait_work,
  count_home, wait_home, Memory, Act, out, arrive, pass_work, send_home, pass_home,
}

-- 1 for a line that says that work is done.
abbrev pub reports : Line → ℕ
reports (work_done i) = 1
reports _ = 0

-- How many of the lines say so.
abbrev pub reported : List Line → ℕ
reported [] = 0
reported (l ∷ ls) = reports l + reported ls

-- All other lines stand above `n` lines that say so.
abbrev pub AfterWork : ℕ → List Line → Type 0
AfterWork n [] = Unit
AfterWork n (work_done i ∷ ls) = AfterWork n ls
AfterWork n (good_bye i ∷ ls) = (reported ls ≡ n) × AfterWork n ls
AfterWork n (see_you_tomorrow i ∷ ls) = (reported ls ≡ n) × AfterWork n ls
AfterWork n (go_home ∷ ls) = (reported ls ≡ n) × AfterWork n ls

-- What a thread has still to do: reports, arrivals at the latches, lines.
abbrev pub to_report : List Action → ℕ
to_report [] = 0
to_report (print l ∷ r) = reports l + to_report r
to_report (_ ∷ r) = to_report r

abbrev pub to_arrive : List Action → ℕ
to_arrive [] = 0
to_arrive (count_down ∷ r) = 1 + to_arrive r
to_arrive (_ ∷ r) = to_arrive r

abbrev pub to_send : List Action → ℕ
to_send [] = 0
to_send (count_home ∷ r) = 1 + to_send r
to_send (_ ∷ r) = to_send r

abbrev pub to_print : List Action → ℕ
to_print [] = 0
to_print (print l ∷ r) = 1 + to_print r
to_print (_ ∷ r) = to_print r

abbrev pub length : List Line → ℕ
length [] = 0
length (l ∷ ls) = 1 + length ls

abbrev pub steps : List Action → ℕ
steps [] = 0
steps (a ∷ r) = 1 + steps r

-- The shape of the code of a thread at each place, where `workDone` counts `work`: reports come before the
-- arrival; other lines and the arrival at `goHome` come where the counter is 0; a thread that waits at
-- `goHome` does not count it down, and it counted from `homes` on, which is not 0.
abbrev pub Proper : (homes work : ℕ) → List Action → Type 0
Proper homes work [] = 0 ≤ 0
Proper homes work (print (work_done i) ∷ r) =
    (1 ≤ to_arrive r) × (to_report r ≡ 0) × Proper homes work r
Proper homes work (print (good_bye i) ∷ r) =
    (work ≡ 0) × (to_arrive r ≡ 0) × (to_report r ≡ 0) × Proper homes work r
Proper homes work (print (see_you_tomorrow i) ∷ r) =
    (work ≡ 0) × (to_arrive r ≡ 0) × (to_report r ≡ 0) × Proper homes work r
Proper homes work (print go_home ∷ r) =
    (work ≡ 0) × (to_arrive r ≡ 0) × (to_report r ≡ 0) × Proper homes work r
Proper homes work (count_down ∷ r) = (to_arrive r ≡ 0) × (to_report r ≡ 0) × Proper homes work r
Proper homes work (wait_work ∷ r) = (to_arrive r ≡ 0) × (to_report r ≡ 0) × Proper homes 0 r
Proper homes work (wait_home ∷ r) =
    (to_arrive r ≡ 0) × (to_report r ≡ 0) × (to_send r ≡ 0) × (0 < homes) × Proper homes 0 r
Proper homes work (count_home ∷ r) =
    (work ≡ 0) × (to_arrive r ≡ 0) × (to_report r ≡ 0) × Proper homes work r

module _ (homes : ℕ) where
  -- The shape stays where the counter goes down.
  pub Proper-lower :
      {work work' : ℕ} (c : List Action) → work' ≤ work → Proper homes work c → Proper homes work' c
  Proper-lower [] l p = p
  Proper-lower (print (work_done i) ∷ r) l (a, b, p) = (a, b, Proper-lower r l p)
  Proper-lower (print (good_bye i) ∷ r) l (z, a, b, p) =
      (omega (arith, z, l), a, b, Proper-lower r l p)
  Proper-lower (print (see_you_tomorrow i) ∷ r) l (z, a, b, p) =
      (omega (arith, z, l), a, b, Proper-lower r l p)
  Proper-lower (print go_home ∷ r) l (z, a, b, p) = (omega (arith, z, l), a, b, Proper-lower r l p)
  Proper-lower (count_down ∷ r) l (a, b, p) = (a, b, Proper-lower r l p)
  Proper-lower (wait_work ∷ r) l p = p
  Proper-lower (wait_home ∷ r) l p = p
  Proper-lower (count_home ∷ r) l (z, a, b, p) = (omega (arith, z, l), a, b, Proper-lower r l p)

  pub to_report_le : (work : ℕ) (c : List Action) → Proper homes work c → to_report c ≤ to_arrive c
  to_report_le work [] p = omega arith
  to_report_le work (print (work_done i) ∷ r) (a, b, p) = omega (arith, a, b)
  to_report_le work (print (good_bye i) ∷ r) (z, a, b, p) = omega (arith, b)
  to_report_le work (print (see_you_tomorrow i) ∷ r) (z, a, b, p) = omega (arith, b)
  to_report_le work (print go_home ∷ r) (z, a, b, p) = omega (arith, b)
  to_report_le work (count_down ∷ r) (a, b, p) = omega (arith, b)
  to_report_le work (wait_work ∷ r) (a, b, p) = omega (arith, b)
  to_report_le work (wait_home ∷ r) (a, b, c, pos, q) = omega (arith, b)
  to_report_le work (count_home ∷ r) (z, a, b, p) = omega (arith, b)

-- What is known of the memory: nobody is sent home before all work is done.
pub record Good (homes n : ℕ) (m : Memory) : Type 0 where
  pub sent : m.home < homes → m.work ≡ 0
  pub lines : AfterWork n m.output

-- What an action does to the latches, to the lines and to the thread.
pub Act-effects :
    (homes n : ℕ) {m m' : Memory} {c c' : List Action}
    → Act m c m' c'
    → Good homes n m
    → Proper homes m.work c
    → to_arrive c ≤ m.work
    → to_send c ≤ m.home
    → (m.work ≡ 0 → reported m.output ≡ n)
    → (m'.work + to_arrive c ≡ m.work + to_arrive c')
      × (m'.home + to_send c ≡ m.home + to_send c')
      × (reported m'.output + to_report c' ≡ reported m.output + to_report c)
      × (m'.work ≤ m.work)
      × Proper homes m'.work c'
      × Good homes n m'
Act-effects homes n (out {l = work_done i}) g (a, b, p) h h' all =
    (refl, refl, omega arith, omega arith, p, record { sent = g.sent; lines = g.lines })
Act-effects homes n (out {l = good_bye i}) g (z, a, b, p) h h' all =
    (refl, refl, omega arith, omega arith, p, record { sent = g.sent; lines = (all z, g.lines) })
Act-effects homes n (out {l = see_you_tomorrow i}) g (z, a, b, p) h h' all =
    (refl, refl, omega arith, omega arith, p, record { sent = g.sent; lines = (all z, g.lines) })
Act-effects homes n (out {l = go_home}) g (z, a, b, p) h h' all =
    (refl, refl, omega arith, omega arith, p, record { sent = g.sent; lines = (all z, g.lines) })
Act-effects homes n (arrive {r = r}) g (a, b, p) h h' all = (
  omega (arith, h),
  refl,
  refl,
  omega arith,
  Proper-lower homes r (omega arith) p,
  record { sent = λ k. omega (arith, g.sent k); lines = g.lines },
)
Act-effects homes n (pass_work {r = r} e) g (a, b, p) h h' all =
    (refl, refl, refl, omega arith, Proper-lower homes r (omega (arith, e)) p, g)
Act-effects homes n send_home g (z, a, b, p) h h' all =
    (refl, omega (arith, h'), refl, omega arith, p, record { sent = λ k. z; lines = g.lines })
Act-effects homes n (pass_home {r = r} e) g (a, b, s, pos, p) h h' all = (
  refl,
  refl,
  refl,
  omega arith,
  Proper-lower homes r (omega (arith, g.sent (omega (arith, e, pos)))) p,
  g,
)

-- The lines that are printed, and those still to be printed; each action is one step.
pub Act-prints :
    {m m' : Memory} {c c' : List Action}
    → Act m c m' c'
    → (length m'.output + to_print c' ≡ length m.output + to_print c) × (steps c' < steps c)
Act-prints out = (omega arith, omega arith)
Act-prints arrive = (refl, omega arith)
Act-prints (pass_work e) = (refl, omega arith)
Act-prints send_home = (refl, omega arith)
Act-prints (pass_home e) = (refl, omega arith)
