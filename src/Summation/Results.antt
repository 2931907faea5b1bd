-- ===== src/Summation/Results.antt =====
-- All programs that add up the values in four threads have the same result, the sum of all values.
mod Tests
use cpp20examples.Prelude.{
  ℕ, zero, suc, ◌+◌, ◌-◌, ◌%◌, ◌^◌, ◌≤◌, ◌≡◌, refl, arith, Bool, true, false, List, ◌∙◌, ap,
}
use cpp20examples.Steps.{Reach}
use cpp20examples.Threads.{System, total_pc}
use cpp20examples.Summation.{Action, Memory, Pc, threads, ThreadStep}
use cpp20examples.Summation.Guarded.{held, Guarded, added, owed}
use cpp20examples.Summation.Finish.{Finished, SumsTo, threads-SumsTo}
use cpp20examples.Summation.Programs.{
  Bounds, locked_additions, atomic_additions, local_sum, four_ranges, main_of, Version, with_lock,
  with_atomic, with_fetch_add, relaxed, local, local_atomic, local_relaxed, thread_local,
  sum_up_with_lock, sum_up_with_atomic, sum_up_local, sum_up_local_atomic,
}

-- The sum of `k` values from `it` on.
abbrev pub range_sum : (ℕ → ℕ) → ℕ → ℕ → ℕ
range_sum val it zero = 0
range_sum val it (suc k) = val it + range_sum val (suc it) k

range_sum-add :
    (val : ℕ → ℕ) (it k j m : ℕ)
    → m ≡ k + j
    → range_sum val it m ≡ range_sum val it k + range_sum val (it + k) j
range_sum-add val it zero j m e = ground arith
range_sum-add val it (suc k) j zero e = absurd (omega (arith, e))
range_sum-add val it (suc k) j (suc m) e =
    let shift : range_sum val (suc it + k) j ≡ range_sum val (it + suc k) j =
      ap (λ (x : ℕ). range_sum val x j) (omega arith) in
    omega (arith, shift, range_sum-add val (suc it) k j m (omega (arith, e)))

pub range_sum-sub :
    (val : ℕ → ℕ) (beg end : ℕ)
    → beg ≤ end
    → range_sum val 0 end ≡ range_sum val 0 beg + range_sum val beg (end - beg)
range_sum-sub val beg end l =
    let shift : range_sum val (0 + beg) (end - beg) ≡ range_sum val beg (end - beg) =
      ap (λ (x : ℕ). range_sum val x (end - beg)) (omega arith) in
    omega (arith, shift, range_sum-add val 0 beg (end - beg) end (omega arith))

-- What the other definitions need of `sumUp`.
record IsSumUp (val : ℕ → ℕ) (locking : Bool) (sum_up : ℕ → ℕ → List Action) : Type 0 where
  free : (beg end : ℕ) → held (sum_up beg end) ≡ 0
  guarded : (beg end : ℕ) → Guarded locking (sum_up beg end)
  sum : (beg end : ℕ) → added (sum_up beg end) % 2 ^ 64 ≡ range_sum val beg (end - beg) % 2 ^ 64

module _ (val : ℕ → ℕ) where
  locked_additions-held : (it k : ℕ) → held (locked_additions val it k) ≡ 0
  locked_additions-held it zero = refl
  locked_additions-held it (suc k) = refl

  locked_additions-Guarded : (it k : ℕ) → Guarded true (locked_additions val it k)
  locked_additions-Guarded it zero = tt
  locked_additions-Guarded it (suc k) =
      (refl, refl, (refl, (locked_additions-held (suc it) k, locked_additions-Guarded (suc it) k)))

  locked_additions-added : (it k : ℕ) → added (locked_additions val it k) ≡ range_sum val it k
  locked_additions-added it zero = refl
  locked_additions-added it (suc k) = ap (λ (x : ℕ). val it + x) (locked_additions-added (suc it) k)

  atomic_additions-held : (it k : ℕ) → held (atomic_additions val it k) ≡ 0
  atomic_additions-held it zero = refl
  atomic_additions-held it (suc k) = refl

  atomic_additions-Guarded : (it k : ℕ) → Guarded false (atomic_additions val it k)
  atomic_additions-Guarded it zero = tt
  atomic_additions-Guarded it (suc k) =
      (refl, atomic_additions-held (suc it) k, atomic_additions-Guarded (suc it) k)

  atomic_additions-added : (it k : ℕ) → added (atomic_additions val it k) ≡ range_sum val it k
  atomic_additions-added it zero = refl
  atomic_additions-added it (suc k) = ap (λ (x : ℕ). val it + x) (atomic_additions-added (suc it) k)

  pub local_sum-range_sum :
      (it k tmp : ℕ) → local_sum val it k tmp % 2 ^ 64 ≡ (tmp + range_sum val it k) % 2 ^ 64
  local_sum-range_sum it zero tmp = omega arith
  local_sum-range_sum it (suc k) tmp =
      omega (arith, local_sum-range_sum (suc it) k ((tmp + val it) % 2 ^ 64))

  locked_additions-IsSumUp : IsSumUp val true (sum_up_with_lock val)
  locked_additions-IsSumUp = record {
    free = λ beg end. locked_additions-held beg (end - beg);
    guarded = λ beg end. locked_additions-Guarded beg (end - beg);
    sum = λ beg end. ap (λ (x : ℕ). x % 2 ^ 64) (locked_additions-added beg (end - beg));
  }

  atomic_additions-IsSumUp : IsSumUp val false (sum_up_with_atomic val)
  atomic_additions-IsSumUp = record {
    free = λ beg end. atomic_additions-held beg (end - beg);
    guarded = λ beg end. atomic_additions-Guarded beg (end - beg);
    sum = λ beg end. ap (λ (x : ℕ). x % 2 ^ 64) (atomic_additions-added beg (end - beg));
  }

  sum_up_local-IsSumUp : IsSumUp val true (sum_up_local val)
  sum_up_local-IsSumUp = record {
    free = λ beg end. refl;
    guarded = λ beg end. (refl, refl, (refl, (refl, tt)));
    sum = λ beg end. omega (arith, local_sum-range_sum beg (end - beg) 0);
  }

  sum_up_local_atomic-IsSumUp : IsSumUp val false (sum_up_local_atomic val)
  sum_up_local_atomic-IsSumUp = record {
    free = λ beg end. refl;
    guarded = λ beg end. (refl, refl, tt);
    sum = λ beg end. omega (arith, local_sum-range_sum beg (end - beg) 0);
  }

-- The ranges of the four threads lie side by side.
four_ranges-sum :
    (val : ℕ → ℕ) (locking : Bool) (sum_up : ℕ → ℕ → List Action) (b : Bounds)
    → IsSumUp val locking sum_up
    → b.fir ≤ b.sec
    → b.sec ≤ b.thi
    → b.thi ≤ b.fou
    → total_pc added 4 (four_ranges sum_up b) % 2 ^ 64 ≡ range_sum val 0 b.fou % 2 ^ 64
four_ranges-sum val locking sum_up b ok l l' l'' =
    let total : total_pc added 4 (four_ranges sum_up b)
        ≡ added (sum_up b.thi b.fou)
          + (added (sum_up b.sec b.thi)
              + (added (sum_up b.fir b.sec) + (added (sum_up 0 b.fir) + 0))) =
      refl in
    omega (
      arith,
      total,
      ok.sum 0 b.fir,
      ok.sum b.fir b.sec,
      ok.sum b.sec b.thi,
      ok.sum b.thi b.fou,
      range_sum-sub val 0 b.fir (omega arith),
      range_sum-sub val b.fir b.sec l,
      range_sum-sub val b.sec b.thi l',
      range_sum-sub val b.thi b.fou l'',
    )

four_ranges-Guarded :
    (val : ℕ → ℕ) (locking : Bool) (sum_up : ℕ → ℕ → List Action) (b : Bounds)
    → IsSumUp val locking sum_up
    → (i : ℕ) → (held (four_ranges sum_up b i) ≡ 0) × Guarded locking (four_ranges sum_up b i)
four_ranges-Guarded val locking sum_up b ok zero = (ok.free _ _, ok.guarded _ _)
four_ranges-Guarded val locking sum_up b ok (suc zero) = (ok.free _ _, ok.guarded _ _)
four_ranges-Guarded val locking sum_up b ok (suc (suc zero)) = (ok.free _ _, ok.guarded _ _)
four_ranges-Guarded val locking sum_up b ok (suc (suc (suc i))) = (ok.free _ _, ok.guarded _ _)

module _ (val : ℕ → ℕ) (b : Bounds) (l : b.fir ≤ b.sec) (l' : b.sec ≤ b.thi)
    (l'' : b.thi ≤ b.fou) where
  sum_up-SumsTo :
      (locking : Bool) (sum_up : ℕ → ℕ → List Action)
      → IsSumUp val locking sum_up
      → (s : System Memory Pc) → Reach (ThreadStep 4) (threads (four_ranges sum_up b)) s
      → SumsTo 4 (range_sum val 0 b.fou) s
  sum_up-SumsTo locking sum_up ok s r =
      let total = four_ranges-sum val locking sum_up b ok l l' l'' in
      let (balance, (t, q, all, sum)) =
        threads-SumsTo locking 4 (four_ranges sum_up b)
          (λ i h. four_ranges-Guarded val locking sum_up b ok i) r in
      (balance ∙ total, (t, q, all, sum ∙ total))

  main_of-SumsTo :
      (v : Version) (s : System Memory Pc)
      → Reach (ThreadStep 4) (main_of v val b) s
      → SumsTo 4 (range_sum val 0 b.fou) s
  main_of-SumsTo with_lock = sum_up-SumsTo true _ (locked_additions-IsSumUp val)
  main_of-SumsTo with_atomic = sum_up-SumsTo false _ (atomic_additions-IsSumUp val)
  main_of-SumsTo with_fetch_add = sum_up-SumsTo false _ (atomic_additions-IsSumUp val)
  main_of-SumsTo relaxed = sum_up-SumsTo false _ (atomic_additions-IsSumUp val)
  main_of-SumsTo local = sum_up-SumsTo true _ (sum_up_local-IsSumUp val)
  main_of-SumsTo local_atomic = sum_up-SumsTo false _ (sum_up_local_atomic-IsSumUp val)
  main_of-SumsTo local_relaxed = sum_up-SumsTo false _ (sum_up_local_atomic-IsSumUp val)
  main_of-SumsTo thread_local = sum_up-SumsTo false _ (sum_up_local_atomic-IsSumUp val)

-- In each of the programs that add up the values by four threads, with ranges that lie side by side: in
-- every state that is reached, `sum` and what the threads still add to it are the sum of all values,
-- modulo 2 ^ 64; and from there a state is reached in which all threads have ended and `sum` is the sum
-- of all values, modulo 2 ^ 64.
pub sums_up :
    (v : Version) (val : ℕ → ℕ) (b : Bounds)
    → b.fir ≤ b.sec
    → b.sec ≤ b.thi
    → b.thi ≤ b.fou
    → {s : System Memory Pc} → Reach (ThreadStep 4) (main_of v val b) s
    → ((s.memory.sum + total_pc owed 4 s.pc) % 2 ^ 64 ≡ range_sum val 0 b.fou % 2 ^ 64)
      × ((t : System Memory Pc) × Reach (ThreadStep 4) s t
          × Finished 4 t
          × (t.memory.sum ≡ range_sum val 0 b.fou % 2 ^ 64))
sums_up v val b l l' l'' {s} r = main_of-SumsTo val b l l' l'' v s r
