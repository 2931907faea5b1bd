-- ===== src/ActiveObject/Results.antt =====
-- Sorting the results and separating them.
use cpp20examples.Prelude.{
  ℕ, ◌+◌, ◌≤◌, ◌≡◌, refl, sym, ap, ◌∙◌, subst, arith, Bool, true, false, Bool-cases, inl, inr,
  leb→le, leb, if◌then◌else◌, List, [], ◌∷◌, map, count,
}
use cpp20examples.Generator.Primes.Division.{Prime}
use cpp20examples.ActiveObject.{insert, sort, Output, separate}
use cpp20examples.ActiveObject.Division.{Right}

abbrev pub Bounds : ℕ → List ℕ → Type 0
Bounds m [] = Unit {0}
Bounds m (n ∷ ns) = (m ≤ n) × Bounds m ns

abbrev pub IsSorted : List ℕ → Type 0
IsSorted [] = Unit {0}
IsSorted (n ∷ ns) = Bounds n ns × IsSorted ns

abbrev pub All : (ℕ → Type 0) → List ℕ → Type 0
All P [] = Unit {0}
All P (n ∷ ns) = P n × All P ns

abbrev pub AllRight : List (Bool × ℕ) → Type 0
AllRight [] = Unit {0}
AllRight (p ∷ ps) = Right p × AllRight ps

insert_number : ℕ → List ℕ → List ℕ
insert_number m [] = m ∷ []
insert_number m (n ∷ ns) = let rest = insert_number m ns in if leb m n then m ∷ n ∷ ns else n ∷ rest

-- The pairs of some numbers with false and of others with true.
join : List ℕ → List ℕ → List (Bool × ℕ)
join [] [] = []
join [] (n ∷ ns) = (true, n) ∷ join [] ns
join (m ∷ ms) ns = (false, m) ∷ join ms ns

insert-true :
    (i : ℕ) (ms ns : List ℕ) → insert (true, i) (join ms ns) ≡ join ms (insert_number i ns)
unfolding insert insert_number join
insert-true i [] [] = refl
insert-true i [] (n ∷ ns) = ground (arith, insert-true i [] ns)
insert-true i (m ∷ ms) ns = ap (λ (l : List (Bool × ℕ)). (false, m) ∷ l) (insert-true i ms ns)

insert-false :
    (i : ℕ) (ms ns : List ℕ) → insert (false, i) (join ms ns) ≡ join (insert_number i ms) ns
unfolding insert insert_number join
insert-false i [] [] = refl
insert-false i [] (n ∷ ns) = refl
insert-false i (m ∷ ms) ns = ground (arith, insert-false i ms ns)

map-join : (ns : List ℕ) → map (λ (p : Bool × ℕ). p.1) (join [] ns) ≡ ns
unfolding join
map-join [] = refl
map-join (n ∷ ns) = ap (λ (l : List ℕ). n ∷ l) (map-join ns)

separate-join : (ms ns : List ℕ) → separate (join ms ns) ≡ record { no_primes = ms; primes = ns }
unfolding join separate
separate-join [] [] = refl
separate-join [] (n ∷ ns) =
    ap (λ (l : List ℕ). record { no_primes = []; primes = n ∷ l }) (map-join ns)
separate-join (m ∷ ms) ns =
    ap (λ (o : Output). record { no_primes = m ∷ o.no_primes; primes = o.primes })
      (separate-join ms ns)

Bounds-insert_number : (k m : ℕ) (ns : List ℕ) → k ≤ m → Bounds k ns → Bounds k (insert_number m ns)
unfolding insert_number
Bounds-insert_number k m [] h b = (h, tt)
Bounds-insert_number k m (n ∷ ns) h b = ground (arith, Bounds-insert_number k m ns h b.1)

Bounds-le : (k m : ℕ) (ns : List ℕ) → k ≤ m → Bounds m ns → Bounds k ns
Bounds-le k m [] h b = tt
Bounds-le k m (n ∷ ns) h b = (omega (arith, b.0), Bounds-le k m ns h b.1)

not_leb : (m n : ℕ) → leb m n ≡ false → n ≤ m
not_leb m n e = ground arith

insert_number-IsSorted : (m : ℕ) (ns : List ℕ) → IsSorted ns → IsSorted (insert_number m ns)
unfolding insert_number
insert_number-IsSorted m [] s = (tt, tt)
insert_number-IsSorted m (n ∷ ns) s = elim (Bool-cases (leb m n)) [
  | inl e ↦ simp e ((leb→le m n e, Bounds-le m n ns (leb→le m n e) s.0), s)
  | inr e ↦
      simp e (Bounds-insert_number n m ns (not_leb m n e) s.0, insert_number-IsSorted m ns s.1)
]

insert_number-All :
    (P : ℕ → Type 0) (m : ℕ) (ns : List ℕ) → P m → All P ns → All P (insert_number m ns)
unfolding insert_number
insert_number-All P m [] h a = (h, tt)
insert_number-All P m (n ∷ ns) h a = elim (Bool-cases (leb m n)) [
  | inl e ↦ simp e (h, a)
  | inr e ↦ simp e (a.0, insert_number-All P m ns h a.1)
]

insert_number-count : (x m : ℕ) (ns : List ℕ) → count x (insert_number m ns) ≡ count x (m ∷ ns)
unfolding insert_number
insert_number-count x m [] = refl
insert_number-count x m (n ∷ ns) = elim (Bool-cases (leb m n)) [
  | inl e ↦ simp e refl
  | inr e ↦ simp e (omega (arith, insert_number-count x m ns))
]

-- What is printed for the results is right, in order, and has all the numbers.
pub record IsOutput (numbers : List ℕ) (o : Output) : Type 0 where
  pub no_primes_sorted : IsSorted o.no_primes
  pub primes_sorted : IsSorted o.primes
  pub no_primes_right : All (λ (n : ℕ). ¬ Prime n) o.no_primes
  pub primes_right : All Prime o.primes
  pub same_numbers : (x : ℕ) → count x o.no_primes + count x o.primes ≡ count x numbers

numbers_of : List (Bool × ℕ) → List ℕ
numbers_of = map (λ (p : Bool × ℕ). p.1)

Sorts : List (Bool × ℕ) → Type 0
Sorts ps = (o : Output) × (sort ps ≡ join o.no_primes o.primes) × IsOutput (numbers_of ps) o

Right-true : (i : ℕ) → Right (true, i) → Prime i
Right-true i right = elim right [ inl (e, p) ↦ p | inr (e, p) ↦ cc ]

Right-false : (i : ℕ) → Right (false, i) → ¬ Prime i
Right-false i right = elim right [ inl (e, p) ↦ cc | inr (e, p) ↦ p ]

sort-Sorts : (ps : List (Bool × ℕ)) → AllRight ps → Sorts ps
unfolding sort Sorts join numbers_of
sort-Sorts [] right = (
  record { no_primes = []; primes = [] },
  refl,
  record {
    no_primes_sorted = tt;
    primes_sorted = tt;
    no_primes_right = tt;
    primes_right = tt;
    same_numbers = λ x. refl;
  },
)
sort-Sorts ((true, i) ∷ ps) (right, rest) =
    let (o, e, h) = sort-Sorts ps rest in
    (
      record o { primes = insert_number i o.primes },
      ap (insert (true, i)) e ∙ insert-true i o.no_primes o.primes,
      record {
        no_primes_sorted = h.no_primes_sorted;
        primes_sorted = insert_number-IsSorted i o.primes h.primes_sorted;
        no_primes_right = h.no_primes_right;
        primes_right = insert_number-All Prime i o.primes (Right-true i right) h.primes_right;
        same_numbers = λ x. omega (arith, insert_number-count x i o.primes, h.same_numbers x);
      },
    )
sort-Sorts ((false, i) ∷ ps) (right, rest) =
    let (o, e, h) = sort-Sorts ps rest in
    (
      record o { no_primes = insert_number i o.no_primes },
      ap (insert (false, i)) e ∙ insert-false i o.no_primes o.primes,
      record {
        no_primes_sorted = insert_number-IsSorted i o.no_primes h.no_primes_sorted;
        primes_sorted = h.primes_sorted;
        no_primes_right =
            insert_number-All (λ (n : ℕ). ¬ Prime n) i o.no_primes (Right-false i right)
              h.no_primes_right;
        primes_right = h.primes_right;
        same_numbers = λ x. omega (arith, insert_number-count x i o.no_primes, h.same_numbers x);
      },
    )

-- The output of `main` for right results.
pub sort-IsOutput :
    (ps : List (Bool × ℕ))
    → AllRight ps
    → IsOutput (map (λ (p : Bool × ℕ). p.1) ps) (separate (sort ps))
unfolding Sorts numbers_of
sort-IsOutput ps right =
    let (o, e, h) = sort-Sorts ps right in
    subst (IsOutput (map (λ (p : Bool × ℕ). p.1) ps))
      (sym (ap separate e ∙ separate-join o.no_primes o.primes)) h
