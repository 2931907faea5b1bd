-- ===== src/Scheduler/Priority/Sorted.antt =====
-- A priority queue that can be run: a sorted list. The programs do not depend on it.
use cpp20examples.Prelude.{
  ap, Option, ℕ, if◌then◌else◌, ◌+◌, ◌≡◌, refl, Bool, true, false, List, [], ◌∷◌, none, some, arith,
  Bool-cases, inl, inr,
}
use mathlib.Core.Option.{some-injective}
use cpp20examples.Prelude.{subst}
use cpp20examples.Scheduler.Loop.{Container}
use cpp20examples.Scheduler.Priority.{Job, less, greater}
use cpp20examples.Scheduler.Priority.Contract.{IsStrictOrder, Bounds, weight, IsPriorityQueue}

-- A list of jobs in the order in which `pop` gives them, as a container.
unfoldable pub insert : (Job → Job → Bool) → Job → List Job → List Job
insert comparator j [] = j ∷ []
insert comparator j (k ∷ q) = if comparator j k then k ∷ insert comparator j q else j ∷ k ∷ q

abbrev pub pop_task : List Job → Option (Job × List Job)
pop_task [] = none
pop_task (j ∷ q) = some (j, q)

abbrev pub tasks : (Job → Job → Bool) → Container Job (List Job)
tasks comparator = record { push = insert comparator; pop = pop_task; handle = λ j. j.handle }

less-asym : (a b : Job) → less a b ≡ true → less b a ≡ false
less-asym a b h = ground arith

less-neg_trans : (a b c : Job) → less a b ≡ false → less b c ≡ false → less a c ≡ false
less-neg_trans a b c h k = ground arith

pub less-IsStrictOrder : IsStrictOrder less
less-IsStrictOrder = record { asym = less-asym; neg_trans = less-neg_trans }

pub greater-IsStrictOrder : IsStrictOrder greater
greater-IsStrictOrder = record {
  asym = λ a b h. less-asym b a h;
  neg_trans = λ a b c h k. less-neg_trans c b a k h;
}

abbrev pub IsSorted : (Job → Job → Bool) → List Job → Type 0
IsSorted comparator [] = Unit
IsSorted comparator (j ∷ q) = Bounds comparator j q × IsSorted comparator q

pub insert-weight :
    (comparator : Job → Job → Bool) (w : Job → ℕ) (q : List Job) (j : Job)
    → weight w (insert comparator j q) ≡ w j + weight w q
unfolding insert
insert-weight comparator w [] j = refl
insert-weight comparator w (k ∷ q) j = ground (arith, insert-weight comparator w q j)

module _ {comparator : Job → Job → Bool} (order : IsStrictOrder comparator) where
  open order use {asym, neg_trans}

  Bounds-trans :
      (j k : Job) (q : List Job)
      → comparator j k ≡ false
      → Bounds comparator k q
      → Bounds comparator j q
  Bounds-trans j k [] h b = tt
  Bounds-trans j k (x ∷ q) h b = (neg_trans j k x h b.0, Bounds-trans j k q h b.1)

  insert-Bounds :
      (k j : Job) (q : List Job)
      → comparator k j ≡ false
      → Bounds comparator k q
      → Bounds comparator k (insert comparator j q)
  unfolding insert
  insert-Bounds k j [] h b = (h, tt)
  insert-Bounds k j (x ∷ q) h b = elim (Bool-cases (comparator j x)) [
    | inl e ↦ rw e (b.0, insert-Bounds k j q h b.1)
    | inr e ↦ rw e (h, b)
  ]

  -- `emplace` keeps the order.
  pub insert-IsSorted :
      (j : Job) (q : List Job) → IsSorted comparator q → IsSorted comparator (insert comparator j q)
  unfolding insert
  insert-IsSorted j [] s = (tt, tt)
  insert-IsSorted j (k ∷ q) s = elim (Bool-cases (comparator j k)) [
    | inl e ↦ rw e (insert-Bounds k j q (asym j k e) s.0, insert-IsSorted j q s.1)
    | inr e ↦ rw e ((e, Bounds-trans j k q e s.0), s)
  ]

  abbrev pub SortedList : Type 0
  SortedList = (q : List Job) × IsSorted comparator q

  abbrev pub pop_sorted : SortedList → Option (Job × SortedList)
  pop_sorted ([], s) = none
  pop_sorted (j ∷ q, s) = some (j, (q, s.1))

  abbrev pub sorted_tasks : Container Job SortedList
  sorted_tasks = record {
    push = λ j q. (insert comparator j q.0, insert-IsSorted j q.0 q.1);
    pop = pop_sorted;
    handle = λ j. j.handle;
  }

  pub pop_sorted-none : (q : SortedList) → pop_sorted q ≡ none → q.0 ≡ []
  pop_sorted-none ([], s) e = refl
  pop_sorted-none (k ∷ q, s) e = cc

  pub pop_sorted-some :
      (q q' : SortedList) (j : Job)
      → pop_sorted q ≡ some (j, q')
      → (q.0 ≡ j ∷ q'.0) × Bounds comparator j q'.0
  pop_sorted-some ([], s) q' j e = cc
  pop_sorted-some (k ∷ q, s) q' j e =
      subst (λ (x : Job × SortedList). (k ∷ q ≡ x.0 ∷ x.1.0) × Bounds comparator x.0 x.1.0)
        (some-injective (k, (q, s.1)) (j, q') e) (refl, s.0)

  -- The sorted lists are a priority queue.
  unfoldable pub sorted_tasks-IsPriorityQueue : IsPriorityQueue comparator sorted_tasks
  sorted_tasks-IsPriorityQueue = record {
    jobs = λ q. q.0;
    handle_lem = λ j. refl;
    pop_none = pop_sorted-none;
    pop_some = λ w q q' j e. ap (weight w) (pop_sorted-some q q' j e).0;
    pop_top = λ q q' j e. (pop_sorted-some q q' j e).1;
    push_lem = λ w q j. insert-weight comparator w q.0 j;
  }
