-- ===== src/Scheduler/Priority/InOrder.antt =====
-- A priority queue whose jobs go before each other in one order gives them out in that order.
use cpp20examples.Prelude.{
  ℕ, ◌+◌, ◌<◌, ◌≡◌, refl, Bool, true, false, List, [], ◌∷◌, ◌==◌, ◌&&◌, not, none, some, arith, ap,
  ◌∙◌, Bool-cases, Option-cases, inl, inr,
}
use cpp20examples.Prelude.Int.{ℤ, pos, negsuc, ltb_ℤ}
use cpp20examples.Scheduler.Loop.{Container}
use cpp20examples.Scheduler.Priority.{Job}
use cpp20examples.Scheduler.Priority.Contract.{IsStrictOrder, Bounds, weight, IsPriorityQueue}

-- Every job of the list goes after `j`.
abbrev pub After : (Job → Job → Bool) → Job → List Job → Type 0
After comparator j [] = Unit
After comparator j (k ∷ l) = (comparator k j ≡ true) × After comparator j l

-- Each job goes before all that follow.
abbrev pub IsStrictlySorted : (Job → Job → Bool) → List Job → Type 0
IsStrictlySorted comparator [] = Unit
IsStrictlySorted comparator (j ∷ l) = After comparator j l × IsStrictlySorted comparator l

abbrev set : Bool → ℕ
set true = 1
set false = 0

abbrev same_prio : ℤ → ℤ → Bool
same_prio a b = not (ltb_ℤ a b) && not (ltb_ℤ b a)

abbrev same : Job → Job → Bool
same a b = same_prio a.prio b.prio && a.handle == b.handle

same_prio-eq : (a b : ℤ) → same_prio a b ≡ true → a ≡ b
same_prio-eq (pos m) (pos n) e = let h : m ≡ n = ground arith in ap pos h
same_prio-eq (negsuc m) (negsuc n) e = let h : m ≡ n = ground arith in ap negsuc h
same_prio-eq (pos m) (negsuc n) e = ground arith
same_prio-eq (negsuc m) (pos n) e = ground arith

same_prio_refl : (a : ℤ) → same_prio a a ≡ true
same_prio_refl (pos m) = ground arith
same_prio_refl (negsuc m) = ground arith

same-eq : (a b : Job) → same a b ≡ true → a ≡ b
same-eq a b e =
    let p : a.prio ≡ b.prio = same_prio-eq a.prio b.prio (ground arith) in
    let h : a.handle ≡ b.handle = ground arith in cc

same_refl : (a : Job) → same a a ≡ true
same_refl a = ground (arith, same_prio_refl a.prio)

module _ {comparator : Job → Job → Bool} (order : IsStrictOrder comparator) where
  irrefl : (j : Job) → comparator j j ≡ false
  irrefl j = elim (Bool-cases (comparator j j)) [ inl e ↦ order.asym j j e | inr e ↦ e ]

  Bounds-weight :
      (j : Job) (q : List Job) → Bounds comparator j q → weight (λ k. set (comparator j k)) q ≡ 0
  Bounds-weight j [] b = refl
  Bounds-weight j (k ∷ q) b = omega (arith, ap set b.0, Bounds-weight j q b.1)

  -- A job of the list goes after all that goes before the list.
  After-weight :
      (j x : Job) (l : List Job)
      → After comparator j l
      → 0 < weight (λ k. set (same x k)) l
      → comparator x j ≡ true
  After-weight j x [] a h = absurd (omega (arith, h))
  After-weight j x (k ∷ l) a h = elim (Bool-cases (same x k)) [
    | inl e ↦ ap (λ (y : Job). comparator y j) (same-eq x k e) ∙ a.0
    | inr e ↦ After-weight j x l a.1 (omega (arith, h, ap set e))
  ]

  -- The job that no other goes before is the first one.
  top-eq :
      (x j : Job) (q l : List Job)
      → Bounds comparator x q
      → After comparator j l
      → ((w : Job → ℕ) → w x + weight w q ≡ w j + weight w l)
      → x ≡ j
  top-eq x j q l b a e = elim (Bool-cases (same x j)) [
    | inl s ↦ same-eq x j s
    | inr s ↦
        let below : comparator x j ≡ true =
          After-weight j x l a
            (omega (arith, e (λ k. set (same x k)), ap set s, ap set (same_refl x))) in
        absurd (
          omega (
            arith,
            e (λ k. set (comparator x k)),
            ap set (irrefl x),
            Bounds-weight x q b,
            ap set below,
          ))
  ]

  module _ {Q : Type 0} {c : Container Job Q} (law : IsPriorityQueue comparator c) where
    open law use {jobs}

    -- The jobs of the queue are those of the list, in whose order they go before each other.
    abbrev pub Orders : Q → List Job → Type 0
    Orders q l = IsStrictlySorted comparator l × ((w : Job → ℕ) → weight w (jobs q) ≡ weight w l)

    pub Orders-end : (q : Q) → Orders q [] → c.pop q ≡ none
    Orders-end q o = elim (Option-cases (c.pop q)) [
      | inl e ↦ e
      | inr ((j, q'), e) ↦ absurd (omega (arith, o.1 (λ k. 1), law.pop_some (λ k. 1) q q' j e))
    ]

    pub Orders-again :
        (q : Q) (j : Job) (l : List Job)
        → Orders q (j ∷ l)
        → (q' : Q) × (c.pop q ≡ some (j, q')) × Orders q' l × Orders (c.push j q') (j ∷ l)
    Orders-again q j l o = elim (Option-cases (c.pop q)) [
      | inl e ↦ absurd (omega (arith, o.1 (λ k. 1), ap (weight (λ k. 1)) (law.pop_none q e)))
      | inr ((x, q'), e) ↦
          let top : x ≡ j =
            top-eq x j (jobs q') l (law.pop_top q q' x e) o.0.0
              (λ w. omega (arith, law.pop_some w q q' x e, o.1 w)) in
          let rest : (w : Job → ℕ) → weight w (jobs q') ≡ weight w l =
            λ w. omega (arith, law.pop_some w q q' x e, o.1 w, ap w top) in
          (
            q',
            e ∙ ap (λ (y : Job). some (y, q')) top,
            (o.0.1, rest),
            (o.0, λ w. omega (arith, law.push_lem w q' j, rest w)),
          )
    ]
