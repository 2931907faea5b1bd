-- ===== src/Logged/Handles/Unique.antt =====
-- Every frame has exactly one owner.
use cpp20examples.Prelude.{
  inr, inl, Bool-cases, subst, ◌∙◌, ◌+◌, sym, ◌≢◌, ℕ, ◌==◌, ◌≡◌, ◌<◌, arith, refl, if◌then◌else◌,
  Bool, true, false, Option, none, some, ap,
}
use cpp20examples.Prelude.Exec.{ok-injective, ok}
use cpp20examples.Coroutine.{write}
use cpp20examples.Steps.{Reach, Reach-invariant}
use cpp20examples.Threads.{total_pc-zero, write_other, total_pc, total_pc-write, le-total_pc}
use cpp20examples.Logged.Handles.{
  init, step, same, Slot, no_object, holding, State, Operation, create, construct, destruct,
  move_construct, move_assign, destroy,
}

-- 1 for a variable that holds the frame at an address
abbrev owns : ℕ → Slot → ℕ
owns h (holding (some k)) = if k == h then 1 else 0
owns h _ = 0

abbrev bit : Bool → ℕ
bit true = 1
bit false = 0

abbrev HasObject : Slot → Type 0
HasObject no_object = ⊥
HasObject (holding a) = Unit {0}

-- The rules of C++ for the lifetime of the variables, and a new frame at a free address.
abbrev pub Scoped : ℕ → Operation → State → Type 0
Scoped n (create x h) s = (x < n) × (s.slots x ≡ no_object) × (s.live h ≡ false)
Scoped n (construct x) s = (x < n) × (s.slots x ≡ no_object)
Scoped n (destruct x) s = (x < n) × HasObject (s.slots x)
Scoped n (move_construct x y) s =
    (x < n) × (y < n) × (s.slots x ≡ no_object) × HasObject (s.slots y)
Scoped n (move_assign x y) s = (x < n) × (y < n) × HasObject (s.slots x) × HasObject (s.slots y)

-- Every frame that is there has one owner, and no other address has one.
abbrev Owned : ℕ → State → Type 0
Owned n s = (h : ℕ) → total_pc (owns h) n s.slots ≡ bit (s.live h)

HasObject-holding : (v : Slot) → HasObject v → (a : Option ℕ) × (v ≡ holding a)
HasObject-holding no_object h = absurd h
HasObject-holding (holding a) h = (a, refl)

same_self : (a : Option ℕ) → same a a ≡ true
same_self none = refl
same_self (some k) = ground arith

module _ (slots : ℕ → Slot) (x y : ℕ) where
  no_object_distinct : (b : Option ℕ) → slots x ≡ no_object → slots y ≡ holding b → x ≢ y
  no_object_distinct b e e' p = cc

  holding_distinct :
      (a b : Option ℕ) → slots x ≡ holding a → slots y ≡ holding b → same a b ≡ false → x ≢ y
  holding_distinct a b e e' d p =
      let q : holding a ≡ holding b = sym e ∙ ap slots p ∙ e' in
      let r : a ≡ b = cc in
      let t : same a b ≡ true = subst (λ (c : Option ℕ). same a c ≡ true) r (same_self a) in cc

module _ (n : ℕ) where
  -- A variable with no object gets one that holds a new frame.
  create-Owned :
      (x k : ℕ) (s : State)
      → Owned n s
      → x < n
      → s.slots x ≡ no_object
      → s.live k ≡ false
      → Owned n (record { slots = write s.slots x (holding (some k)); live = write s.live k true })
  create-Owned x k s i l e f h =
      ground (arith, i h, total_pc-write (owns h) n x s.slots (holding (some k)) l, ap (owns h) e)

  construct-Owned :
      (x : ℕ) (s : State)
      → Owned n s
      → x < n
      → s.slots x ≡ no_object
      → Owned n (record { slots = write s.slots x (holding none); live = s.live })
  construct-Owned x s i l e h =
      omega (arith, i h, total_pc-write (owns h) n x s.slots (holding none) l, ap (owns h) e)

  -- What a variable holds is there.
  live-of :
      (x k : ℕ) (s : State) → Owned n s → x < n → s.slots x ≡ holding (some k) → s.live k ≡ true
  live-of x k s i l e = ground (arith, i k, le-total_pc (owns k) n x s.slots l, ap (owns k) e)

  -- The destruction of what a variable holds, which then holds something that nothing else does.
  drop-Owned :
      (x : ℕ) (a : Option ℕ) (v : Slot) (s : State)
      → Owned n s
      → x < n
      → s.slots x ≡ holding a
      → ((h : ℕ) → owns h v ≡ 0)
      → (live' : ℕ → Bool) × (destroy a s.live ≡ ok live')
        × Owned n (record { slots = write s.slots x v; live = live' })
  drop-Owned x none v s i l e z = (
    s.live,
    refl,
    λ h. omega (arith, i h, total_pc-write (owns h) n x s.slots v l, ap (owns h) e, z h),
  )
  drop-Owned x (some k) v s i l e z = (
    write s.live k false,
    rw (live-of x k s i l e) refl,
    λ h. ground (
      arith,
      i h,
      total_pc-write (owns h) n x s.slots v l,
      ap (owns h) e,
      z h,
      live-of x k s i l e,
    ),
  )

  -- What variable `y` holds is moved to another variable `x`.
  move_total :
      (x y h : ℕ) (b : Option ℕ) (s : State)
      → x < n
      → y < n
      → x ≢ y
      → s.slots y ≡ holding b
      → total_pc (owns h) n (write (write s.slots y (holding none)) x (holding b))
          + owns h (s.slots x)
        ≡ total_pc (owns h) n s.slots
  move_total x y h b s l l' d e = omega (
    arith,
    total_pc-write (owns h) n x (write s.slots y (holding none)) (holding b) l,
    total_pc-write (owns h) n y s.slots (holding none) l',
    ap (owns h) e,
    ap (owns h) (write_other s.slots y x (holding none) (λ (p : y ≡ x). d (sym p))),
  )

  move_construct-Owned :
      (x y : ℕ) (b : Option ℕ) (s : State)
      → Owned n s
      → x < n
      → y < n
      → s.slots x ≡ no_object
      → s.slots y ≡ holding b
      → Owned n
          (record { slots = write (write s.slots y (holding none)) x (holding b); live = s.live })
  move_construct-Owned x y b s i l l' e e' h = omega (
    arith,
    i h,
    ap (owns h) e,
    move_total x y h b s l l' (no_object_distinct s.slots x y b e e') e',
  )

  move_assign-Owned :
      (x y : ℕ) (a b : Option ℕ) (s : State)
      → Owned n s
      → x < n
      → y < n
      → s.slots x ≡ holding a
      → s.slots y ≡ holding b
      → same a b ≡ false
      → (live' : ℕ → Bool) × (destroy a s.live ≡ ok live')
        × Owned n
            (record { slots = write (write s.slots y (holding none)) x (holding b); live = live' })
  move_assign-Owned x y a b s i l l' e e' d =
      let (live', destroyed, o) = drop-Owned x a (holding none) s i l e (λ h. refl) in
      (
        live',
        destroyed,
        λ h. omega (
          arith,
          i h,
          o h,
          ap (owns h) e,
          total_pc-write (owns h) n x s.slots (holding none) l,
          move_total x y h b s l l' (holding_distinct s.slots x y a b e e' d) e',
        ),
      )

  -- The operation succeeds, and keeps the owners.
  Kept : Operation → State → Type 0
  Kept o s = (s' : State) × (step o s ≡ ok s') × Owned n s'

  step-Kept : (o : Operation) (s : State) → Owned n s → Scoped n o s → Kept o s
  unfolding step Kept
  step-Kept (create x k) s i (l, e, f) = (_, rw (f, e) refl, create-Owned x k s i l e f)
  step-Kept (construct x) s i (l, e) = (_, rw e refl, construct-Owned x s i l e)
  step-Kept (destruct x) s i (l, o) =
      let (a, e) = HasObject-holding (s.slots x) o in
      let (live', destroyed, kept) = drop-Owned x a no_object s i l e (λ h. refl) in
      (_, rw (e, destroyed) refl, kept)
  step-Kept (move_construct x y) s i (l, l', e, o) =
      let (b, e') = HasObject-holding (s.slots y) o in
      (_, rw (e', e) refl, move_construct-Owned x y b s i l l' e e')
  step-Kept (move_assign x y) s i (l, l', o, o') =
      let (a, e) = HasObject-holding (s.slots x) o in
      let (b, e') = HasObject-holding (s.slots y) o' in
      elim (Bool-cases (same a b)) [
        | inl d ↦ (s, rw (e, e', d) refl, i)
        | inr d ↦
            let (live', destroyed, kept) = move_assign-Owned x y a b s i l l' e e' d in
            (_, rw (e, e', d, destroyed) refl, kept)
      ]

-- An operation by the rules of C++, where it succeeds.
abbrev pub Made : ℕ → State → State → Type 0
Made n s s' = (o : Operation) × Scoped n o s × (step o s ≡ ok s')

same_outcome :
    {s' t : State} (o : Operation) (s : State) → step o s ≡ ok s' → step o s ≡ ok t → s' ≡ t
same_outcome o s e e' = ok-injective (sym e ∙ e')

Reach-Owned : {n : ℕ} {s : State} → Reach (Made n) init s → Owned n s
unfolding Kept
Reach-Owned {n} r =
    Reach-invariant (Made n) (Owned n)
      (λ s t i (o, sc, e).
        let (s', e', kept) = step-Kept n o s i sc in subst (Owned n) (same_outcome o s e' e) kept)
      (λ h. total_pc-zero (owns h) n (λ x. no_object) (λ x l. refl)) r

-- With `n` variables, after any operations by the rules of C++: the next such operation succeeds, so no
-- frame is destroyed twice, and once no variable has an object no frame is left.
pub unique_handles :
    {n : ℕ} {s : State}
    → Reach (Made n) init s
    → ((o : Operation) → Scoped n o s → (s' : State) × (step o s ≡ ok s'))
      × (((x : ℕ) → x < n → s.slots x ≡ no_object) → (h : ℕ) → s.live h ≡ false)
unfolding Kept
unique_handles {n} {s} r = (
  λ o sc. let (s', e, kept) = step-Kept n o s (Reach-Owned r) sc in (s', e),
  λ none_left h. ground (
    arith,
    Reach-Owned r h,
    total_pc-zero (owns h) n s.slots (λ x l. ap (owns h) (none_left x l)),
  ),
)
