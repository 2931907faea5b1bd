-- ===== src/Coroutine/Laws.antt =====
-- Facts about frames: what a body does next, and what a write to the store leaves behind.
use cpp20examples.Prelude.{
  ℕ, ◌<◌, ◌≡◌, refl, fun_ext, List, ◌∷◌, [], Option, none, some, arith, length,
}
use cpp20examples.Coroutine.{
  Item, Body, finish, await, Frame, suspended, final_suspended, Store, write, segments, script,
  script_of,
}

module _ {A : Type 0} where
  -- What a body prints on its next `resume`.
  abbrev pub first : Body A → List Item
  first (finish out) = out
  first (await out a b) = out

  -- What it prints after that.
  abbrev pub rest : Body A → List (List Item)
  rest (finish out) = []
  rest (await out a b) = segments b

  -- Its frame after that, if a frame is destroyed as soon as its body has ended.
  abbrev pub next : Body A → Option (Frame A)
  next (finish out) = none
  next (await out a b) = some (suspended b)

  pub segments-eq : (b : Body A) → segments b ≡ first b ∷ rest b
  segments-eq (finish out) = refl
  segments-eq (await out a b) = refl

  pub script_of-next : (b : Body A) → script_of (next b) ≡ rest b
  script_of-next (finish out) = refl
  script_of-next (await out a b) = refl

  pub write-write :
      (σ : Store A) (h : ℕ) (x y : Option (Frame A)) → write (write σ h x) h y ≡ write σ h y
  write-write σ h x y = fun_ext λ k. ground arith

  -- A frame with something left to print is suspended inside its body.
  suspended_frame :
      (f : Option (Frame A)) → 0 < length (script_of f) → (b : Body A) × (f ≡ some (suspended b))
  suspended_frame none p = absurd (omega arith)
  suspended_frame (some final_suspended) p = absurd (omega arith)
  suspended_frame (some (suspended b)) p = (b, refl)

  pub script-suspended :
      (σ : Store A) (h : ℕ) → 0 < length (script σ h) → (b : Body A) × (σ h ≡ some (suspended b))
  script-suspended σ h p = suspended_frame (σ h) p
