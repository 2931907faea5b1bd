-- ===== src/Coroutine.antt =====
-- Coroutine frames, as the compiler makes them of a coroutine's body and its promise type.
-- A body is cut at its `co_await` and `co_yield` expressions; a frame lives at an address, the
-- number inside its `std::coroutine_handle`. The promise types of the repository differ in their
-- initial and final suspend points, which `Suspend` names.
pub mod Laws
use cpp20examples.Prelude.{
  ℕ, suc, ◌+◌, ◌==◌, if◌then◌else◌, String, Bool, true, false, List, [], ◌∷◌, ◌++◌, Option, none,
  some,
}
use cpp20examples.Prelude.Int.{ℤ}
use cpp20examples.Prelude.Exec.{Exec, ok, undefined}

-- Something written to `std::cout`; line breaks and blanks between the items are left out.
pub data Item : Type 0 where
  text : String → Item
  num : ℤ → Item

-- What a coroutine does from a suspend point on: the lines that it prints, up to the next
-- `co_await` or `co_yield` with its operand, or up to `co_return`.
pub data Body (A : Type 0) : Type 0 where
  finish : List Item → Body A
  await : List Item → A → Body A → Body A

-- `std::suspend_always` and `std::suspend_never`
pub data Suspend : Type 0 where
  suspend_always suspend_never : Suspend

pub data Frame (A : Type 0) : Type 0 where
  suspended : Body A → Frame A
  final_suspended : Frame A

-- The live frames, by address.
abbrev pub Store : Type 0 → Type 0
Store A = ℕ → Option (Frame A)

abbrev pub write {ℓ} : {B : Type ℓ} → (ℕ → B) → ℕ → B → ℕ → B
write f a b x = if a == x then b else f x

-- What one `resume` of a frame came to: the lines printed, the operand at which the coroutine
-- stopped (`none` at the end of its body), and the frames after it.
pub record Resumed (A : Type 0) : Type 0 where
  pub printed : List Item
  pub stopped_at : Option A
  pub store : Store A

module _ {A : Type 0} where
  -- The frame of a body that has ended: kept for `suspend_always`, freed for `suspend_never`.
  abbrev pub ended : Suspend → Option (Frame A)
  ended suspend_always = some final_suspended
  ended suspend_never = none

  abbrev pub run_body : Suspend → ℕ → Body A → Store A → Resumed A
  run_body fin h (finish out) σ = record {
    printed = out;
    stopped_at = none;
    store = write σ h (ended fin);
  }
  run_body fin h (await out a b) σ = record {
    printed = out;
    stopped_at = some a;
    store = write σ h (some (suspended b));
  }

  -- A coroutine whose promise type starts with `suspend_always` runs nothing when it is called.
  unfoldable pub create : ℕ → Body A → Store A → Store A
  create h b σ = write σ h (some (suspended b))

  -- `resume()` of a freed frame, or of one at its final suspend point, is undefined.
  abbrev resume_frame : Suspend → ℕ → Option (Frame A) → Store A → Exec (Resumed A)
  resume_frame fin h none σ = undefined
  resume_frame fin h (some final_suspended) σ = undefined
  resume_frame fin h (some (suspended b)) σ = ok (run_body fin h b σ)

  unfoldable pub resume : Suspend → ℕ → Store A → Exec (Resumed A)
  resume fin h σ = resume_frame fin h (σ h) σ

  abbrev done_frame : Option (Frame A) → Exec Bool
  done_frame none = undefined
  done_frame (some final_suspended) = ok true
  done_frame (some (suspended b)) = ok false

  -- `done()` reads the frame, so it must be live.
  unfoldable pub done : ℕ → Store A → Exec Bool
  done h σ = done_frame (σ h)

  abbrev destroy_frame : ℕ → Option (Frame A) → Store A → Exec (Store A)
  destroy_frame h none σ = undefined
  destroy_frame h (some f) σ = ok (write σ h none)

  -- `destroy()` of a frame that is not live is undefined.
  unfoldable pub destroy : ℕ → Store A → Exec (Store A)
  destroy h σ = destroy_frame h (σ h) σ

  -- What a body prints, a list of lines for each time that it runs.
  abbrev pub segments : Body A → List (List Item)
  segments (finish out) = out ∷ []
  segments (await out a b) = out ∷ segments b

  abbrev pub script_of : Option (Frame A) → List (List Item)
  script_of (some (suspended b)) = segments b
  script_of _ = []

  -- What is left to print of the frame at an address.
  abbrev pub script : Store A → ℕ → List (List Item)
  script σ h = script_of (σ h)
