-- ===== src/Scheduler/Loop/InOrder.antt =====
-- `schedule` over a container that gives out the jobs of a list in its order, also after the job just
-- taken was put back: each coroutine runs to its end before the next one starts.
use cpp20examples.Prelude.{
  ℕ, zero, suc, ◌<◌, ◌≡◌, refl, sym, ap, ◌∙◌, List, [], ◌∷◌, ◌++◌, none, some, arith, count, map,
  length,
}
use cpp20examples.Prelude.Exec.{ok, ok-injective}
use cpp20examples.Coroutine.{
  Item, Body, finish, await, Store, write, script, script_of, segments, suspended,
}
use cpp20examples.Coroutine.Laws.{script-suspended, write-write}
use cpp20examples.Scheduler.Loop.{Container, Trace, schedule}
use cpp20examples.Scheduler.Loop.Complete.{IsContainer, IsRunnable, after_first}
use cpp20examples.Scheduler.Loop.RunToEnd.{labelled, one_by_one, one_by_one-write}

module _ {A : Type 0} {h : ℕ} {hs : List ℕ} {σ : Store A} (ready : IsRunnable (h ∷ hs) σ) where
  head-live : 0 < length (script σ h)
  head-live = ground (arith, ready.live h)

  head-once : count h hs ≡ 0
  head-once = ground (arith, ready.once h)

  rest-IsRunnable : IsRunnable hs (write σ h none)
  rest-IsRunnable = record {
    once = λ k. ground (arith, ready.once k);
    live = λ k. ground (arith, ready.live k, ready.once k);
  }

module _ {A J Q : Type 0} (c : Container J Q) (law : IsContainer c) (Orders : Q → List J → Type 0)
    (at_end : (q : Q) → Orders q [] → c.pop q ≡ none)
    (again : (q : Q) (j : J) (l : List J)
      → Orders q (j ∷ l)
      → (q' : Q) × (c.pop q ≡ some (j, q')) × Orders q' l × Orders (c.push j q') (j ∷ l)) where
  open c use {handle}

  -- The run of the first coroutine to its end, and the run after that.
  to_end :
      (fuel : ℕ) (q : Q) (j : J) (l : List J) (σ τ : Store A) (b : Body A) (t : Trace)
      → Orders q (j ∷ l)
      → σ (handle j) ≡ some (suspended b)
      → schedule c (λ i. i) fuel q σ ≡ ok (t, τ)
      → (rest_fuel : ℕ) × (q' : Q) × (t' : Trace) × Orders q' l
        × (schedule c (λ i. i) rest_fuel q' (write σ (handle j) none) ≡ ok (t', τ))
        × (t ≡ labelled (handle j) (segments b) ++ t')
  unfolding schedule
  to_end zero q j l σ τ b t o e r = cc
  to_end (suc fuel) q j l σ τ (finish out) t o e r =
      let (q', p, o', back) = again q j l o in
      let (t₁, ran, e₁) = after_first c (λ i. i) law (λ i. refl) fuel σ τ (finish out) t p e r in
      (fuel, q', t₁, o', ran, e₁)
  to_end (suc fuel) q j l σ τ (await out a b) t o e r =
      let (q', p, o', back) = again q j l o in
      let (t₁, ran, e₁) = after_first c (λ i. i) law (λ i. refl) fuel σ τ (await out a b) t p e r in
      let σ₁ : Store A = write σ (handle j) (some (suspended b)) in
      let (f, q₂, t₂, o₂, ran₂, e₂) =
        to_end fuel (c.push j q') j l σ₁ τ b t₁ back (ground arith) ran in
      (f, q₂, t₂, o₂, rw (write-write σ (handle j) (some (suspended b)) none) at ran₂, cc)

  -- The coroutines run one after the other, in the order of the list.
  pub schedule-in_order :
      (l : List J) (q : Q) (fuel : ℕ) (σ τ : Store A) (t : Trace)
      → Orders q l
      → IsRunnable (map handle l) σ
      → schedule c (λ i. i) fuel q σ ≡ ok (t, τ)
      → t ≡ one_by_one σ (map handle l)
  unfolding schedule
  schedule-in_order [] q zero σ τ t o ready r = cc
  schedule-in_order [] q (suc fuel) σ τ t o ready r =
      let e : c.pop q ≡ none = at_end q o in
      sym (ap (λ (x : Trace × Store A). x.0) (ok-injective (rw (e, schedule) at r)))
  schedule-in_order (j ∷ l) q fuel σ τ t o ready r =
      let (b, at_b) = script-suspended σ (handle j) (head-live ready) in
      let (f, q', t', o', ran, e) = to_end fuel q j l σ τ b t o at_b r in
      let rest_run =
        schedule-in_order l q' f (write σ (handle j) none) τ t' o' (rest-IsRunnable ready) ran in
      e
      ∙ ap (λ (x : Trace). labelled (handle j) (segments b) ++ x)
          (rest_run ∙ one_by_one-write σ (handle j) (map handle l) (head-once ready))
      ∙ ap (λ (x : List (List Item)). labelled (handle j) x ++ one_by_one σ (map handle l))
          (sym (ap script_of at_b))
