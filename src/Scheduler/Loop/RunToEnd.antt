-- ===== src/Scheduler/Loop/RunToEnd.antt =====
-- `schedule` over a container that hands a job out again as soon as it is put back: each coroutine
-- runs to its end before the next one starts.
use cpp20examples.Prelude.{
  ℕ, zero, suc, ◌<◌, ◌≡◌, refl, sym, ap, ◌∙◌, subst, ◌==◌, if◌then◌else◌, List, [], ◌∷◌, ◌++◌, none,
  some, arith, total, count,
}
use cpp20examples.Prelude.Exec.{ok, ok-injective}
use cpp20examples.Coroutine.{
  Item, Body, finish, await, Store, write, script, script_of, segments, suspended,
}
use cpp20examples.Coroutine.Laws.{script-suspended, write-write}
use cpp20examples.Scheduler.Loop.{Container, Trace, schedule}
use cpp20examples.Scheduler.Loop.Complete.{
  IsContainer, IsReady, turn-IsReady, popped-live, popped-count, after_first, work,
  schedule-Completes,
}

-- The whole output of one coroutine.
abbrev pub labelled : ℕ → List (List Item) → Trace
labelled h [] = []
labelled h (s ∷ ss) = (h, s) ∷ labelled h ss

-- The coroutines of a list one after the other, each to its end.
abbrev pub one_by_one : {A : Type 0} → Store A → List ℕ → Trace
one_by_one σ [] = []
one_by_one σ (h ∷ hs) = labelled h (script σ h) ++ one_by_one σ hs

-- `pop`, again and again, gives these handles.
pub data Drains {J Q : Type 0} (c : Container J Q) : Q → List ℕ → Type 0 where
  drained : {q : Q} → c.pop q ≡ none → Drains c q []
  drain :
      {q q' : Q} {j : J} {hs : List ℕ}
      → c.pop q ≡ some (j, q')
      → Drains c q' hs
      → Drains c q (c.handle j ∷ hs)

self : (h : ℕ) → (if h == h then 1 else 0) ≡ suc zero
self h = ground arith

module _ {A : Type 0} where
  pub one_by_one-write :
      (σ : Store A) (h : ℕ) (hs : List ℕ)
      → count h hs ≡ 0
      → one_by_one (write σ h none) hs ≡ one_by_one σ hs
  one_by_one-write σ h [] e = refl
  one_by_one-write σ h (x ∷ hs) e = ground (arith, one_by_one-write σ h hs)

Drains-total :
    {J Q : Type 0} (c : Container J Q) (law : IsContainer c) {q : Q} {hs : List ℕ}
    → Drains c q hs
    → (w : ℕ → ℕ) → total w hs ≡ total w (law.contents q)
Drains-total c law (drained e) w = rw (law.pop_none _ e)
Drains-total c law (drain p d) w = omega (arith, law.pop_some w _ _ _ p, Drains-total c law d w)

module _ {A J Q : Type 0} (c : Container J Q) (law : IsContainer c) (Ordered : Q → Type 0)
    (again : (q q' : Q) (j : J)
      → Ordered q
      → c.pop q ≡ some (j, q')
      → (c.push j q' ≡ q) × Ordered q') where
  open c use {handle, pop, push}

  -- The run of the first coroutine to its end, and the run after that.
  to_end :
      (fuel : ℕ) {q q' : Q} {j : J} (σ τ : Store A) (b : Body A) (t : Trace)
      → Ordered q
      → pop q ≡ some (j, q')
      → σ (handle j) ≡ some (suspended b)
      → schedule c (λ i. i) fuel q σ ≡ ok (t, τ)
      → (rest_fuel : ℕ) × (t' : Trace) × (schedule c (λ i. i) rest_fuel q' (write σ (handle j) none)
          ≡ ok (t', τ))
        × (t ≡ labelled (handle j) (segments b) ++ t')
  unfolding schedule
  to_end zero σ τ b t o p e r = cc
  to_end (suc fuel) σ τ (finish out) t o p e r =
      let (t₁, ran, e₁) = after_first c (λ i. i) law (λ i. refl) fuel σ τ (finish out) t p e r in
      (fuel, t₁, ran, e₁)
  to_end (suc fuel) {q = q} {q' = q'} {j = j} σ τ (await out a b) t o p e r =
      let (t₁, ran, e₁) = after_first c (λ i. i) law (λ i. refl) fuel σ τ (await out a b) t p e r in
      let σ₁ : Store A = write σ (handle j) (some (suspended b)) in
      let ran' : schedule c (λ i. i) fuel q σ₁ ≡ ok (t₁, τ) =
        subst (λ (x : Q). schedule c (λ i. i) fuel x σ₁ ≡ ok (t₁, τ)) (again q q' j o p).0 ran in
      let (f, t₂, ran₂, e₂) = to_end fuel σ₁ τ b t₁ o p (ground arith) ran' in
      (f, t₂, rw (write-write σ (handle j) (some (suspended b)) none) at ran₂, cc)

  -- The coroutines run one after the other, in the order in which `pop` gives them.
  pub schedule-one_by_one :
      {q : Q} {hs : List ℕ}
      → Drains c q hs
      → Ordered q
      → (fuel : ℕ) (σ τ : Store A) (t : Trace) → IsReady c (λ i. i) law (λ i. refl) q σ
      → schedule c (λ i. i) fuel q σ ≡ ok (t, τ)
      → t ≡ one_by_one σ hs
  unfolding schedule
  schedule-one_by_one (drained e) o zero σ τ t ready r = cc
  schedule-one_by_one (drained e) o (suc fuel) σ τ t ready r =
      sym (ap (λ (x : Trace × Store A). x.0) (ok-injective (rw (e, schedule) at r)))
  schedule-one_by_one (drain {q = q} {q' = q'} {j = j} {hs = hs} p d) o fuel σ τ t ready r =
      let (b, at_b) =
        script-suspended σ (handle j) (popped-live c (λ i. i) law (λ i. refl) p ready) in
      let (f, t', ran, e) = to_end fuel σ τ b t o p at_b r in
      let ready' = turn-IsReady c (λ i. i) law (λ i. refl) p ready (finish []) in
      let absent : count (handle j) hs ≡ 0 = omega (
        arith,
        Drains-total c law d (λ x. if x == handle j then 1 else 0),
        popped-count c (λ i. i) law (λ i. refl) p ready (handle j),
        ready.once (handle j),
        self (handle j),
      ) in
      let rest_run =
        schedule-one_by_one d (again q q' j o p).1 f (write σ (handle j) none) τ t' ready' ran in
      e
      ∙ ap (λ (x : Trace). labelled (handle j) (segments b) ++ x)
          (rest_run ∙ one_by_one-write σ (handle j) hs absent)
      ∙ ap (λ (x : List (List Item)). labelled (handle j) x ++ one_by_one σ hs)
          (sym (ap script_of at_b))

  -- From a ready state and with enough fuel the run succeeds, prints that, and frees the frames.
  pub schedule-runs_to_end :
      {q : Q} {hs : List ℕ}
      → Drains c q hs
      → Ordered q
      → (fuel : ℕ) (σ : Store A) (ready : IsReady c (λ i. i) law (λ i. refl) q σ)
      → work c (λ i. i) law (λ i. refl) q σ < fuel
      → (τ : Store A) × (schedule c (λ i. i) fuel q σ ≡ ok (one_by_one σ hs, τ))
        × ((h : ℕ) → τ h ≡ (if count h (law.contents q) == 0 then σ h else none))
  schedule-runs_to_end {q} d o fuel σ ready m =
      let r = schedule-Completes c (λ i. i) law (λ i. refl) fuel q σ ready m in
      (
        r.store,
        r.runs
            ∙ ap (λ (t : Trace). ok (t, r.store))
                (schedule-one_by_one d o fuel σ r.store r.trace ready r.runs),
        r.freed,
      )
