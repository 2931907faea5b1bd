-- ===== src/Scheduler/Loop/Complete.antt =====
-- `schedule` over any container that keeps its jobs: with enough fuel it meets no undefined
-- behaviour, runs every coroutine to its end, and frees exactly the frames that it was given.
use cpp20examples.Prelude.{
  ℕ, zero, suc, ◌+◌, ◌≤◌, ◌<◌, ◌≡◌, ap, sym, ◌∙◌, ◌==◌, if◌then◌else◌, List, [], ◌∷◌, Option, none,
  some, arith, length, total, count, total-congr, Option-cases, inl, inr,
}
use cpp20examples.Prelude.Exec.{ok, ◌>>=◌, >>=-ok, ok-injective}
use cpp20examples.Coroutine.{
  Body, Frame, finish, await, Store, write, script, script_of, suspended, final_suspended, resume,
  done, destroy,
}
use cpp20examples.Coroutine.Laws.{first, next, segments-eq, write-write, script-suspended}
use cpp20examples.Scheduler.Loop.{Container, Trace, output_of, turn, schedule}

-- What the loop needs of a container: no job is lost or made up. `contents` lists the handles in
-- any order, and the laws speak of sums over it.
pub record IsContainer {J Q : Type 0} (c : Container J Q) : Type 0 where
  pub contents : Q → List ℕ
  pub pop_none : (q : Q) → c.pop q ≡ none → contents q ≡ []
  pub pop_some :
      (w : ℕ → ℕ) (q q' : Q) (j : J)
      → c.pop q ≡ some (j, q')
      → total w (contents q) ≡ w (c.handle j) + total w (contents q')
  pub push_total :
      (w : ℕ → ℕ) (q : Q) (j : J)
      → total w (contents (c.push j q)) ≡ w (c.handle j) + total w (contents q)

-- Every handle stands in the list once at most, and its coroutine is suspended inside its body.
pub record IsRunnable {A : Type 0} (hs : List ℕ) (σ : Store A) : Type 0 where
  pub once : (h : ℕ) → count h hs ≤ 1
  pub live : (h : ℕ) → count h hs ≤ length (script σ h)

module _ {A J Q : Type 0} (c : Container J Q) (update : J → J) (law : IsContainer c)
    (same_handle : (j : J) → c.handle (update j) ≡ c.handle j) where
  open c use {handle, pop, push}
  open law use {contents}

  abbrev pub IsReady : Q → Store A → Type 0
  IsReady q σ = IsRunnable (contents q) σ

  -- The jobs left after a turn: the coroutine's own goes back unless its body has ended.
  abbrev pub requeue : Body A → J → Q → Q
  requeue (finish out) j q = q
  requeue (await out a b) j q = push (update j) q

  -- A turn on a coroutine that is suspended in its body.
  pub turn_lem :
      (j : J) (q : Q) (σ : Store A) (b : Body A)
      → σ (handle j) ≡ some (suspended b)
      → turn c update j q σ ≡ ok (first b, requeue b j q, write σ (handle j) (next b))
  unfolding turn resume done destroy
  turn_lem j q σ (finish out) e =
      rw e (ground (arith, write-write σ (handle j) (some final_suspended) none))
  turn_lem j q σ (await out a b) e = rw e (ground arith)

  -- The total weight after a turn.
  abbrev again : Body A → ℕ → ℕ
  again (finish out) n = 0
  again (await out a b) n = n

  requeue-total :
      (w : ℕ → ℕ) (b : Body A) (j : J) (q : Q)
      → total w (contents (requeue b j q)) ≡ again b (w (handle j)) + total w (contents q)
  requeue-total w (finish out) j q = omega arith
  requeue-total w (await out a b) j q = rw (law.push_total w q (update j), same_handle j)

  -- What `schedule` comes to from a state.
  pub record Completes (fuel : ℕ) (q : Q) (σ : Store A) : Type 0 where
    pub trace : Trace
    pub store : Store A
    pub runs : schedule c update fuel q σ ≡ ok (trace, store)
    pub freed : (h : ℕ) → store h ≡ (if count h (contents q) == 0 then σ h else none)
    pub prints :
        (h : ℕ) → output_of h trace ≡ (if count h (contents q) == 0 then [] else script σ h)

  -- How often the coroutines in the container have still to be resumed.
  abbrev pub work : Q → Store A → ℕ
  work q σ = total (λ h. length (script σ h)) (contents q)

  -- One round of the loop.
  pub schedule-popped :
      (fuel : ℕ) {q q' : Q} {j : J} (σ : Store A) (b : Body A)
      → pop q ≡ some (j, q')
      → σ (handle j) ≡ some (suspended b)
      → schedule c update (suc fuel) q σ ≡ (
          schedule c update fuel (requeue b j q') (write σ (handle j) (next b)) >>= λ r.
          ok ((handle j, first b) ∷ r.0, r.1))
  unfolding schedule
  schedule-popped fuel σ b p e = rw (p, schedule) (rw (turn_lem _ _ σ b e))

  -- A run that succeeds is one round and a run that succeeds.
  pub after_first :
      (fuel : ℕ) {q q' : Q} {j : J} (σ τ : Store A) (b : Body A) (t : Trace)
      → pop q ≡ some (j, q')
      → σ (handle j) ≡ some (suspended b)
      → schedule c update (suc fuel) q σ ≡ ok (t, τ)
      → (t' : Trace) × (schedule c update fuel (requeue b j q') (write σ (handle j) (next b))
          ≡ ok (t', τ))
        × (t ≡ (handle j, first b) ∷ t')
  after_first fuel σ τ b t p e r =
      let ((t', τ'), ran, final) = >>=-ok _ _ (sym (schedule-popped fuel σ b p e) ∙ r) in
      (
        t',
        ran
            ∙ ap (λ (τ₁ : Store A). ok (t', τ₁))
                (ap (λ (x : Trace × Store A). x.1) (ok-injective final)),
        sym (ap (λ (x : Trace × Store A). x.0) (ok-injective final)),
      )

  module _ {q q' : Q} {j : J} (popped : pop q ≡ some (j, q')) {σ : Store A}
      (ready : IsReady q σ) where
    abbrev σ' : Body A → Store A
    σ' b = write σ (handle j) (next b)

    pub popped-count :
        (h : ℕ) → count h (contents q) ≡ (if handle j == h then 1 else 0) + count h (contents q')
    popped-count h = law.pop_some (λ x. if x == h then 1 else 0) q q' j popped

    requeue-count :
        (b : Body A) (h : ℕ)
        → count h (contents (requeue b j q'))
          ≡ again b (if handle j == h then 1 else 0) + count h (contents q')
    requeue-count b h = requeue-total (λ x. if x == h then 1 else 0) b j q'

    pub turn-IsReady : (b : Body A) → IsReady (requeue b j q') (σ' b)
    turn-IsReady (finish out) = record {
      once = λ h. omega (arith, popped-count h, ready.once h);
      live = λ h. ground (arith, popped-count h, ready.once h, ready.live h);
    }
    turn-IsReady (await out a b) = record {
      once = λ h. omega (arith, popped-count h, ready.once h, requeue-count (await out a b) h);
      live = λ h. ground (
        arith,
        popped-count h,
        ready.once h,
        ready.live h,
        requeue-count (await out a b) h,
        segments-eq b,
      );
    }

    -- The other jobs have as much left to do as before.
    others-work :
        (b : Body A)
        → total (λ h. length (script (σ' b) h)) (contents q')
          ≡ total (λ h. length (script σ h)) (contents q')
    others-work b =
        total-congr _ _ (contents q') (λ h p. ground (arith, popped-count h, ready.once h))

    turn-work :
        (b : Body A)
        → σ (handle j) ≡ some (suspended b)
        → work (requeue b j q') (σ' b) + 1 ≡ work q σ
    turn-work (finish out) e = omega (
      arith,
      others-work (finish out),
      law.pop_some (λ h. length (script σ h)) q q' j popped,
      ap (λ (f : Option (Frame A)). length (script_of f)) e,
    )
    turn-work (await out a b) e = ground (
      arith,
      others-work (await out a b),
      requeue-total (λ h. length (script (σ' (await out a b)) h)) (await out a b) j q',
      law.pop_some (λ h. length (script σ h)) q q' j popped,
      ap (λ (f : Option (Frame A)). length (script_of f)) e,
    )

    turn-prints :
        (b : Body A)
        → σ (handle j) ≡ some (suspended b)
        → (h : ℕ) (t : Trace)
        → output_of h t ≡ (if count h (contents (requeue b j q')) == 0 then [] else script (σ' b) h)
        → output_of h ((handle j, first b) ∷ t)
          ≡ (if count h (contents q) == 0 then [] else script σ h)
    turn-prints (finish out) e h t p = ground (arith, popped-count h, ready.once h, ap script_of e)
    turn-prints (await out a b) e h t p =
        ground
          (arith, popped-count h, ready.once h, requeue-count (await out a b) h, ap script_of e)

    pub popped-live : 0 < length (script σ (handle j))
    popped-live = ground (arith, popped-count (handle j), ready.live (handle j))

    -- What the rest of the run says of the whole run.
    turn-Completes :
        (fuel : ℕ) (b : Body A)
        → σ (handle j) ≡ some (suspended b)
        → Completes fuel (requeue b j q') (σ' b)
        → Completes (suc fuel) q σ
    turn-Completes fuel b e r = record {
      trace = (handle j, first b) ∷ r.trace;
      store = r.store;
      runs = rw (schedule-popped fuel σ b popped e) (rw r.runs);
      freed = λ h. ground (arith, r.freed h, popped-count h, requeue-count b h, ready.once h);
      prints = λ h. turn-prints b e h r.trace (r.prints h);
    }

  pub schedule-Completes :
      (fuel : ℕ) (q : Q) (σ : Store A) → IsReady q σ → work q σ < fuel → Completes fuel q σ
  unfolding schedule
  schedule-Completes zero q σ ready m = absurd (omega arith)
  schedule-Completes (suc fuel) q σ ready m = elim (Option-cases (pop q)) [
    | inl e ↦ record {
      trace = [];
      store = σ;
      runs = rw (e, schedule);
      freed = λ h. rw (law.pop_none q e);
      prints = λ h. rw (law.pop_none q e);
    }
    | inr ((j, q'), e) ↦
        let (b, suspended_at) = script-suspended σ (handle j) (popped-live e ready) in
        turn-Completes e ready fuel b suspended_at (
          schedule-Completes fuel (requeue b j q') (σ' e ready b) (turn-IsReady e ready b)
            (omega (arith, turn-work e ready b suspended_at)))
  ]
