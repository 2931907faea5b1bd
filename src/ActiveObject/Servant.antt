-- ===== src/ActiveObject/Servant.antt =====
-- The servant runs every task once, and each future gets the answer for the number of its task.
use cpp20examples.Prelude.{
  ◌≢◌, ℕ, zero, suc, ◌≤◌, ◌<◌, ◌≡◌, refl, ap, ◌∙◌, subst, arith, Bool, ◌==◌, if◌then◌else◌, List,
  [], ◌∷◌, ◌++◌, map, Option, none, some, length, ℕ_discrete,
}
use cpp20examples.Prelude.Exec.{ok, ◌>>=◌}
use cpp20examples.Coroutine.{write}
use cpp20examples.Threads.{write_other, write_self}
use cpp20examples.ActiveObject.{Job, States, run, get_all}
use cpp20examples.ActiveObject.Division.{Right, is_prime-Answers}
use cpp20examples.ActiveObject.Results.{AllRight}

-- The argument of the task with a future.
abbrev pub argument_of : List Job → ℕ → Option ℕ
argument_of [] f = none
argument_of (job ∷ jobs) f = if job.promise == f then some job.argument else argument_of jobs f

-- The shared states are numbered on from `k`.
abbrev pub Numbered : ℕ → List Job → Type 0
Numbered k [] = Unit {0}
Numbered k (job ∷ jobs) = (job.promise ≡ k) × Numbered (suc k) jobs

-- The numbers that `getRandNumbers` gives, a little wider.
abbrev pub InRange : ℕ → Type 0
InRange v = (2 ≤ v) × (v ≤ 1000000000)

abbrev pub AllInRange : List Job → Type 0
AllInRange [] = Unit {0}
AllInRange (job ∷ jobs) = InRange job.argument × AllInRange jobs

abbrev pub Answered : States → ℕ → ℕ → Type 0
Answered states f v = (b : Bool) × (states f ≡ some (b, v)) × Right (b, v)

head_argument :
    (job : Job) (jobs : List Job) (f v : ℕ)
    → job.promise ≡ f
    → argument_of (job ∷ jobs) f ≡ some v
    → job.argument ≡ v
head_argument job jobs f v same a = ground arith

tail_argument :
    (job : Job) (jobs : List Job) (f : ℕ)
    → job.promise ≢ f
    → argument_of jobs f ≡ argument_of (job ∷ jobs) f
tail_argument job jobs f other = ground arith

Ran : ℕ → ℕ → List Job → States → Type 0
Ran fuel k jobs states =
    (states' : States) × (run fuel jobs states ≡ ok states')
    × ((f v : ℕ) → argument_of jobs f ≡ some v → Answered states' f v)
    × ((f : ℕ) → f < k → states' f ≡ states f)

run-Ran :
    (jobs : List Job) (fuel k : ℕ) (states : States)
    → length jobs < fuel
    → Numbered k jobs
    → AllInRange jobs
    → Ran fuel k jobs states
unfolding Ran run
run-Ran jobs zero k states h c g = absurd (omega arith)
run-Ran [] (suc fuel) k states h c g = (states, refl, λ f v e. cc, λ f l. refl)
run-Ran (job ∷ jobs) (suc fuel) k states h (c, cs) (g, gs) =
    let (b, e, right) = is_prime-Answers job.argument g.0 g.1 in
    let (states', ran, answered, kept) =
      run-Ran jobs fuel (suc k) (write states job.promise (some (b, job.argument)))
        (omega (arith, h)) cs gs in
    (
      states',
      rw e ran,
      λ f v a. elim (ℕ_discrete job.promise f) [
        | yes same ↦ subst (Answered states' f) (head_argument job jobs f v same a) (
          b,
          kept f (omega (arith, c, same))
              ∙ write_self states job.promise f (some (b, job.argument)) same,
          right,
        )
        | no other ↦ answered f v (tail_argument job jobs f other ∙ a)
      ],
      λ f l.
          kept f (omega (arith, l))
          ∙ write_other states job.promise f (some (b, job.argument))
              (λ (q : job.promise ≡ f). omega (arith, c, l, q)),
    )

-- The futures are those of tasks with these arguments.
abbrev pub Futures : List Job → List ℕ → List ℕ → Type 0
Futures jobs [] [] = Unit {0}
Futures jobs (f ∷ fs) (v ∷ vs) = (argument_of jobs f ≡ some v) × Futures jobs fs vs
Futures jobs _ _ = ⊥

Got : List ℕ → List ℕ → States → Type 0
Got fs vs states =
    (ps : List (Bool × ℕ)) × (get_all fs states ≡ ok ps)
    × (map (λ (p : Bool × ℕ). p.1) ps ≡ vs)
    × AllRight ps

get_all-Got :
    (jobs : List Job) (states : States) (fs vs : List ℕ)
    → ((f v : ℕ) → argument_of jobs f ≡ some v → Answered states f v)
    → Futures jobs fs vs
    → Got fs vs states
unfolding Got get_all
get_all-Got jobs states [] [] h g = ([], refl, refl, tt)
get_all-Got jobs states [] (v ∷ vs) h g = absurd g
get_all-Got jobs states (f ∷ fs) [] h g = absurd g
get_all-Got jobs states (f ∷ fs) (v ∷ vs) h (g, gs) =
    let (b, e, right) = h f v g in
    let (ps, got, same, rights) = get_all-Got jobs states fs vs h gs in
    ((b, v) ∷ ps, rw (e, get_all, got) refl, ap (λ (l : List ℕ). v ∷ l) same, (right, rights))

-- The results for the futures of a numbered list of tasks.
pub results :
    (fuel : ℕ) (jobs : List Job) (fs vs : List ℕ)
    → length jobs < fuel
    → Numbered 0 jobs
    → AllInRange jobs
    → Futures jobs fs vs
    → (ps : List (Bool × ℕ)) × ((run fuel jobs (λ f. none) >>= get_all fs) ≡ ok ps)
      × (map (λ (p : Bool × ℕ). p.1) ps ≡ vs)
      × AllRight ps
unfolding Ran Got
results fuel jobs fs vs h c g futures =
    let (states', ran, answered, kept) = run-Ran jobs fuel 0 (λ f. none) h c g in
    let (ps, got, same, rights) = get_all-Got jobs states' fs vs answered futures in
    (ps, rw ran got, same, rights)

pub Futures-append :
    (jobs : List Job) (fs gs vs ws : List ℕ)
    → Futures jobs fs vs
    → Futures jobs gs ws
    → Futures jobs (fs ++ gs) (vs ++ ws)
Futures-append jobs [] gs [] ws h k = k
Futures-append jobs [] gs (v ∷ vs) ws h k = absurd h
Futures-append jobs (f ∷ fs) gs [] ws h k = absurd h
Futures-append jobs (f ∷ fs) gs (v ∷ vs) ws h k = (h.0, Futures-append jobs fs gs vs ws h.1 k)
