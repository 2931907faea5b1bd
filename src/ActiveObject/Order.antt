-- ===== src/ActiveObject/Order.antt =====
-- In whichever order the clients enqueue their tasks, the output is that for their numbers.
use cpp20examples.Prelude.{
  ℕ, zero, suc, ◌+◌, ◌<◌, ◌≡◌, refl, sym, ap, ◌∙◌, subst, arith, List, [], ◌∷◌, ◌++◌, append_assoc,
  append-nil, some, length, ℕ_discrete, length-append,
}
use cpp20examples.Prelude.Exec.{ok}
use cpp20examples.Steps.{Reach, Reach-invariant}
use cpp20examples.Threads.{System, pick, write_self, write_other}
use cpp20examples.ActiveObject.{
  Job, ActiveObject, Client, Act, enqueue, init, MainStep, all_futures, main_ends, Output, separate,
  sort,
}
use cpp20examples.ActiveObject.Results.{IsOutput, sort-IsOutput, All}
use cpp20examples.ActiveObject.Servant.{
  argument_of, Numbered, AllInRange, InRange, Futures, Futures-append, results,
}

-- What the list of tasks keeps when a task is added to it.
Numbered-append :
    (k p i : ℕ) (jobs : List Job)
    → p ≡ k + length jobs
    → Numbered k jobs
    → Numbered k (jobs ++ record { promise = p; argument = i } ∷ [])
Numbered-append k p i [] e c = (omega (arith, e), tt)
Numbered-append k p i (job ∷ jobs) e (c, cs) =
    (c, Numbered-append (suc k) p i jobs (omega (arith, e)) cs)

AllInRange-append :
    (jobs : List Job) (j : Job) → AllInRange jobs → InRange j.argument → AllInRange (jobs ++ j ∷ [])
AllInRange-append [] j g h = (h, tt)
AllInRange-append (job ∷ jobs) j g h = (g.0, AllInRange-append jobs j g.1 h)

argument_of-append :
    (jobs : List Job) (j : Job) (f v : ℕ)
    → argument_of jobs f ≡ some v
    → argument_of (jobs ++ j ∷ []) f ≡ some v
argument_of-append [] j f v e = cc
argument_of-append (job ∷ jobs) j f v e = ground (arith, argument_of-append jobs j f v)

argument_of-added :
    (k p i : ℕ) (jobs : List Job)
    → p ≡ k + length jobs
    → Numbered k jobs
    → argument_of (jobs ++ record { promise = p; argument = i } ∷ []) p ≡ some i
argument_of-added k p i [] e c = ground arith
argument_of-added k p i (job ∷ jobs) e (c, cs) =
    ground (arith, argument_of-added (suc k) p i jobs (omega (arith, e)) cs)

Futures-grow :
    (jobs : List Job) (j : Job) (fs vs : List ℕ)
    → Futures jobs fs vs
    → Futures (jobs ++ j ∷ []) fs vs
Futures-grow jobs j [] [] h = tt
Futures-grow jobs j [] (v ∷ vs) h = absurd h
Futures-grow jobs j (f ∷ fs) [] h = absurd h
Futures-grow jobs j (f ∷ fs) (v ∷ vs) h =
    (argument_of-append jobs j f v h.0, Futures-grow jobs j fs vs h.1)

module _ (numbers : ℕ → List ℕ) where
  -- What a client has enqueued, and has still to enqueue.
  Enqueued : List Job → ℕ → Client → Type 0
  Enqueued jobs i client =
      (vs : List ℕ) × Futures jobs client.futures vs
      × (vs ++ client.remaining ≡ numbers i)
      × All InRange client.remaining

  record Inv (s : System ActiveObject Client) : Type 0 where
    pub numbered : Numbered 0 s.memory.activation_list
    pub next_number : s.memory.next ≡ length s.memory.activation_list
    pub in_range : AllInRange s.memory.activation_list
    pub enqueued : (i : ℕ) → Enqueued s.memory.activation_list i (s.pc i)

  init-Inv : ((i : ℕ) → All InRange (numbers i)) → Inv (init numbers)
  unfolding Enqueued
  init-Inv g = record {
    numbered = tt;
    next_number = refl;
    in_range = tt;
    enqueued = λ i. ([], tt, refl, g i);
  }

  -- The client that enqueues, and one that does not.
  Act-Enqueued :
      {a a' : ActiveObject} {c c' : Client} (i : ℕ)
      → Act a c a' c'
      → Numbered 0 a.activation_list
      → a.next ≡ length a.activation_list
      → Enqueued a.activation_list i c
      → Enqueued a'.activation_list i c'
  unfolding Enqueued
  Act-Enqueued i (enqueue {a = a} {i = v} {fs = fs}) c e (vs, futures, same, g) = (
    vs ++ v ∷ [],
    Futures-append _ fs (a.next ∷ []) vs (v ∷ []) (Futures-grow a.activation_list _ fs vs futures)
        (argument_of-added 0 a.next v a.activation_list (omega (arith, e)) c, tt),
    append_assoc vs (v ∷ []) _ ∙ same,
    g.1,
  )

  Enqueued-grow :
      {a a' : ActiveObject} {c c' : Client} (d : Client) (i : ℕ)
      → Act a c a' c'
      → Enqueued a.activation_list i d
      → Enqueued a'.activation_list i d
  unfolding Enqueued
  Enqueued-grow d i (enqueue {a = a}) (vs, futures, same, g) =
      (vs, Futures-grow a.activation_list _ d.futures vs futures, same, g)

  Act-list :
      {a a' : ActiveObject} {c c' : Client} (i : ℕ)
      → Act a c a' c'
      → Numbered 0 a.activation_list
      → a.next ≡ length a.activation_list
      → AllInRange a.activation_list
      → Enqueued a.activation_list i c
      → Numbered 0 a'.activation_list
        × (a'.next ≡ length a'.activation_list)
        × AllInRange a'.activation_list
  unfolding Enqueued
  Act-list i (enqueue {a = a} {i = v}) c e g (vs, futures, same, r) = (
    Numbered-append 0 a.next v a.activation_list (omega (arith, e)) c,
    omega (
      arith,
      e,
      length-append a.activation_list (record { promise = a.next; argument = v } ∷ []),
    ),
    AllInRange-append a.activation_list _ g r.0,
  )

  Step-Inv : (n : ℕ) (s t : System ActiveObject Client) → Inv s → MainStep n s t → Inv t
  Step-Inv n s t inv (pick i l {p = p} act) =
      let (c, e, g) = Act-list i act inv.numbered inv.next_number inv.in_range (inv.enqueued i) in
      record {
        numbered = c;
        next_number = e;
        in_range = g;
        enqueued = λ k. elim (ℕ_discrete i k) [
          | yes same ↦
              subst (Enqueued t.memory.activation_list k) (sym (write_self s.pc i k p same)) (
                subst (λ (j : ℕ). Enqueued t.memory.activation_list j p) same
                  (Act-Enqueued i act inv.numbered inv.next_number (inv.enqueued i)))
          | no other ↦
              subst (Enqueued t.memory.activation_list k) (sym (write_other s.pc i k p other))
                (Enqueued-grow (s.pc k) k act (inv.enqueued k))
        ];
      }

  -- The numbers of all clients.
  abbrev pub all_numbers : ℕ → List ℕ
  all_numbers zero = []
  all_numbers (suc n) = all_numbers n ++ numbers n

  all_futures-Futures :
      (n : ℕ) (s : System ActiveObject Client)
      → Inv s
      → ((i : ℕ) → i < n → (s.pc i).remaining ≡ [])
      → Futures s.memory.activation_list (all_futures n s.pc) (all_numbers n)
  unfolding Enqueued
  all_futures-Futures zero s inv h = tt
  all_futures-Futures (suc n) s inv h =
      let (vs, futures, same, g) = inv.enqueued n in
      let e : vs ≡ numbers n =
        sym (append-nil vs) ∙ ap (λ (l : List ℕ). vs ++ l) (sym (h n (omega arith))) ∙ same in
      Futures-append s.memory.activation_list (all_futures n s.pc) (s.pc n).futures (all_numbers n)
        (numbers n) (all_futures-Futures n s inv (λ i l. h i (omega arith)))
        (subst (Futures s.memory.activation_list (s.pc n).futures) e futures)

-- For `n` clients whose numbers lie between 2 and 1,000,000,000, after any order of their calls of
-- `enqueueTask` in which all numbers have been enqueued, and with fuel for each task: the servant and
-- the rest of `main` end with output. Its first list has no prime number and its second list nothing
-- else, both are sorted, and together they have each number as often as the clients do.
pub active_object_output :
    (n : ℕ) (numbers : ℕ → List ℕ) {s : System ActiveObject Client} (fuel : ℕ)
    → ((i : ℕ) → All InRange (numbers i))
    → Reach (MainStep n) (init numbers) s
    → ((i : ℕ) → i < n → (s.pc i).remaining ≡ [])
    → length s.memory.activation_list < fuel
    → (o : Output) × (main_ends fuel n s ≡ ok o) × IsOutput (all_numbers numbers n) o
unfolding main_ends
active_object_output n numbers {s} fuel g r done h =
    let inv =
      Reach-invariant (MainStep n) (Inv numbers) (Step-Inv numbers n) (init-Inv numbers g) r in
    let (ps, ran, same, right) =
      results fuel s.memory.activation_list (all_futures n s.pc) (all_numbers numbers n) h
        inv.numbered inv.in_range (all_futures-Futures numbers n s inv done) in
    (
      separate (sort ps),
      rw ran refl,
      subst (λ (l : List ℕ). IsOutput l (separate (sort ps))) same (sort-IsOutput ps right),
    )
