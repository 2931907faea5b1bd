-- ===== src/Generator/Audio/Received.antt =====
-- The consumer receives every round of the producer.
use cpp20examples.Prelude.{
  append-nil, ℕ, zero, suc, ◌<◌, ◌≡◌, refl, ap, ◌∙◌, arith, true, false, List, [], ◌∷◌, ◌++◌,
  Option,
}
use cpp20examples.Prelude.Exec.{ok, out_of_fuel}
use cpp20examples.Generator.Audio.{
  Bool, yield_value, text, none, Producer, Line, func_name, received, no_data, values, producer,
  consumer, main, move_assign, produce,
}

-- The data that the lines of the output report.
abbrev pub data_of : List Line → List (List ℕ)
data_of [] = []
data_of (received d ∷ out) = d ∷ data_of out
data_of (_ ∷ out) = data_of out

-- Some data so many times.
abbrev pub times : ℕ → List ℕ → List (List ℕ)
times zero d = []
times (suc n) d = d ∷ times n d

data_of-append : (a b : List Line) → data_of (a ++ b) ≡ data_of a ++ data_of b
data_of-append [] b = refl
data_of-append (func_name l ∷ a) b = data_of-append a b
data_of-append (received d ∷ a) b = ap (λ (l : List (List ℕ)). d ∷ l) (data_of-append a b)
data_of-append (no_data ∷ a) b = data_of-append a b

-- The producer in front of a round prints its name, and yields.
produce-values :
    (n : ℕ) (d : List ℕ) (p : Producer)
    → produce (values (suc n) d) p
      ≡ (func_name (text "producer" ∷ []) ∷ [], yield_value d (record p { to_yield = values n d }))
produce-values zero d p = refl
produce-values (suc n) d p = refl

nothing_received :
    (n : ℕ) (d : List ℕ) (p : Producer) (out : List Line)
    → data_of ((produce (values n d) p).0 ++ out) ≡ data_of out
nothing_received zero d p out = refl
nothing_received (suc zero) d p out = refl
nothing_received (suc (suc n)) d p out = refl

module _ (x : ℕ) (xs : List ℕ) where
  -- The producer, once it stands at the first value of `n` rounds that are left.
  at_value : ℕ → List (List ℕ) → List ℕ → Bool → Producer
  at_value n t d r =
      (produce (values n (x ∷ xs))
        (record { to_yield = t; done = false; audio_data = d; data_ready = r })).1

  -- The consumer, where the producer stands at one of its values.
  consumer_lem :
      (n fuel : ℕ) (t : List (List ℕ)) (d : List ℕ) (r : Bool)
      → n < fuel
      → (out : List Line) × (p' : Producer) × (consumer fuel (at_value n t d r) ≡ ok (out, p'))
        × (data_of out ≡ times n (x ∷ xs))
        × (p'.done ≡ false)
        × (p'.to_yield ≡ [])
  unfolding consumer at_value
  consumer_lem n zero t d r h = absurd (omega arith)
  consumer_lem zero (suc fuel) t d r h = (_, _, refl, refl, refl, refl)
  consumer_lem (suc n) (suc fuel) t d r h =
      let next : Producer = record {
        to_yield = values n (x ∷ xs);
        done = false;
        audio_data = [];
        data_ready = true;
      } in
      let before : Producer = record {
        to_yield = t;
        done = false;
        audio_data = d;
        data_ready = r;
      } in
      let (out, p', ran, got, running, all) =
        consumer_lem n fuel (values n (x ∷ xs)) [] true (omega (arith, h)) in
      (
        func_name (text "consumer" ∷ [])
            ∷ received (x ∷ xs)
            ∷ func_name (text "resume" ∷ [])
            ∷ ((produce (values n (x ∷ xs)) next).0 ++ out),
        p',
        rw (produce-values n (x ∷ xs) before, ran) refl,
        ap (λ (l : List (List ℕ)). (x ∷ xs) ∷ l) (nothing_received n (x ∷ xs) next out ∙ got),
        running,
        all,
      )

-- For data that are not empty, any number of rounds of the producer, and fuel for them: `main` ends, no
-- data are awaited for ever, and the consumer receives exactly the data of each round. The producer
-- then stands at its last value and has not come to its end.
pub all_received :
    (x : ℕ) (xs : List ℕ) (n fuel : ℕ)
    → n < fuel
    → (out : List Line) × (p : Producer) × (main fuel n (x ∷ xs) ≡ ok (out, p))
      × (data_of out ≡ times n (x ∷ xs))
      × (p.done ≡ false)
      × (p.to_yield ≡ [])
unfolding main at_value
all_received x xs n fuel h =
    let empty : Producer = record {
      to_yield = [];
      done = false;
      audio_data = [];
      data_ready = false;
    } in
    let (out, p, ran, got, running, all) = consumer_lem x xs n fuel [] [] false h in
    let destructor : Line = func_name (text "~AudioDataResult" ∷ []) in
    let rest : List Line = out ++ destructor ∷ destructor ∷ [] in
    (
      (producer n (x ∷ xs)).0 ++ rest,
      p,
      rw ran refl,
      nothing_received n (x ∷ xs) empty rest
          ∙ data_of-append out (destructor ∷ destructor ∷ [])
          ∙ append-nil (data_of out)
          ∙ got,
      running,
      all,
    )

-- `operator=` never returns: it calls `std::swap`, which calls it.
pub move_assign_diverges :
    (fuel : ℕ) (this other : Option ℕ) → move_assign fuel this other ≡ out_of_fuel
unfolding move_assign
move_assign_diverges zero this other = refl
move_assign_diverges (suc fuel) this other = rw (move_assign_diverges fuel none other) refl
