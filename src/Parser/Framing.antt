-- ===== src/Parser/Framing.antt =====
-- What the parser makes of a stream in which each frame is encoded and preceded by one more byte.
use cpp20examples.Prelude.{
  arith, ◌⊎◌, ==_iff, inl, inr, Bool-cases, ℕ, ◌≡◌, refl, ap, ◌∙◌, ◌==◌, if◌then◌else◌, List, [],
  ◌∷◌, ◌++◌, Option, none, some, append-nil, append_assoc,
}
use cpp20examples.Parser.{
  map, esc, sof, Point, at_start, await_esc, await_sof, await_byte, await_escaped, at_yield,
  Generator, parse, process_byte, process_stream,
}

-- The bytes of a frame, with every `ESC` doubled.
unfoldable pub stuff : List ℕ → List ℕ
stuff [] = []
stuff (b ∷ bs) = if esc == b then esc ∷ esc ∷ stuff bs else b ∷ stuff bs

-- A frame on the line.
unfoldable pub encode : List ℕ → List ℕ
unfolding stuff
encode frame = esc ∷ sof ∷ (stuff frame ++ esc ∷ sof ∷ [])

-- The frames of a run, and where the coroutine is after it.
abbrev pub frames : List ℕ → Generator → List (List ℕ)
frames bs g = (process_stream bs g).0

abbrev pub after : List ℕ → Generator → Generator
after bs g = (process_stream bs g).1

-- A stream that is cut in two gives the same frames as the whole, and leaves the coroutine in the
-- same state.
pub process_stream-append :
    (xs ys : List ℕ) (g : Generator)
    → process_stream (xs ++ ys) g ≡ (frames xs g ++ frames ys (after xs g), after ys (after xs g))
unfolding process_stream
process_stream-append [] ys g = refl
process_stream-append (x ∷ xs) ys g =
    let ih = process_stream-append xs ys (process_byte x g).1 in rw (ih, append_assoc)

-- A generator that waits at a point, with no frame stored.
abbrev pub waiting : Point → ℕ → Generator
waiting p b = record { point = p; value = none; last_byte = b }

-- The byte stored last.
abbrev pub last_of : ℕ → List ℕ → ℕ
last_of l [] = l
last_of l (b ∷ bs) = last_of b bs

-- What a byte at a suspend point comes to.
abbrev pub handed : Point × Option (List ℕ) → ℕ → List (List ℕ) × Generator
handed (p, none) b = ([], waiting p b)
handed (p, some frame) b = (frame ∷ [], waiting p b)

handed-pair :
    (r : Point × Option (List ℕ)) (p : Point) (b l : ℕ)
    → parse p b ≡ r
    → process_byte b (waiting p l) ≡ handed r b
unfolding process_byte
handed-pair (p', none) p b l e = ground arith
handed-pair (p', some frame) p b l e = ground arith

pub process_byte_lem : (p : Point) (b l : ℕ) → process_byte b (waiting p l) ≡ handed (parse p b) b
process_byte_lem p b l = handed-pair (parse p b) p b l refl

-- A byte that completes no frame.
pub quiet :
    (p p' : Point) (b l : ℕ) (bs : List ℕ)
    → parse p b ≡ (p', none)
    → process_stream (b ∷ bs) (waiting p l) ≡ process_stream bs (waiting p' b)
unfolding process_stream
quiet p p' b l bs e = rw (handed-pair (p', none) p b l e)

-- The inside of a frame is collected.
process_stream-stuff :
    (acc frame rest : List ℕ) (l : ℕ)
    → process_stream (stuff frame ++ rest) (waiting (await_byte acc) l)
      ≡ process_stream rest (waiting (await_byte (acc ++ frame)) (last_of l (stuff frame)))
unfolding stuff parse
process_stream-stuff acc [] rest l = rw append-nil
process_stream-stuff acc (b ∷ frame) rest l = elim (Bool-cases (esc == b)) [
  | inl e ↦ rw e (
      quiet (await_byte acc) (await_escaped acc) esc l (esc ∷ (stuff frame ++ rest)) refl
      ∙ quiet (await_escaped acc) (await_byte (acc ++ esc ∷ [])) esc esc (stuff frame ++ rest) refl
      ∙ process_stream-stuff (acc ++ esc ∷ []) frame rest esc
      ∙ ap
          (λ (x : List ℕ). process_stream rest (waiting (await_byte x) (last_of esc (stuff frame))))
          (append_assoc acc (esc ∷ []) frame
            ∙ ap (λ (x : ℕ). acc ++ x ∷ frame) ((==_iff esc b).0 e)))
  | inr e ↦ rw e (
      quiet (await_byte acc) (await_byte (acc ++ b ∷ [])) b l (stuff frame ++ rest) (rw e)
      ∙ process_stream-stuff (acc ++ b ∷ []) frame rest b
      ∙ ap (λ (x : List ℕ). process_stream rest (waiting (await_byte x) (last_of b (stuff frame))))
          (append_assoc acc (b ∷ []) frame))
]

-- An encoded frame, read from outside a frame, is handed over.
pub process_stream-encode :
    (frame rest : List ℕ) (l : ℕ)
    → process_stream (encode frame ++ rest) (waiting await_esc l)
      ≡ (frame ∷ frames rest (waiting at_yield sof), after rest (waiting at_yield sof))
unfolding encode parse process_stream
process_stream-encode frame rest l =
    quiet await_esc await_sof esc l (sof ∷ ((stuff frame ++ esc ∷ sof ∷ []) ++ rest)) refl
    ∙ quiet await_sof (await_byte []) sof esc ((stuff frame ++ esc ∷ sof ∷ []) ++ rest) refl
    ∙ ap (λ (x : List ℕ). process_stream x (waiting (await_byte []) sof))
        (append_assoc (stuff frame) (esc ∷ sof ∷ []) rest)
    ∙ process_stream-stuff [] frame (esc ∷ sof ∷ rest) sof
    ∙ quiet (await_byte frame) (await_escaped frame) esc (last_of sof (stuff frame)) (sof ∷ rest)
        refl
    ∙ ap
        (λ (x : List (List ℕ) × Generator).
          (x.0 ++ (process_stream rest x.1).0, (process_stream rest x.1).1))
        (process_byte_lem (await_escaped frame) sof esc)

-- A stream in which each frame is encoded behind one more byte.
unfoldable pub framed : List (ℕ × List ℕ) → List ℕ
framed [] = []
framed ((b, frame) ∷ fs) = b ∷ (encode frame ++ framed fs)

framed-frames :
    (fs : List (ℕ × List ℕ)) (p : Point) (l : ℕ)
    → (p ≡ at_start) ⊎ (p ≡ at_yield)
    → frames (framed fs) (waiting p l) ≡ map (λ e. e.1) fs
unfolding framed process_stream parse
framed-frames [] p l h = refl
framed-frames ((b, frame) ∷ fs) p l h =
    let skipped : parse p b ≡ (await_esc, none) = elim h [ inl e ↦ rw e | inr e ↦ rw e ] in
    ap (λ (x : List (List ℕ) × Generator). x.0)
      (quiet p await_esc b l (encode frame ++ framed fs) skipped
        ∙ process_stream-encode frame (framed fs) b)
    ∙ ap (λ (x : List (List ℕ)). frame ∷ x) (framed-frames fs at_yield sof (inr refl))

-- A coroutine that has not started or has just yielded, with no frame stored, hands over exactly
-- the frames of a stream in which each is encoded and has one byte, whichever it is, before it.
pub process_stream-framed :
    (fs : List (ℕ × List ℕ)) (g : Generator)
    → g.value ≡ none
    → (g.point ≡ at_start) ⊎ (g.point ≡ at_yield)
    → frames (framed fs) g ≡ map (λ e. e.1) fs
process_stream-framed fs g e h =
    ap
      (λ (v : Option (List ℕ)).
        frames (framed fs) (record { point = g.point; value = v; last_byte = g.last_byte }))
      e
    ∙ framed-frames fs g.point g.last_byte h
