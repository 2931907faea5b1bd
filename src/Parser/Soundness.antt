-- ===== src/Parser/Soundness.antt =====
-- Every frame that is handed over stands encoded in the stream, and ends where the stream has got to.
use cpp20examples.Prelude.{
  ℕ, ◌≡◌, refl, sym, ap, ◌∙◌, subst, ◌==◌, List, [], ◌∷◌, ◌++◌, Option, none, some, inl, inr,
  Bool-cases, ==_iff, append-nil, append_assoc,
}
use cpp20examples.Parser.{
  esc, sof, Point, at_start, await_esc, await_sof, await_byte, await_escaped, at_yield, Generator,
  created, parse, process_byte, process_stream,
}
use cpp20examples.Parser.Framing.{stuff, encode, after, process_byte_lem, handed}

-- The stream so far ends with these bytes.
abbrev pub EndsWith : List ℕ → List ℕ → Type 0
EndsWith s bytes = (before : List ℕ) × (s ≡ before ++ bytes)

-- What the suspend point says of the stream so far.
abbrev HasRead : Point → List ℕ → Type 0
HasRead at_start s = Unit
HasRead await_esc s = Unit
HasRead await_sof s = EndsWith s (esc ∷ [])
HasRead (await_byte frame) s = EndsWith s (esc ∷ sof ∷ stuff frame)
HasRead (await_escaped frame) s = EndsWith s (esc ∷ sof ∷ (stuff frame ++ esc ∷ []))
HasRead at_yield s = Unit

stuff-snoc : (frame : List ℕ) (b : ℕ) → stuff (frame ++ b ∷ []) ≡ stuff frame ++ stuff (b ∷ [])
unfolding stuff
stuff-snoc [] b = refl
stuff-snoc (x ∷ frame) b = elim (Bool-cases (esc == x)) [
  | inl e ↦ rw (e, stuff-snoc frame b)
  | inr e ↦ rw (e, stuff-snoc frame b)
]

extend : (s bytes : List ℕ) (b : ℕ) → EndsWith s bytes → EndsWith (s ++ b ∷ []) (bytes ++ b ∷ [])
extend s bytes b (before, e) = (before, rw e (append_assoc before bytes (b ∷ [])))

-- The last byte is the one that the code compared it with.
become :
    (s : List ℕ) (bytes : ℕ → List ℕ) {x b : ℕ}
    → x ≡ b
    → EndsWith (s ++ b ∷ []) (bytes b)
    → EndsWith (s ++ b ∷ []) (bytes x)
become s bytes {b = b} e h = subst (λ (y : ℕ). EndsWith (s ++ b ∷ []) (bytes y)) (sym e) h

escaped :
    (s frame : List ℕ) (b x : ℕ)
    → x ≡ b
    → EndsWith s (esc ∷ sof ∷ (stuff frame ++ esc ∷ []))
    → EndsWith (s ++ b ∷ []) (esc ∷ sof ∷ (stuff frame ++ esc ∷ x ∷ []))
escaped s frame b x e r =
    subst (λ (l : List ℕ). EndsWith (s ++ b ∷ []) (esc ∷ sof ∷ l))
      (append_assoc (stuff frame) (esc ∷ []) (x ∷ []))
      (become s (λ y. esc ∷ sof ∷ ((stuff frame ++ esc ∷ []) ++ y ∷ [])) e (extend s _ b r))

-- The suspend point after a byte, and the frame that it completes.
abbrev Outcome : Point × Option (List ℕ) → List ℕ → Type 0
Outcome (p, none) s = HasRead p s
Outcome (p, some frame) s = HasRead p s × EndsWith s (encode frame)

parse-HasRead : (p : Point) (b : ℕ) (s : List ℕ) → HasRead p s → Outcome (parse p b) (s ++ b ∷ [])
unfolding parse encode stuff
parse-HasRead at_start b s r = tt
parse-HasRead at_yield b s r = tt
parse-HasRead await_esc b s r = elim (Bool-cases (esc == b)) [
  | inl e ↦ rw e (s, ap (λ (x : ℕ). s ++ x ∷ []) (sym ((==_iff esc b).0 e)))
  | inr e ↦ rw e tt
]
parse-HasRead await_sof b s r = elim (Bool-cases (sof == b)) [
  | inl e ↦ rw e (become s (λ x. esc ∷ x ∷ []) ((==_iff sof b).0 e) (extend s (esc ∷ []) b r))
  | inr e ↦ rw e tt
]
parse-HasRead (await_byte frame) b s r = elim (Bool-cases (esc == b)) [
  | inl e ↦ rw e (
      become s (λ x. esc ∷ sof ∷ (stuff frame ++ x ∷ [])) ((==_iff esc b).0 e)
        (extend s (esc ∷ sof ∷ stuff frame) b r))
  | inr e ↦ rw (e, stuff-snoc frame b, stuff, e) (extend s (esc ∷ sof ∷ stuff frame) b r)
]
parse-HasRead (await_escaped frame) b s r = elim (Bool-cases (sof == b)) [
  | inl e ↦ rw e (tt, escaped s frame b sof ((==_iff sof b).0 e) r)
  | inr e ↦ elim (Bool-cases (esc == b)) [
    | inl e' ↦
        rw (e, e')
          (rw (stuff-snoc frame b, stuff, e') (escaped s frame b esc ((==_iff esc b).0 e') r))
    | inr e' ↦ rw (e, e') tt
  ]
]

-- A generator that waits, at a point that fits the stream so far.
abbrev Follows : Generator → List ℕ → Type 0
Follows g s = (g.value ≡ none) × HasRead g.point s

handed-Follows :
    (r : Point × Option (List ℕ)) (b : ℕ) (s : List ℕ)
    → Outcome r s
    → Follows (handed r b).1 s
      × ((frame : List ℕ) → (handed r b).0 ≡ frame ∷ [] → EndsWith s (encode frame))
handed-Follows (p, none) b s o = ((refl, o), λ frame e. cc)
handed-Follows (p, some f) b s o =
    ((refl, o.0), λ frame e. subst (λ (x : List ℕ). EndsWith s (encode x)) (cc) o.1)

process_byte-Follows :
    (g : Generator) (b : ℕ) (s : List ℕ)
    → Follows g s
    → Follows (process_byte b g).1 (s ++ b ∷ [])
      × ((frame : List ℕ)
          → (process_byte b g).0 ≡ frame ∷ []
          → EndsWith (s ++ b ∷ []) (encode frame))
process_byte-Follows g b s h =
    let e : process_byte b g ≡ handed (parse g.point b) b =
      ap
        (λ (v : Option (List ℕ)).
          process_byte b (record { point = g.point; value = v; last_byte = g.last_byte }))
        h.0
      ∙ process_byte_lem g.point b g.last_byte in
    rw e (handed-Follows (parse g.point b) b (s ++ b ∷ []) (parse-HasRead g.point b s h.1))

after-Follows : (bs s : List ℕ) (g : Generator) → Follows g s → Follows (after bs g) (s ++ bs)
unfolding process_stream
after-Follows [] s g h = rw append-nil h
after-Follows (b ∷ bs) s g h =
    subst (λ (l : List ℕ). Follows (after (b ∷ bs) g) l) (append_assoc s (b ∷ []) bs)
      (after-Follows bs (s ++ b ∷ []) (process_byte b g).1 (process_byte-Follows g b s h).0)

-- If a new parser has read any stream and the next byte makes it hand over a frame, then the stream
-- with that byte ends with that frame, encoded.
pub process_byte_sound :
    (bs frame : List ℕ) (b : ℕ)
    → (process_byte b (after bs created)).0 ≡ frame ∷ []
    → EndsWith (bs ++ b ∷ []) (encode frame)
process_byte_sound bs frame b e =
    (process_byte-Follows (after bs created) b bs (after-Follows bs [] created (refl, tt))).1 frame
      e
