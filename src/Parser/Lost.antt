-- ===== src/Parser/Lost.antt =====
-- A frame for which the coroutine is not waiting is lost: `resume` leaves the initial suspend point,
-- and the one after `co_yield`, without looking at the byte that was sent.
use cpp20examples.Prelude.{
  ℕ, ◌≡◌, refl, ap, ◌∙◌, ◌==◌, List, [], ◌∷◌, ◌++◌, Option, none, inl, inr, false, ◌⊎◌,
}
use cpp20examples.Parser.{
  esc, sof, Point, at_start, await_esc, await_sof, await_byte, at_yield, Generator, parse,
  process_stream,
}
use cpp20examples.Parser.Framing.{last_of, stuff, encode, waiting, quiet}

-- No byte of the frame is `ESC`.
abbrev pub HasNoEsc : List ℕ → Type 0
HasNoEsc [] = Unit
HasNoEsc (b ∷ bs) = ((esc == b) ≡ false) × HasNoEsc bs

-- Outside a frame such bytes are skipped.
process_stream-skip :
    (frame rest : List ℕ) (l : ℕ)
    → HasNoEsc frame
    → process_stream (stuff frame ++ rest) (waiting await_esc l)
      ≡ process_stream rest (waiting await_esc (last_of l (stuff frame)))
unfolding stuff parse
process_stream-skip [] rest l h = refl
process_stream-skip (b ∷ frame) rest l h = rw (h.0) (
    quiet await_esc await_esc b l (stuff frame ++ rest) (rw (h.0))
    ∙ process_stream-skip frame rest b h.1)

lost_at :
    (frame : List ℕ) (p : Point) (l : ℕ)
    → HasNoEsc frame
    → (p ≡ at_start) ⊎ (p ≡ at_yield)
    → process_stream (encode frame) (waiting p l) ≡ ([], waiting (await_byte []) sof)
unfolding encode parse process_stream
lost_at frame p l h o =
    quiet p await_esc esc l (sof ∷ (stuff frame ++ esc ∷ sof ∷ []))
      (elim o [ inl e ↦ rw e | inr e ↦ rw e ])
    ∙ quiet await_esc await_esc sof esc (stuff frame ++ esc ∷ sof ∷ []) refl
    ∙ process_stream-skip frame (esc ∷ sof ∷ []) sof h
    ∙ quiet await_esc await_sof esc (last_of sof (stuff frame)) (sof ∷ []) refl
    ∙ quiet await_sof (await_byte []) sof esc [] refl

-- An encoded frame without `ESC` that comes first in the stream, or right behind another frame, is
-- not handed over; its end is taken for the start of a frame.
pub process_stream-lost :
    (frame : List ℕ) (g : Generator)
    → HasNoEsc frame
    → g.value ≡ none
    → (g.point ≡ at_start) ⊎ (g.point ≡ at_yield)
    → process_stream (encode frame) g ≡ ([], waiting (await_byte []) sof)
process_stream-lost frame g h e o =
    ap
      (λ (v : Option (List ℕ)).
        process_stream (encode frame)
          (record { point = g.point; value = v; last_byte = g.last_byte }))
      e
    ∙ lost_at frame g.point g.last_byte h o
