-- ===== src/Parser/Tests.antt =====
-- What `main` prints, and an instance of each theorem.
use cpp20examples.Prelude.{ℕ, ◌≡◌, refl, List, [], ◌∷◌, ◌++◌, inl}
use cpp20examples.Parser.{esc, sof, await_byte, created, main, process_stream}
use cpp20examples.Parser.Framing.{
  process_stream-append, encode, framed, frames, after, waiting, process_stream-framed,
}
use cpp20examples.Parser.Soundness.{EndsWith, process_byte_sound}
use cpp20examples.Parser.Lost.{process_stream-lost}

main_output :
    main ≡ (b'H' ∷ b'e' ∷ b'l' ∷ b'l' ∷ b'o' ∷ []) ∷ (b'W' ∷ b'o' ∷ b'r' ∷ b'l' ∷ b'd' ∷ []) ∷ []
unfolding main
main_output = refl

abbrev hey : List ℕ
hey = b'H' ∷ b'e' ∷ b'y' ∷ []

abbrev you : List ℕ
you = b'y' ∷ b'o' ∷ b'u' ∷ []

process_stream-framed_example :
    frames (framed ((0x70, hey) ∷ (7, you) ∷ [])) created ≡ hey ∷ you ∷ []
process_stream-framed_example =
    process_stream-framed ((0x70, hey) ∷ (7, you) ∷ []) created refl (inl refl)

process_byte_sound_example :
    EndsWith ((7 ∷ esc ∷ sof ∷ b'y' ∷ esc ∷ []) ++ sof ∷ []) (encode (b'y' ∷ []))
unfolding process_stream
process_byte_sound_example =
    process_byte_sound (7 ∷ esc ∷ sof ∷ b'y' ∷ esc ∷ []) (b'y' ∷ []) sof refl

process_stream-lost_example :
    process_stream (encode you) created ≡ ([], waiting (await_byte []) sof)
process_stream-lost_example =
    process_stream-lost you created (refl, (refl, (refl, tt))) refl (inl refl)

append_test : process_stream ((7 ∷ esc ∷ sof ∷ b'y' ∷ []) ++ esc ∷ sof ∷ []) created ≡ (
  frames (7 ∷ esc ∷ sof ∷ b'y' ∷ []) created
      ++ frames (esc ∷ sof ∷ []) (after (7 ∷ esc ∷ sof ∷ b'y' ∷ []) created),
  after (esc ∷ sof ∷ []) (after (7 ∷ esc ∷ sof ∷ b'y' ∷ []) created),
)
append_test = process_stream-append (7 ∷ esc ∷ sof ∷ b'y' ∷ []) (esc ∷ sof ∷ []) created
