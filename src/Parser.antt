-- ===== src/Parser.antt =====
-- coroutines/datastream_parser/main.cpp: a coroutine that takes bytes one at a time and yields the
-- frames between `ESC SOF` and `ESC SOF`, in which a byte `ESC` stands doubled. Bytes are numbers.
pub mod Framing
pub mod Soundness
pub mod Lost
mod Tests
use cpp20examples.Prelude.{
  map, ℕ, ◌==◌, not, if◌then◌else◌, List, [], ◌∷◌, ◌++◌, Option, none, some,
}

-- `ESC`, the letter H
abbrev pub esc : ℕ
esc = 72

-- `SOF`
abbrev pub sof : ℕ
sof = 16

-- Where the coroutine `Parse` is suspended, with its local variable `frame`.
pub data Point : Type 0 where
  at_start : Point  -- the initial suspend point
  await_esc : Point  -- `byte b = co_await byte{}`
  await_sof : Point  -- the `co_await` of #A
  await_byte : List ℕ → Point  -- the `co_await` of #B
  await_escaped : List ℕ → Point  -- the `co_await` of #C
  at_yield : Point  -- `co_yield frame`

-- `Generator` with its promise: where the coroutine is, `mValue` and `mLastByte`.
pub record Generator : Type 0 where
  pub point : Point
  pub value : Option (List ℕ)
  pub last_byte : ℕ

-- `Parse`: the coroutine from a suspend point to the next, where `b` is what `await_resume` gives,
-- with the frame if it stops at the `co_yield`.
pub parse : Point → ℕ → Point × Option (List ℕ)
parse at_start b = (await_esc, none)
parse await_esc b = if not (esc == b) then (await_esc, none) else (await_sof, none)
parse await_sof b = if not (sof == b) then (await_esc, none) else (await_byte [], none)
parse (await_byte frame) b =
    if esc == b then (await_escaped frame, none) else (await_byte (frame ++ b ∷ []), none)
parse (await_escaped frame) b =
    if sof == b
    then (at_yield, some frame)
    else (if not (esc == b) then (await_esc, none) else (await_byte (frame ++ b ∷ []), none))
parse at_yield b = (await_esc, none)

-- `Parse()`: the coroutine object, at its initial suspend point.
abbrev pub created : Generator
created = record { point = at_start; value = none; last_byte = 0 }

-- `yield_value` stores the frame; the other suspend points leave `mValue`.
abbrev yield_value : Option (List ℕ) → Option (List ℕ) → Option (List ℕ)
yield_value (some frame) old = some frame
yield_value none old = old

-- `SendData`. The coroutine loops for ever, so `done()` is false.
pub send_data : ℕ → Generator → Generator
unfolding parse
send_data b g =
    let (p, out) = parse g.point b in
    record { point = p; value = yield_value out g.value; last_byte = b }

-- `operator()`: the stored frame, which is taken out.
pub take_value : Generator → Option (List ℕ) × Generator
take_value g = (g.value, record g { value = none })

-- `HandleFrame`: `printf` of `c_str()` stops at the first zero byte.
pub handle_frame : List ℕ → List ℕ
handle_frame [] = []
handle_frame (b ∷ bs) = if b == 0 then [] else b ∷ handle_frame bs

-- One round of the loop of `ProcessStream`: the frames handed to `HandleFrame`.
pub process_byte : ℕ → Generator → List (List ℕ) × Generator
unfolding send_data take_value
process_byte b g =
    let (res, g') = take_value (send_data b g) in
    elim res [ none ↦ ([], g') | some frame ↦ (frame ∷ [], g') ]

-- `ProcessStream`
pub process_stream : List ℕ → Generator → List (List ℕ) × Generator
unfolding process_byte
process_stream [] g = ([], g)
process_stream (b ∷ bs) g =
    let (now, g') = process_byte b g in
    let (later, g'') = process_stream bs g' in (now ++ later, g'')

-- What `main` prints: two streams through one coroutine.
pub main : List (List ℕ)
unfolding process_stream handle_frame
main =
    let bytes1 =
      0x70 ∷ esc ∷ sof ∷ esc ∷ b'H' ∷ b'e' ∷ b'l' ∷ b'l' ∷ b'o' ∷ esc ∷ sof ∷ 7 ∷ esc ∷ sof ∷ [] in
    let bytes2 = b'W' ∷ b'o' ∷ b'r' ∷ b'l' ∷ b'd' ∷ esc ∷ sof ∷ 0x99 ∷ [] in
    let (frames1, g) = process_stream bytes1 created in
    let (frames2, g') = process_stream bytes2 g in map handle_frame (frames1 ++ frames2)
