-- ===== src/Logged.antt =====
-- coroutines/basic_examples: programs of one coroutine whose promise type reports every call of it.
-- This file is what they share, `ScopedLogger` and the macro `LOGF`. The name of a function is its
-- short one; the program prints what the compiler gives.
pub mod Task
pub mod Programs
pub mod Allocated
pub mod Fibonacci
pub mod Yields
pub mod Handles
mod Tests
use cpp20examples.Prelude.{ℕ, zero, suc, ◌+◌, ◌-◌, String, List, [], ◌∷◌}
use cpp20examples.Prelude.Int.{ℤ}
use cpp20examples.Coroutine.{Item, text, num}

-- `ScopedLogger::indent`, and the lines on `std::cout` with the blanks before each, the last first.
pub record Log : Type 0 where
  pub indent : ℕ
  pub lines : List (ℕ × List Item)

-- `log`
abbrev pub log : List Item → Log → Log
log items l = record l { lines = (l.indent, items) ∷ l.lines }

-- The constructor and the destructor of `ScopedLogger`; the destructor finds a positive `indent`.
abbrev pub enter : String → Log → Log
enter name l = record {
  indent = suc l.indent;
  lines = (l.indent, text "\\ " ∷ text name ∷ []) ∷ l.lines;
}

abbrev pub decremented : ℕ → ℕ
decremented zero = 0
decremented (suc n) = n

abbrev pub leave : String → Log → Log
leave name l = record {
  indent = decremented l.indent;
  lines = (decremented l.indent, text "/ " ∷ text name ∷ []) ∷ l.lines;
}

-- A function that begins with `LOGF()` and prints nothing else.
abbrev pub call : String → Log → Log
call name l = leave name (enter name l)

-- The numbers in the lines that end in one, the first line first.
abbrev pub numbers_before : List ℤ → List (ℕ × List Item) → List ℤ
numbers_before acc [] = acc
numbers_before acc ((i, text s ∷ num v ∷ []) ∷ lines) = numbers_before (v ∷ acc) lines
numbers_before acc ((i, _) ∷ lines) = numbers_before acc lines

abbrev pub numbers : Log → List ℤ
numbers l = numbers_before [] l.lines
