-- ===== src/Dump/Chunks.antt =====
-- The loop of `DumpUrbToPrintk` in side_dumper_core.c, which prints the text line by line.
use ps2_side_dumper.Base.{
  ℕ, zero, suc, ◌+◌, ◌*◌, Bool, Option, none, some, List, [], ◌∷◌, ◌++◌, ltb, ◌==◌, if◌then◌else◌,
  length,
}

-- What one round of the loop does: a printk, and in asynchronous mode a pause.
pub data Event : Type 0 where
  printk : List ℕ → Event
  yield_cpu sleep : Event

-- `FindEol`: the line up to its end, and what follows a newline (`none` at the end of the data).
unfoldable pub find_eol : List ℕ → List ℕ × Option (List ℕ)
find_eol [] = ([], none)
find_eol (c ∷ cs) =
    if c == 0
    then ([], none)
    else if c == 10
    then (c ∷ [], some cs)
    else (let (line, rest) = find_eol cs in (c ∷ line, rest))

-- After a line of `n` bytes: the pause, and the new value of the static `uBytesOut`.
unfoldable pub pace : Bool → ℕ → ℕ → List Event × ℕ
pace async bytes_out n =
    if async
    then if ltb (bytes_out + n) (15 * 1024)
      then (yield_cpu ∷ [], bytes_out + n)
      else (sleep ∷ [], 0)
    else ([], bytes_out)

-- One round of the loop, for what `FindEol` found; `next` is the rest of the loop.
unfoldable pub after_line :
    Bool
    → ℕ
    → (ℕ → List ℕ → Option (List Event × ℕ))
    → List ℕ × Option (List ℕ)
    → Option (List Event × ℕ)
after_line async bytes_out next (line, none) = some (printk line ∷ [], bytes_out)
after_line async bytes_out next (line, some rest) =
    elim (next (pace async bytes_out (length line)).1 rest) [
      | none ↦ none
      | some (events, out) ↦
          some (printk line ∷ ((pace async bytes_out (length line)).0 ++ events), out)
    ]

-- The loop over the chunks; `none` if `fuel` rounds were not enough.
unfoldable pub chunks : ℕ → Bool → ℕ → List ℕ → Option (List Event × ℕ)
unfolding after_line find_eol
chunks zero async bytes_out text = none
chunks (suc fuel) async bytes_out text =
    after_line async bytes_out (chunks fuel async) (find_eol text)
