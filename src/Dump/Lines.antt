-- ===== src/Dump/Lines.antt =====
-- `FindEol` and the loop of `DumpUrbToPrintk`: the lines that are printed.
use mathlib.Core.List.{append-nil}
use ps2_side_dumper.Base.{
  ℕ, zero, suc, ◌<◌, ◌≡◌, ◌≢◌, refl, Bool, Option, none, some, List, [], ◌∷◌, ◌++◌, arith, length,
}
use ps2_side_dumper.Dump.Chunks.{
  Event, printk, yield_cpu, sleep, find_eol, pace, after_line, chunks,
}

-- A text in which no byte is the terminating zero.
abbrev pub NoNul : List ℕ → Type 0
NoNul [] = Unit
NoNul (c ∷ cs) = (c ≢ 0) × NoNul cs

abbrev pub printed : List Event → List ℕ
printed [] = []
printed (printk line ∷ es) = line ++ printed es
printed (yield_cpu ∷ es) = printed es
printed (sleep ∷ es) = printed es

-- What `FindEol` splits off, by the rest that it leaves.
abbrev SplitsInto : List ℕ → List ℕ × Option (List ℕ) → Type 0
SplitsInto text (line, none) = line ≡ text
SplitsInto text (line, some rest) = (line ++ rest ≡ text) × (length rest < length text) × NoNul rest

find_eol-SplitsInto : (text : List ℕ) → NoNul text → SplitsInto text (find_eol text)
unfolding find_eol
find_eol-SplitsInto [] h = refl
find_eol-SplitsInto (c ∷ cs) h = ground (arith, find_eol-SplitsInto cs h.1)

printed-pace :
    (async : Bool) (out n : ℕ) (es : List Event) → printed ((pace async out n).0 ++ es) ≡ printed es
unfolding pace
printed-pace async out n es = ground arith

abbrev pub Printed : List ℕ → Option (List Event × ℕ) → Type 0
Printed text none = ⊥
Printed text (some (events, out)) = printed events ≡ text

-- A line, and what was printed of the rest.
Printed-extend :
    (text line rest : List ℕ) (pause : List Event) (r : Option (List Event × ℕ))
    → line ++ rest ≡ text
    → ((es : List Event) → printed (pause ++ es) ≡ printed es)
    → Printed rest r
    → Printed text
        (elim r [ none ↦ none | some (events, out) ↦ some (printk line ∷ (pause ++ events), out) ])
Printed-extend text line rest pause none e quiet h = absurd h
Printed-extend text line rest pause (some (events, out)) e quiet h = rw (quiet, h) e

after_line-Printed :
    (async : Bool) (out fuel : ℕ) (next : ℕ → List ℕ → Option (List Event × ℕ)) (text : List ℕ)
    (r : List ℕ × Option (List ℕ))
    → ((o : ℕ) (t : List ℕ) → NoNul t → length t < fuel → Printed t (next o t))
    → SplitsInto text r
    → length text < suc fuel
    → Printed text (after_line async out next r)
unfolding after_line
after_line-Printed async out fuel next text (line, none) ih s lt = rw append-nil s
after_line-Printed async out fuel next text (line, some rest) ih s lt =
    Printed-extend text line rest (pace async out (length line)).0
      (next (pace async out (length line)).1 rest) s.0 (printed-pace async out (length line))
      (ih (pace async out (length line)).1 rest s.2 (omega (arith, s.1)))

-- For a text with no zero byte, and more rounds than it has bytes, the loop ends, and the lines that
-- it printed are, one after the other, the whole text.
pub chunks-Printed :
    (fuel : ℕ) (async : Bool) (out : ℕ) (text : List ℕ)
    → NoNul text
    → length text < fuel
    → Printed text (chunks fuel async out text)
unfolding chunks
chunks-Printed zero async out text h lt = absurd (omega arith)
chunks-Printed (suc fuel) async out text h lt =
    after_line-Printed async out fuel (chunks fuel async) text (find_eol text)
      (λ o t. chunks-Printed fuel async o t) (find_eol-SplitsInto text h) lt
