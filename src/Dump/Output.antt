-- ===== src/Dump/Output.antt =====
-- What the level 2 to 4 dumpers of side_dumper_core.c produce: the text that they print into
-- `pszOut`, and the errors that they report by printk on the way.
use ps2_side_dumper.Base.{ℕ, List, [], ◌∷◌, ◌++◌, codes}
use ps2_side_dumper.Text.{dec, hex_byte, hex_word}

pub data Complaint : Type 0 where
  wrong_pipe_type wrong_descriptor_type : Complaint

pub record Dump : Type 0 where
  pub text : List ℕ
  pub complaints : List Complaint

abbrev pub nothing : Dump
nothing = record { text = []; complaints = [] }

abbrev pub print : List ℕ → Dump
print s = record { text = s; complaints = [] }

abbrev pub complain : Complaint → Dump
complain c = record { text = []; complaints = c ∷ [] }

-- One dumper after another, at the end of the text so far.
infixr 60 ◌⊕◌
abbrev pub ◌⊕◌ : Dump → Dump → Dump
a ⊕ b = record { text = a.text ++ b.text; complaints = a.complaints ++ b.complaints }

-- Lines of the form "%s<label>%02xh\n", "%s<label>%04xh\n", and the same with " (%d)".
module _ (header label : List ℕ) (v : ℕ) where
  abbrev pub line_byte : List ℕ
  line_byte = header ++ (label ++ (hex_byte v ++ codes "h\n"))

  abbrev pub line_word : List ℕ
  line_word = header ++ (label ++ (hex_word v ++ codes "h\n"))

  abbrev pub line_byte_dec : List ℕ
  line_byte_dec = header ++ (label ++ (hex_byte v ++ (codes "h (" ++ (dec v ++ codes ")\n"))))

  abbrev pub line_word_dec : List ℕ
  line_word_dec = header ++ (label ++ (hex_word v ++ (codes "h (" ++ (dec v ++ codes ")\n"))))

-- "%s    short transfer (%d/%d bytes)\n"
abbrev pub short_transfer : List ℕ → ℕ → ℕ → List ℕ
short_transfer header got length =
    header
    ++ (codes "    short transfer ("
        ++ (dec got ++ (codes "/" ++ (dec length ++ codes " bytes)\n"))))

-- "%s    unknown descriptor type %xh, %u bytes\n", given the printed type
abbrev pub unknown_type : List ℕ → List ℕ → ℕ → List ℕ
unknown_type header type length =
    header
    ++ (codes "    unknown descriptor type "
        ++ (type ++ (codes "h, " ++ (dec length ++ codes " bytes\n"))))
