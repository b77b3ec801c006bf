-- ===== src/Text.antt =====
-- The conversions of sprintf that side_dumper_core.c and side_dumper_procfs.c use, over lists of
-- character codes: %02x, %04x, %x, %u, %02u and %04u.
pub mod Width
use ps2_side_dumper.Base.{
  ℕ, zero, suc, ◌+◌, ◌-◌, ◌/◌, ◌%◌, List, [], ◌∷◌, ◌++◌, ltb, ◌==◌, if◌then◌else◌, length,
  replicate, true, false,
}

-- The character of a digit, lower case.
abbrev pub digit : ℕ → ℕ
digit d = if ltb d 10 then 48 + d else 87 + d

-- The digits of `n` in front of `out`; 20 digits are enough for any machine word.
unfoldable pub digits_loop : ℕ → ℕ → ℕ → List ℕ → List ℕ
digits_loop zero base n out = out
digits_loop (suc f) base n out = elim (ltb n base) [
  | true ↦ digit n ∷ out
  | false ↦ digits_loop f base (n / base) (digit (n % base) ∷ out)
]

-- Padding with zeros on the left.
abbrev pub pad : ℕ → List ℕ → List ℕ
pad w ds = replicate (w - length ds) 48 ++ ds

unfoldable pub dec : ℕ → List ℕ
unfolding digits_loop
dec n = digits_loop 20 10 n []

unfoldable pub dec_pad : ℕ → ℕ → List ℕ
unfolding dec
dec_pad w n = pad w (dec n)

unfoldable pub hex : ℕ → List ℕ
unfolding digits_loop
hex n = digits_loop 20 16 n []

-- %02x of a byte
unfoldable pub hex_byte : ℕ → List ℕ
hex_byte b = digit (b / 16) ∷ digit (b % 16) ∷ []

-- %04x of a 16-bit value
unfoldable pub hex_word : ℕ → List ℕ
hex_word v = digit (v / 4096) ∷ digit (v / 256 % 16) ∷ digit (v / 16 % 16) ∷ digit (v % 16) ∷ []
