-- ===== src/Dump/RawExtent.antt =====
-- How long the dump of a buffer by `DumpRawBuf` is.
use ps2_side_dumper.Base.{
  ℕ, zero, suc, ◌+◌, ◌-◌, ◌*◌, ◌/◌, ◌%◌, ◌<◌, ◌≡◌, true, false, List, ◌++◌, arith, codes, ◌==◌,
  Bool-cases, inl, inr, length, length-append,
}
use native.Mathlib.Nat.{add-zero}
use ps2_side_dumper.Text.{hex_byte}
use ps2_side_dumper.Usb.{Bytes}
use ps2_side_dumper.Dump.Raw.{raw_break, raw_loop, dump_raw_buf}

-- How many multiples of 256 lie below `k`.
abbrev multiples : ℕ → ℕ
multiples k = (k + 255) / 256

mul-suc : (p q k n : ℕ) → p ≡ q + 1 → n ≡ k → n + q * k ≡ p * k
mul-suc p q k n e f = rw (e, f) (omega arith)

mul-same : (p q k n : ℕ) → p ≡ q → n ≡ 0 → n + q * k ≡ p * k
mul-same p q k n e f = rw (e, f) (omega arith)

raw_break-long :
    (header : List ℕ) (i : ℕ)
    → 0 < i
    → (i % 256 == 0) ≡ true
    → length (raw_break header i) ≡ length header + 5
unfolding raw_break
raw_break-long header i pos e = ground (arith, e, length-append header (codes " [ "))

raw_break-short :
    (header : List ℕ) (i : ℕ) → (i % 256 == 0) ≡ false → length (raw_break header i) ≡ 0
unfolding raw_break
raw_break-short header i e = ground (arith, e)

-- The length of what precedes byte `i`.
length-raw_break :
    (header : List ℕ) (i : ℕ)
    → 0 < i
    → length (raw_break header i) + multiples i * (length header + 5)
      ≡ multiples (i + 1) * (length header + 5)
length-raw_break header i pos = elim (Bool-cases (i % 256 == 0)) [
  | inl e ↦ mul-suc (multiples (i + 1)) (multiples i) _ _ (ground arith) (long e)
  | inr e ↦ mul-same (multiples (i + 1)) (multiples i) _ _ (ground arith) (short e)
]
  where
    long : (i % 256 == 0) ≡ true → length (raw_break header i) ≡ length header + 5
    long e = raw_break-long header i pos e

    short : (i % 256 == 0) ≡ false → length (raw_break header i) ≡ 0
    short e = raw_break-short header i e

length-raw_loop :
    (header : List ℕ) (buf : Bytes) (left i : ℕ)
    → 0 < i
    → length (raw_loop header buf left i) + multiples i * (length header + 5)
      ≡ 3 * left + multiples (i + left) * (length header + 5)
unfolding raw_loop hex_byte
length-raw_loop header buf zero i pos = rw (add-zero i) (omega arith)
length-raw_loop header buf (suc left) i pos =
    let e : i + suc left ≡ i + 1 + left = omega arith in
    rw e (
      omega (
        arith,
        length-append (raw_break header i)
            (hex_byte (buf i) ++ (codes " " ++ raw_loop header buf left (i + 1))),
        length-raw_break header i pos,
        length-raw_loop header buf left (i + 1) (omega arith),
      ))

dump_raw_buf-suc :
    (header : List ℕ) (buf : Bytes) (n : ℕ)
    → dump_raw_buf header buf (suc n)
      ≡ header
        ++ (codes " [ "
            ++ (hex_byte (buf 0) ++ (codes " " ++ (raw_loop header buf n 1 ++ codes "]\n"))))
unfolding dump_raw_buf raw_loop raw_break hex_byte
dump_raw_buf-suc header buf n = ground arith

-- The raw dump of `n` bytes has three characters for each byte, and for each line, of 256 bytes, the
-- header and five characters.
pub length-dump_raw_buf :
    (header : List ℕ) (buf : Bytes) (n : ℕ)
    → 0 < n
    → length (dump_raw_buf header buf n) ≡ 3 * n + ((n - 1) / 256 + 1) * (length header + 5)
unfolding hex_byte
length-dump_raw_buf header buf zero pos = elim pos [ ]
length-dump_raw_buf header buf (suc n) pos =
    let e : multiples (1 + n) ≡ (suc n - 1) / 256 + 1 = omega arith in
    rw (dump_raw_buf-suc, ← e)
      (omega (
        arith,
        length-append header (
            codes " [ "
            ++ (hex_byte (buf 0) ++ (codes " " ++ (raw_loop header buf n 1 ++ codes "]\n")))),
        length-append (raw_loop header buf n 1) (codes "]\n"),
        length-raw_loop header buf n 1 (omega arith),
      ))

-- The header of `DumpTB`: that of the dump, and "  tb =".
abbrev pub tb_header : List ℕ → List ℕ
tb_header header = header ++ codes "  tb ="
