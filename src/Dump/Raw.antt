-- ===== src/Dump/Raw.antt =====
-- `DumpRawBuf` and `DumpTB` of side_dumper_core.c.
use ps2_side_dumper.Base.{
  ℕ, zero, suc, ◌+◌, ◌%◌, not, ◌&&◌, none, some, List, [], ◌++◌, codes, ◌==◌, if◌then◌else◌,
}
use ps2_side_dumper.Base.Run.{Run, ok, fault}
use ps2_side_dumper.Text.{hex_byte}
use ps2_side_dumper.Usb.{Bytes}
use ps2_side_dumper.Mini.{Settings, Mini, min_u}

-- What precedes byte `i`: a new line after each 256 bytes.
unfoldable pub raw_break : List ℕ → ℕ → List ℕ
raw_break header i =
    if (i % 256 == 0) && not (i == 0) then codes "]\n" ++ (header ++ codes " [ ") else []

-- The loop from byte `i` on, with so many bytes left.
unfoldable pub raw_loop : List ℕ → Bytes → ℕ → ℕ → List ℕ
raw_loop header buf zero i = []
raw_loop header buf (suc left) i =
    raw_break header i ++ (hex_byte (buf i) ++ (codes " " ++ raw_loop header buf left (i + 1)))

unfoldable pub dump_raw_buf : List ℕ → Bytes → ℕ → List ℕ
dump_raw_buf header buf n =
    if n == 0 then [] else header ++ (codes " [ " ++ (raw_loop header buf n 0 ++ codes "]\n"))

-- How many bytes of the transfer buffer are dumped: no more than the device's limit.
unfoldable pub tb_length : Settings → Mini → ℕ
unfolding min_u
tb_length s m =
    if m.pipe.out
    then min_u s.out_limit m.transfer_buffer_length
    else min_u s.in_limit m.actual_length

-- `fault` is a read through a NULL transfer buffer.
unfoldable pub dump_tb : Settings → List ℕ → Mini → Run (List ℕ)
dump_tb s header m = if tb_length s m == 0 then ok [] else elim m.transfer_buffer [
  | none ↦ fault
  | some buf ↦ ok (dump_raw_buf (header ++ codes "  tb =") buf (tb_length s m))
]
