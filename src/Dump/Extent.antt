-- ===== src/Dump/Extent.antt =====
-- How long the text of `DumpUrb` is, against the 16 KB buffer that it is printed into.
use ps2_side_dumper.Base.{
  ℕ, ◌+◌, ◌-◌, ◌*◌, ◌/◌, ◌≤◌, ◌<◌, ◌≡◌, refl, Bool, true, false, List, [], ◌++◌, arith, codes, ◌==◌,
  Option-cases, ◌∙◌, Bool-cases, inl, inr, if◌then◌else◌, length, length-append,
}
use ps2_side_dumper.Base.Run.{Run, ok, fault, out_of_fuel}
use ps2_side_dumper.Text.Width.{length-dec-le, length-dec_pad-le}
use ps2_side_dumper.Usb.{PipeType}
use ps2_side_dumper.Mini.{
  Settings, Mini, is_control, pipe_length, test_for_std_descriptor, pipe_type_str,
}
use ps2_side_dumper.Dump.Output.{Dump}
use ps2_side_dumper.Dump.{headline, dump_std_descriptors, setup_part, dump_urb}
use ps2_side_dumper.Dump.Raw.{dump_raw_buf, tb_length, dump_tb}
use ps2_side_dumper.Dump.RawExtent.{tb_header, length-dump_raw_buf}

dump_tb-zero :
    (s : Settings) (header : List ℕ) (m : Mini) {text : List ℕ}
    → dump_tb s header m ≡ ok text
    → (tb_length s m == 0) ≡ true
    → text ≡ []
unfolding dump_tb
dump_tb-zero s header m h e = ground (arith, e)

-- A dump of the transfer buffer has one line for each 256 bytes.
length-dump_tb :
    (s : Settings) (header : List ℕ) (m : Mini) {text : List ℕ}
    → dump_tb s header m ≡ ok text
    → 0 < tb_length s m
    → length text ≡ 3 * tb_length s m + ((tb_length s m - 1) / 256 + 1) * (length header + 11)
unfolding dump_tb
length-dump_tb s header m {text} h pos = elim (Option-cases m.transfer_buffer) [
  | inl e ↦ ground (arith, e)
  | inr (buf, e) ↦
      let t : text ≡ dump_raw_buf (tb_header header) buf (tb_length s m) = ground (arith, e) in
      rw t (
        length-dump_raw_buf (tb_header header) buf (tb_length s m) pos
        ∙ rw (length-append header (codes "  tb =")) (omega arith))
]

mul_bounds : (a b p q : ℕ) → p ≤ a → q ≤ b → p * q ≤ a * b
mul_bounds a b p q h k = grind arith

length-pipe_type_str-le : (k : PipeType) → length (pipe_type_str k) ≤ 4
unfolding pipe_type_str
length-pipe_type_str-le k = ground arith

length-headline-le :
    (header : List ℕ) (m : Mini) → length header ≤ 15 → length (headline header m) ≤ 134
unfolding headline
length-headline-le header m h = omega (
  arith,
  length-append {0},
  length-dec_pad-le 4 m.urb_number,
  length-dec-le m.devnum,
  length-dec-le m.pipe.endpoint,
  length-dec-le (pipe_length m.pipe m.transfer_buffer_length m.actual_length),
  length-pipe_type_str-le m.pipe.kind,
  direction m.pipe.out,
)
  where
    direction : (b : Bool) → length (if b then codes ">" else codes "<") ≡ 1
    direction b = ground arith

length-dump_tb-le :
    (s : Settings) (header : List ℕ) (m : Mini) {text : List ℕ}
    → dump_tb s header m ≡ ok text
    → tb_length s m ≤ 5000
    → length header ≤ 15
    → length text ≤ 15520
length-dump_tb-le s header m {text} h short narrow = elim (Bool-cases (tb_length s m == 0)) [
  | inl e ↦ ground (arith, dump_tb-zero s header m h e)
  | inr e ↦
      let q : ((tb_length s m - 1) / 256 + 1) * (length header + 11) ≤ 20 * 26 =
        mul_bounds 20 26 _ _ (omega arith) (omega arith) in
      omega (arith, q, length-dump_tb s header m h (ground arith))
]

-- What a dump that ends is made of.
record Parts (isprint : ℕ → Bool) (fuel : ℕ) (s : Settings) (header : List ℕ) (m : Mini) (d : Dump)
    : Type 0 where
  pub tb : List ℕ
  pub descriptors : Dump
  pub tb_ok : dump_tb s header m ≡ ok tb
  pub descriptors_ok : dump_std_descriptors isprint fuel header m ≡ ok descriptors
  pub whole : d.text ≡ headline header m ++ ((setup_part header m).text ++ (tb ++ descriptors.text))

module _ (isprint : ℕ → Bool) (fuel : ℕ) (s : Settings) (header : List ℕ) (m : Mini) where
  dump_urb-Parts :
      (d : Dump) → dump_urb isprint fuel s header m ≡ ok d → Parts isprint fuel s header m d
  unfolding dump_urb
  dump_urb-Parts d h =
      go (dump_tb s header m) refl (dump_std_descriptors isprint fuel header m) refl
    where
      go :
          (r : Run (List ℕ))
          → dump_tb s header m ≡ r
          → (q : Run Dump) → dump_std_descriptors isprint fuel header m ≡ q
          → Parts isprint fuel s header m d
      go (ok tb) e (ok ds) f = record {
        tb = tb;
        descriptors = ds;
        tb_ok = e;
        descriptors_ok = f;
        whole = ground (arith, e, f, h);
      }
      go (ok tb) e fault f = ground (arith, e, f, h)
      go (ok tb) e out_of_fuel f = ground (arith, e, f, h)
      go fault e q f = ground (arith, e, f, h)
      go out_of_fuel e q f = ground (arith, e, f, h)

  plain_parts :
      is_control m.pipe.kind ≡ false
      → (ds : Dump) → dump_std_descriptors isprint fuel header m ≡ ok ds
      → ((setup_part header m).text ≡ []) × (ds.text ≡ [])
  unfolding dump_std_descriptors test_for_std_descriptor
  plain_parts plain ds h = ground (arith, plain)

  -- With a header of 15 characters, as `DumpUrbToPrintk` passes it, or more: where 5300 bytes of a
  -- transfer are dumped, or more, and the dumpers end, the text is at least as long as the buffer
  -- of 16384 bytes that `DumpUrbToPrintk` gives for it, before its length is tested.
  pub dump_urb-overruns :
      (d : Dump)
      → dump_urb isprint fuel s header m ≡ ok d
      → 5300 ≤ tb_length s m
      → 15 ≤ length header
      → 16384 ≤ length d.text
  dump_urb-overruns d h long wide =
      let p = dump_urb-Parts d h in
      let q : 546 ≤ ((tb_length s m - 1) / 256 + 1) * (length header + 11) =
        mul_bounds _ _ 21 26 (omega arith) (omega arith) in
      rw p.whole (
        omega (
          arith,
          q,
          length-dump_tb s header m p.tb_ok (omega arith),
          length-append (headline header m)
              ((setup_part header m).text ++ (p.tb ++ p.descriptors.text)),
          length-append (setup_part header m).text (p.tb ++ p.descriptors.text),
          length-append p.tb p.descriptors.text,
        ))

  -- With a header of at most 15 characters: where the pipe is no control pipe, at most 5000 bytes
  -- of the transfer are dumped, and the dumpers end, the text with its terminating zero fits into
  -- the buffer of 16384 bytes.
  pub dump_urb-fits :
      (d : Dump)
      → dump_urb isprint fuel s header m ≡ ok d
      → is_control m.pipe.kind ≡ false
      → tb_length s m ≤ 5000
      → length header ≤ 15
      → length d.text < 16384
  dump_urb-fits d h plain short narrow =
      let p = dump_urb-Parts d h in
      let e = plain_parts plain p.descriptors p.descriptors_ok in
      let tb = length-dump_tb-le s header m p.tb_ok short narrow in
      rw (p.whole, e.0, e.1)
        (omega (
          arith,
          tb,
          length-headline-le header m narrow,
          length-append (headline header m) ([] ++ (p.tb ++ [])),
          length-append p.tb [],
        ))
