-- ===== src/Dump.antt =====
-- The level 2 dumper of side_dumper_core.c, `DumpUrb`, and `DumpStdDescriptors` under it. The
-- children hold the dumpers of the lower levels.
pub mod Output
pub mod Setup
pub mod Raw
pub mod Descriptors
pub mod Chunks
pub mod Lines
pub mod Config
pub mod RawExtent
pub mod Extent
mod Tests
use ps2_side_dumper.Base.{
  ℕ, Bool, true, false, Option, none, some, List, [], ◌++◌, codes, ◌==◌, ◌||◌, if◌then◌else◌,
}
use ps2_side_dumper.Base.Run.{Run, ok, fault, ◌>>=◌}
use ps2_side_dumper.Text.{dec, dec_pad, hex}
use ps2_side_dumper.Usb.{Bytes}
use ps2_side_dumper.Mini.{
  Settings, Mini, pipe_type_str, is_control, test_for_std_descriptor, get_string_index, pipe_length,
}
use Output.{Dump, nothing, print, complain, wrong_descriptor_type, ◌⊕◌, unknown_type}
use Setup.{dump_sp_bytes, dump_sp_settings}
use Raw.{dump_tb}
use Descriptors.{dump_dd, dump_cd, dump_sd}

-- "%s urb_%04u: device #%d, %s_%u %c, %u bytes.\n"
unfoldable pub headline : List ℕ → Mini → List ℕ
headline header m =
    header
    ++ (codes " urb_"
        ++ (dec_pad 4 m.urb_number
            ++ (codes ": device #"
                ++ (dec m.devnum
                    ++ (codes ", "
                        ++ (pipe_type_str m.pipe.kind
                            ++ (codes "_"
                                ++ (dec m.pipe.endpoint
                                    ++ (codes " "
                                        ++ ((if m.pipe.out then codes ">" else codes "<")
                                            ++ (codes ", "
                                                ++ (dec (
                                                      pipe_length m.pipe m.transfer_buffer_length
                                                        m.actual_length)
                                                    ++ codes " bytes.\n"))))))))))))

-- The switch of `DumpUrb` on the pipe type.
abbrev pub setup_part : List ℕ → Mini → Dump
setup_part header m =
    if is_control m.pipe.kind then dump_sp_bytes header m ⊕ dump_sp_settings header m else nothing

-- What the isprint of linux/ctype.h says of a character is a parameter. `fuel` bounds the rounds
-- of the loop over the descriptors of a configuration.
module _ (isprint : ℕ → Bool) (fuel : ℕ) where
  -- The switch of `DumpStdDescriptors` on the type of the descriptor `d`, of `len` bytes.
  unfoldable pub std_descriptor : List ℕ → Mini → Bytes → ℕ → Run Dump
  std_descriptor header m d len =
      if d 1 == 1
      then ok (print (dump_dd header d len))
      else if d 1 == 2
      then dump_cd fuel header d len
      else if d 1 == 3
      then ok (print (dump_sd isprint header d len (get_string_index m)))
      else if (d 1 == 4) || (d 1 == 5)
      then ok (complain wrong_descriptor_type)
      else ok (print (unknown_type header (hex (d 1)) (d 0)))

  -- `DumpStdDescriptors`. It reads the descriptor's type before any test of the length, so a NULL
  -- transfer buffer is a fault.
  unfoldable pub dump_std_descriptors : List ℕ → Mini → Run Dump
  unfolding std_descriptor
  dump_std_descriptors header m =
      if test_for_std_descriptor m
      then elim m.transfer_buffer [
        | none ↦ fault
        | some d ↦
            std_descriptor header m d (pipe_length m.pipe m.transfer_buffer_length m.actual_length)
      ]
      else ok nothing

  -- `DumpUrb`
  unfoldable pub dump_urb : Settings → List ℕ → Mini → Run Dump
  dump_urb s header m = dump_tb s header m >>= λ tb.
      dump_std_descriptors header m >>= λ descriptors.
      ok (print (headline header m) ⊕ (setup_part header m ⊕ (print tb ⊕ descriptors)))
