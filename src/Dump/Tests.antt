-- ===== src/Dump/Tests.antt =====
-- Runs of the dumpers of side_dumper_core.c.
use ps2_side_dumper.Base.{
  ℕ, ◌≤◌, ◌≡◌, refl, Bool, true, false, some, List, [], ◌∷◌, codes, length, get_or, arith,
}
use ps2_side_dumper.Base.Run.{Run, ok, fault, out_of_fuel}
use ps2_side_dumper.Usb.{Bytes, bulk}
use ps2_side_dumper.Mini.{Settings, Mini, dump_urb_to_printk, min_u, test_for_std_descriptor, min_u}
use ps2_side_dumper.Dump.Output.{Dump, nothing, print, ◌⊕◌}
use ps2_side_dumper.Dump.{dump_urb, dump_std_descriptors}
use ps2_side_dumper.Dump.Raw.{dump_tb, tb_length}
use ps2_side_dumper.Dump.Descriptors.{dump_cd, config_head}
use ps2_side_dumper.Dump.Chunks.{chunks}
use ps2_side_dumper.Dump.Lines.{Printed, chunks-Printed}
use ps2_side_dumper.Dump.Config.{sub_descriptors, dump_cd-sub_descriptors}
use ps2_side_dumper.Dump.Extent.{dump_urb-overruns}

chunks-Printed_example : Printed (codes "ab\ncd") (chunks 6 true 15355 (codes "ab\ncd"))
chunks-Printed_example =
    chunks-Printed 6 true 15355 (codes "ab\ncd")
      (omega arith, (omega arith, (omega arith, (omega arith, (omega arith, tt))))) (omega arith)

abbrev bytes_of : List ℕ → Bytes
bytes_of xs = λ i. get_or xs i 0

-- A configuration of one interface with one endpoint
abbrev configuration : Bytes
configuration = bytes_of (
    9 ∷ 2 ∷ 25 ∷ 0 ∷ 1 ∷ 1 ∷ 0 ∷ 0xa0 ∷ 50 ∷ 9 ∷ 4 ∷ 0 ∷ 0 ∷ 1 ∷ 3 ∷ 1 ∷ 1 ∷ 0 ∷ 7 ∷ 5 ∷ 0x81 ∷ 3
    ∷ 8 ∷ 0 ∷ 10 ∷ [])

dump_cd-sub_descriptors_example :
    dump_cd 3 (codes "h") configuration 25
    ≡ ok (
        print (config_head (codes "h") configuration 25)
        ⊕ sub_descriptors (codes "h") configuration 25 (9 ∷ 18 ∷ []))
unfolding min_u
dump_cd-sub_descriptors_example =
    dump_cd-sub_descriptors 3 (codes "h") configuration 25 (9 ∷ 18 ∷ []) (omega arith)
      (refl, omega arith, (refl, omega arith, omega arith)) (omega arith)

abbrev settings : Settings
settings = record {
  enabled = 1;
  async = 0;
  dumper = dump_urb_to_printk;
  out_limit = 4294967295;
  in_limit = 4294967295;
}

abbrev transfer : ℕ → Mini
transfer n = record {
  urb_number = 1;
  devnum = 2;
  pipe = record {
    kind = bulk;
    device = 2;
    endpoint = 1;
    out = true;
    slow = false;
    max_packet = 64;
  };
  transfer_buffer_length = n;
  actual_length = 0;
  setup_packet = configuration;
  transfer_buffer = some configuration;
}

abbrev printable : ℕ → Bool
printable c = true

abbrev dump_of : Run Dump → Dump
dump_of (ok d) = d
dump_of fault = nothing
dump_of out_of_fuel = nothing

abbrev dumped : ℕ → Dump
dumped n = dump_of (dump_urb printable 100 settings (codes "<7>side_dumper|") (transfer n))

dumped_large :
    dump_urb printable 100 settings (codes "<7>side_dumper|") (transfer 5300) ≡ ok (dumped 5300)
unfolding dump_urb dump_tb tb_length min_u dump_std_descriptors test_for_std_descriptor
dumped_large = refl

dumped_small :
    dump_urb printable 100 settings (codes "<7>side_dumper|") (transfer 64) ≡ ok (dumped 64)
unfolding dump_urb dump_tb tb_length min_u dump_std_descriptors test_for_std_descriptor
dumped_small = refl

dump_urb-overruns_example : 16384 ≤ length (dumped 5300).text
unfolding tb_length min_u
dump_urb-overruns_example =
    dump_urb-overruns printable 100 settings (codes "<7>side_dumper|") (transfer 5300) (dumped 5300)
      dumped_large (omega arith) (omega arith)
