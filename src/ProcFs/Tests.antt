-- ===== src/ProcFs/Tests.antt =====
-- Runs of the proc files of side_dumper_procfs.c.
use ps2_side_dumper.Base.{ℕ, ◌+◌, refl, codes, get_or, arith, ltb, if◌then◌else◌}
use ps2_side_dumper.Usb.{Bytes}
use ps2_side_dumper.Dumper.{g_inst, enable, disable}
use ps2_side_dumper.ProcFs.{write_devices, is_delimitor}
use ps2_side_dumper.ProcFs.Parse.{StopsAt, Keeps, write_devices-Ends}

abbrev text : Bytes
text = λ i. get_or (codes "2 7\nx") i 120

-- A reader of one-digit numbers that stops at position 4
abbrev one_digit : Bytes → ℕ → ℕ → ℕ × ℕ
one_digit a p base = (a p, if ltb p 4 then p + 1 else p)

text-StopsAt : StopsAt one_digit text 4
unfolding is_delimitor
text-StopsAt = (refl, λ p base le. ground arith)

write_devices-Ends_example :
    Keeps (write_devices one_digit enable 5 text 4 0 g_inst)
    × Keeps (write_devices one_digit disable 5 text 4 0 g_inst)
write_devices-Ends_example =
    write_devices-Ends one_digit text 4 text-StopsAt 5 4 g_inst refl (omega arith)
