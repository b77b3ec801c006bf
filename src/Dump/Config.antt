-- ===== src/Dump/Config.antt =====
-- The loop of `DumpCD` over the descriptors of a configuration: when it ends, and what it prints.
use ps2_side_dumper.Base.{
  ℕ, zero, suc, ◌+◌, ◌<◌, ◌≤◌, ◌≡◌, refl, true, false, List, [], ◌∷◌, length, arith, ltb,
}
use ps2_side_dumper.Base.Run.{ok, out_of_fuel}
use ps2_side_dumper.Usb.{Bytes}
use ps2_side_dumper.Dump.Descriptors.{config_loop, config_end, config_head, sub_descriptor, dump_cd}
use ps2_side_dumper.Dump.Output.{Dump, nothing, print, ◌⊕◌}

-- The descriptors from offset `off` on begin at these offsets, each at the end of the one before it, as
-- its first byte says, and the last one reaches the end.
abbrev pub Chain : Bytes → ℕ → ℕ → List ℕ → Type 0
Chain d end off [] = end ≤ off
Chain d end off (x ∷ xs) = (x ≡ off) × (off < end) × Chain d end (off + d off) xs

-- What is printed for the descriptors at these offsets
abbrev pub sub_descriptors : List ℕ → Bytes → ℕ → List ℕ → Dump
sub_descriptors header d end [] = nothing
sub_descriptors header d end (x ∷ xs) =
    sub_descriptor header d end x ⊕ sub_descriptors header d end xs

config_loop-sub_descriptors :
    (fuel : ℕ) (header : List ℕ) (d : Bytes) (end off : ℕ) (xs : List ℕ)
    → Chain d end off xs
    → length xs < fuel
    → config_loop fuel header d end off ≡ ok (sub_descriptors header d end xs)
unfolding config_loop
config_loop-sub_descriptors zero header d end off xs c lt = absurd (omega (arith, lt))
config_loop-sub_descriptors (suc fuel) header d end off [] c lt =
    let done : ltb off end ≡ false = ground (arith, c) in rw (done, config_loop) refl
config_loop-sub_descriptors (suc fuel) header d end off (x ∷ xs) (at, inside, c) lt =
    let more : ltb off end ≡ true = ground (arith, inside) in
    let rest =
      config_loop-sub_descriptors fuel header d end (off + d off) xs c (omega (arith, lt)) in
    rw (more, config_loop, rest, at) refl

-- For a configuration of more than nine bytes, whose further descriptors begin at the offsets `xs`, each
-- behind the one before it by its own length, the first behind the configuration's own, and fuel for more
-- rounds than there are of them, `DumpCD` ends, and what it prints is the configuration's own part and
-- then each of these descriptors, in order.
pub dump_cd-sub_descriptors :
    (fuel : ℕ) (header : List ℕ) (d : Bytes) (len : ℕ) (xs : List ℕ)
    → 9 < len
    → Chain d (config_end d len) (d 0) xs
    → length xs < fuel
    → dump_cd fuel header d len
      ≡ ok (print (config_head header d len) ⊕ sub_descriptors header d (config_end d len) xs)
unfolding dump_cd
dump_cd-sub_descriptors fuel header d len xs long c lt =
    let more : ltb 9 len ≡ true = ground (arith, long) in
    rw (more, dump_cd, config_loop-sub_descriptors fuel header d (config_end d len) (d 0) xs c lt)
      refl

config_loop-stuck :
    (fuel : ℕ) (header : List ℕ) (d : Bytes) (end off : ℕ)
    → off < end
    → d off ≡ 0
    → config_loop fuel header d end off ≡ out_of_fuel
unfolding config_loop
config_loop-stuck zero header d end off lt z = refl
config_loop-stuck (suc fuel) header d end off lt z =
    ground (arith, config_loop-stuck fuel header d end (off + d off))

-- If the descriptor behind the configuration's own has length zero, the loop of `DumpCD` makes no
-- way, whatever the number of rounds.
pub dump_cd-stuck :
    (fuel : ℕ) (header : List ℕ) (d : Bytes) (len : ℕ)
    → 9 < len
    → d 0 < config_end d len
    → d (d 0) ≡ 0
    → dump_cd fuel header d len ≡ out_of_fuel
unfolding dump_cd
dump_cd-stuck fuel header d len long inside z =
    ground (arith, config_loop-stuck fuel header d (config_end d len) (d 0))
