-- ===== src/LocalMem/Tests.antt =====
-- Runs of the allocator of portable-ohci-ps2.c on small memories.

use ps2_side_dumper.Base.{
  ◌<◌, ◌≢◌, ltb, leb, ◌&&◌, if◌then◌else◌, ℕ, ◌+◌, ◌≤◌, ◌≡◌, refl, true, none, some, [], ◌∷◌,
  replicate, arith,
}
use ps2_side_dumper.LocalMem.{
  block, Mem, GrowAnswer, free_local_mem, size256, take_fit, skip, scan_free, prepare_pass,
  alloc_pass, alloc_local_mem, grow_local_mem,
}
use ps2_side_dumper.Usb.{Bytes}
use ps2_side_dumper.LocalMem.UrbCopy.{
  Extra, UrbBuffers, AllocAnswers, copy_bytes, copy_in, prepare_transfer, prepare_setup,
  portable_prepare_urb_on_submit, portable_prepare_urb_on_return, portable_free_urb,
}
use ps2_side_dumper.LocalMem.UrbCopy.Contents.{Prepared, portable_prepare_urb_on_return-prepare}
use ps2_side_dumper.LocalMem.UrbCopy.Quad.{quad_copy, Copies, quad_copy-Copies}
use ps2_side_dumper.LocalMem.UrbCopy.Freed.{portable_free_urb-prepare}
use ps2_side_dumper.LocalMem.Owned.{covers, holders, Exclusive}
use ps2_side_dumper.LocalMem.Alloc.{
  arena, alloc_local_mem-Exclusive, free_local_mem-alloc_local_mem,
}
use ps2_side_dumper.LocalMem.Grow.{Slots, grow_local_mem-overrun}

-- The mapping of a bus address in these runs
abbrev mapped : ℕ → ℕ
mapped p = p + 0x10000000

abbrev two_blocks : Mem
two_blocks = record {
  local_mems = 0x1000 ∷ replicate 15 0;
  nlocal_mems = 1;
  insufficient_local_mem = 0;
  free_list = block 0x2000 0x200 ∷ block 0x4000 0x1000 ∷ [];
  alloc_list = block 0x2200 0x100 ∷ [];
}

abbrev all_slots : Mem
all_slots = record two_blocks { local_mems = replicate 16 0x1000; nlocal_mems = 16 }

abbrev kernel_gives : GrowAnswer
kernel_gives = record { item_ok = true; heap = 0x80000 }

abbrev kernel_gives_next : GrowAnswer
kernel_gives_next = record { item_ok = true; heap = 0xA0000 }

-- What a request for 1000 bytes leaves
abbrev after_1000 : Mem
after_1000 = record two_blocks {
  free_list = block 0x2000 0x200 ∷ block 0x4000 0xC00 ∷ [];
  alloc_list = block 0x4C00 0x400 ∷ block 0x2200 0x100 ∷ [];
}

served_1000 :
    alloc_local_mem mapped true kernel_gives kernel_gives_next true 1000 two_blocks
    ≡ some (0x4C00, after_1000)
unfolding alloc_local_mem alloc_pass prepare_pass scan_free take_fit skip size256
served_1000 = refl

disjoint :
    (a : ℕ)
    → covers a (arena mapped kernel_gives)
        + covers a (arena mapped kernel_gives_next)
        + holders a two_blocks
      ≤ 1
disjoint a = ground arith

all_slots-Slots : Slots all_slots
all_slots-Slots = record { slots = refl; used = omega arith }

two_blocks-Slots : Slots two_blocks
two_blocks-Slots = record { slots = refl; used = omega arith }

alloc_local_mem-Exclusive_example : Exclusive after_1000
alloc_local_mem-Exclusive_example =
    alloc_local_mem-Exclusive mapped true kernel_gives kernel_gives_next true 1000 two_blocks
      disjoint served_1000

free_local_mem-alloc_local_mem_example :
    let (r, m'') = free_local_mem 0x4C00 after_1000 in
    (r ≡ 1)
    × (m''.alloc_list ≡ two_blocks.alloc_list)
    × ((a : ℕ) → holders a m'' ≡ holders a after_1000)
free_local_mem-alloc_local_mem_example =
    free_local_mem-alloc_local_mem mapped true kernel_gives kernel_gives_next true 1000 two_blocks
      served_1000 (omega arith)

grow_local_mem-overrun_example : grow_local_mem mapped kernel_gives all_slots ≡ none
grow_local_mem-overrun_example =
    grow_local_mem-overrun mapped kernel_gives all_slots all_slots-Slots refl refl

-- An urb whose transfer buffer is not aligned
abbrev buffers : UrbBuffers
buffers = record { transfer_buffer = 0x9001; setup_packet = 0x9801; transfer_buffer_length = 1000 }

abbrev no_growth : AllocAnswers
no_growth = record { irq = true; first = kernel_gives; second = kernel_gives_next; new_ok = true }

abbrev contents : Bytes
contents = λ a. a

abbrev both_copies : Extra
both_copies = record { transfer_buffer = 0x4C00; setup_packet = 0x2100 }

abbrev with_copies : Mem
with_copies = record two_blocks {
  free_list = block 0x2000 0x100 ∷ block 0x4000 0xC00 ∷ [];
  alloc_list = block 0x2100 0x100 ∷ block 0x4C00 0x400 ∷ block 0x2200 0x100 ∷ [];
}

prepares_both :
    portable_prepare_urb_on_submit mapped no_growth no_growth buffers two_blocks contents
    ≡ some (
      true,
      (
        both_copies,
        (with_copies, copy_bytes 0x2100 0x9801 8 (copy_bytes 0x4C00 0x9001 1000 contents)),
      ),
    )
unfolding portable_prepare_urb_on_submit prepare_transfer prepare_setup copy_in alloc_local_mem
    alloc_pass prepare_pass scan_free take_fit skip size256
prepares_both = refl

with_copies-Exclusive : Exclusive with_copies
with_copies-Exclusive a = ground arith

portable_free_urb-prepare_example :
    ((portable_free_urb both_copies with_copies).1.alloc_list ≡ two_blocks.alloc_list)
    × ((a : ℕ) → holders a (portable_free_urb both_copies with_copies).1 ≡ holders a with_copies)
portable_free_urb-prepare_example =
    portable_free_urb-prepare mapped no_growth no_growth buffers two_blocks contents (omega arith)
      (omega arith) prepares_both with_copies-Exclusive

abbrev prepared_memory : Bytes
prepared_memory = copy_bytes 0x2100 0x9801 8 (copy_bytes 0x4C00 0x9001 1000 contents)

-- The device moves three bytes.
abbrev moved : Bytes
moved a = if leb 0x4C00 a && ltb a 0x4C03 then 0xAA else prepared_memory a

moved_elsewhere : (a : ℕ) → ((i : ℕ) → i < 3 → 0x4C00 + i ≢ a) → moved a ≡ prepared_memory a
moved_elsewhere a away =
    ground (arith, away 0 (omega arith), away 1 (omega arith), away 2 (omega arith))

both-Prepared :
    Prepared mapped no_growth no_growth buffers two_blocks contents both_copies with_copies
      prepared_memory
both-Prepared = record {
  some_bytes = omega arith;
  some_setup = omega arith;
  success = prepares_both;
  separate = record {
    copies = λ i j l k. omega arith;
    source = λ i j l k. omega arith;
    buffer = λ i j l k. omega arith;
    packet = λ i j l k. omega arith;
  };
}

portable_prepare_urb_on_return-prepare_example :
    ((i : ℕ)
      → i < buffers.transfer_buffer_length
      → prepared_memory (both_copies.transfer_buffer + i) ≡ contents (buffers.transfer_buffer + i))
    × ((j : ℕ)
        → j < 8
        → prepared_memory (both_copies.setup_packet + j) ≡ contents (buffers.setup_packet + j))
    × ((i : ℕ)
        → i < buffers.transfer_buffer_length
        → portable_prepare_urb_on_return true 3 both_copies buffers moved
            (buffers.transfer_buffer + i)
          ≡ (if true && ltb i 3
              then moved (both_copies.transfer_buffer + i)
              else contents (buffers.transfer_buffer + i)))
portable_prepare_urb_on_return-prepare_example =
    portable_prepare_urb_on_return-prepare mapped no_growth no_growth buffers two_blocks contents
      true 3 moved both-Prepared (omega arith) (λ a away. moved_elsewhere a away)

-- 100 bytes are 128 for the copy, so two rounds.
quad_copy-Copies_example :
    Copies 0x4C00 0x9000 128 contents (quad_copy 2 0x4C00 0x9000 128 contents)
quad_copy-Copies_example =
    quad_copy-Copies 2 100 0x4C00 0x9000 contents (omega arith) (λ i j l k. omega arith)
