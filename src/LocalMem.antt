-- ===== src/LocalMem.antt =====
-- The allocator of I/O-processor memory in portable-ohci-ps2.c: `local_mems`, `FreeList` and
-- `AllocList` with the functions that change them. `struct mb` chains are lists, head first, so
-- that the pointer surgery of the source is the removal or the insertion of one element.
-- `none` as the outcome of an operation is an access outside the array `local_mems`.
-- What the kernel answers (kmalloc, ps2sif_allociopheap) is an argument; address 0 is NULL.
pub mod Owned
pub mod Release
pub mod Alloc
pub mod Supply
pub mod Grow
mod Tests
pub mod Portable
pub mod UrbCopy
use ps2_side_dumper.Base.{
  ℕ, zero, suc, ◌+◌, ◌-◌, ◌*◌, ◌/◌, Bool, not, ◌&&◌, Option, none, some, List, [], ◌∷◌, ltb, ◌==◌,
  if◌then◌else◌, length, get_elem?, set,
}

-- `struct mb`
pub record Block : Type 0 where
  pub addr : ℕ
  pub size : ℕ

abbrev pub block : ℕ → ℕ → Block
block p n = record { addr = p; size = n }

-- The file's static variables.
pub record Mem : Type 0 where
  pub local_mems : List ℕ
  pub nlocal_mems : ℕ
  pub insufficient_local_mem : ℕ
  pub free_list : List Block
  pub alloc_list : List Block

-- LOCAL_MEM_UNIT, and the length of `local_mems`, MAX_LOCAL_MEM / LOCAL_MEM_UNIT.
abbrev pub local_mem_unit : ℕ
local_mem_unit = 65536

abbrev pub max_local_mems : ℕ
max_local_mems = 16

-- What the kernel answers to one call of `GrowLocalMem`: whether kmalloc of the list node
-- succeeds, and the bus address from ps2sif_allociopheap (0 if it fails).
pub record GrowAnswer : Type 0 where
  pub item_ok : Bool
  pub heap : ℕ

pub data Status : Type 0 where
  success enomem : Status

-- A write of `local_mems[i]`.
unfoldable pub store_slot : ℕ → ℕ → Mem → Option Mem
store_slot i v m =
    if ltb i (length m.local_mems)
    then some (record m { local_mems = set m.local_mems i v })
    else none

-- The block enters the free list after the slot was written.
abbrev pub add_arena : ℕ → Mem → Mem
add_arena p m = record m {
  nlocal_mems = m.nlocal_mems + 1;
  free_list = block p local_mem_unit ∷ m.free_list;
}

module _ (bus_to_virt : ℕ → ℕ) where
  -- `GrowLocalMem`
  unfoldable pub grow_local_mem : GrowAnswer → Mem → Option (Status × Mem)
  grow_local_mem g m =
      if ltb max_local_mems m.nlocal_mems
      then some (enomem, m)
      else if not g.item_ok
      then some (enomem, m)
      else elim (store_slot m.nlocal_mems g.heap m) [
        | none ↦ none
        | some m' ↦
            if g.heap == 0
            then some (enomem, m')
            else some (success, add_arena (bus_to_virt g.heap) m')
      ]

-- `CleanupLocalMem`: the arguments of ps2sif_freeiopheap, in the order of the calls.
unfoldable pub cleanup_slots : List ℕ → ℕ → Option (List ℕ)
cleanup_slots slots zero = some []
cleanup_slots slots (suc n) = elim (get_elem? slots n) [
  | none ↦ none
  | some p ↦ elim (cleanup_slots slots n) [ none ↦ none | some ps ↦ some (p ∷ ps) ]
]

unfoldable pub cleanup_local_mem : Mem → Option (List ℕ × Mem)
cleanup_local_mem m = elim (cleanup_slots m.local_mems m.nlocal_mems) [
  | none ↦ none
  | some ps ↦ some (ps, record m { nlocal_mems = 0 })
]

-- The scan of the allocated list for the block at `p`, and what is left without it.
unfoldable pub find_block : ℕ → List Block → Option (Block × List Block)
find_block p [] = none
find_block p (b ∷ bs) =
    if b.addr == p
    then some (b, bs)
    else elim (find_block p bs) [ none ↦ none | some (c, rest) ↦ some (c, b ∷ rest) ]

-- The scan of the free list for a block that ends where `c` begins; that block grows by `c`.
unfoldable pub merge_block : Block → List Block → Option (List Block)
merge_block c [] = none
merge_block c (b ∷ bs) =
    if (b.addr + b.size) == c.addr
    then some (block b.addr (b.size + c.size) ∷ bs)
    else elim (merge_block c bs) [ none ↦ none | some bs' ↦ some (b ∷ bs') ]

-- What happens to the block found, the allocated list being already without it.
unfoldable pub release : Block → Mem → Mem
release c m = elim (merge_block c m.free_list) [
  | none ↦ record m { free_list = c ∷ m.free_list }
  | some bs ↦ record m { free_list = bs }
]

-- `FreeLocalMem`
unfoldable pub free_local_mem : ℕ → Mem → ℕ × Mem
free_local_mem p m = if p == 0 then (0, m) else elim (find_block p m.alloc_list) [
  | none ↦ (0, m)
  | some (c, rest) ↦ (1, release c (record m { alloc_list = rest }))
]

-- The scan of the free list: a block of the very size, or the end of a larger one.
pub data Fit : Type 0 where
  exact : Block → List Block → Fit
  split : ℕ → List Block → Fit
  no_fit : Fit

unfoldable pub skip : Block → Fit → Fit
skip b (exact c bs) = exact c (b ∷ bs)
skip b (split p bs) = split p (b ∷ bs)
skip b no_fit = no_fit

unfoldable pub take_fit : ℕ → List Block → Fit
take_fit n [] = no_fit
take_fit n (b ∷ bs) =
    if b.size == n
    then exact b bs
    else if ltb n b.size
    then split (b.addr + (b.size - n)) (block b.addr (b.size - n) ∷ bs)
    else skip b (take_fit n bs)

-- `((size + 255)/256)*256`
unfoldable pub size256 : ℕ → ℕ
size256 size = (size + 255) / 256 * 256

-- One pass from the label `retry`: a pointer to return, or nothing found.
pub data Attempt : Type 0 where
  finish : ℕ → Mem → Attempt
  missing : Mem → Attempt

-- The pass after `GrowLocalMem`. `new_ok` says whether kmalloc of the node for the cut-off end
-- succeeds; if not, the larger block has already been shortened.
unfoldable pub scan_free : ℕ → Bool → Mem → Attempt
scan_free n new_ok m = elim (take_fit n m.free_list) [
  | exact b bs ↦ finish b.addr (record m { free_list = bs; alloc_list = b ∷ m.alloc_list })
  | split p bs ↦
      if new_ok
      then finish p (record m { free_list = bs; alloc_list = block p n ∷ m.alloc_list })
      else finish 0 (record m { free_list = bs })
  | no_fit ↦ missing (record m { insufficient_local_mem = m.insufficient_local_mem + 1 })
]

module _ (bus_to_virt : ℕ → ℕ) where
  -- The growth at the head of a pass; the status of `GrowLocalMem` is dropped.
  unfoldable pub prepare_pass : Bool → GrowAnswer → Mem → Option Mem
  prepare_pass in_interrupt g m =
      if not in_interrupt && ltb 0 m.insufficient_local_mem
      then elim (grow_local_mem bus_to_virt g (record m { insufficient_local_mem = 0 })) [
        | none ↦ none
        | some (_, m') ↦ some m'
      ]
      else some m

  unfoldable pub alloc_pass : Bool → GrowAnswer → Bool → ℕ → Mem → Option Attempt
  alloc_pass in_interrupt g new_ok n m = elim (prepare_pass in_interrupt g m) [
    | none ↦ none
    | some m' ↦ some (scan_free n new_ok m')
  ]

  -- `AllocLocalMem`: two passes at most, the second only if the first finds nothing.
  unfoldable pub alloc_local_mem :
      Bool → GrowAnswer → GrowAnswer → Bool → ℕ → Mem → Option (ℕ × Mem)
  alloc_local_mem in_interrupt g g' new_ok size m =
      elim (alloc_pass in_interrupt g new_ok (size256 size) m) [
        | none ↦ none
        | some (finish p m') ↦ some (p, m')
        | some (missing m') ↦ elim (alloc_pass in_interrupt g' new_ok (size256 size) m') [
          | none ↦ none
          | some (finish p m'') ↦ some (p, m'')
          | some (missing m'') ↦ some (0, m'')
        ]
      ]
