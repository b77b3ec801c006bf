-- ===== src/LocalMem/Grow.antt =====
-- `GrowLocalMem` and `CleanupLocalMem` of portable-ohci-ps2.c: the array `local_mems`.
use mathlib.Core.List.{reverse, reverse-append}
use ps2_side_dumper.Base.{
  ℕ, zero, suc, ◌+◌, ◌≤◌, ◌<◌, ◌≡◌, refl, true, none, some, List, [], ◌∷◌, ◌++◌, arith, length,
  get_or, get_elem?, get_or-set_self, length-set, take, Option, ap,
}
use ps2_side_dumper.LocalMem.{
  block, Mem, Status, success, enomem, GrowAnswer, max_local_mems, local_mem_unit, store_slot,
  grow_local_mem, cleanup_slots, cleanup_local_mem,
}

-- The array has its sixteen slots, and no more are in use.
pub record Slots (m : Mem) : Type 0 where
  pub slots : length m.local_mems ≡ max_local_mems
  pub used : m.nlocal_mems ≤ max_local_mems

get_elem?-eq : (xs : List ℕ) (n : ℕ) → n < length xs → get_elem? xs n ≡ some (get_or xs n 0)
get_elem?-eq [] n h = absurd (omega arith)
get_elem?-eq (x ∷ xs) zero h = refl
get_elem?-eq (x ∷ xs) (suc n) h = get_elem?-eq xs n (omega arith)

take-suc :
    (xs : List ℕ) (n : ℕ) → n < length xs → take (suc n) xs ≡ take n xs ++ (get_or xs n 0 ∷ [])
take-suc [] n h = absurd (omega arith)
take-suc (x ∷ xs) zero h = refl
take-suc (x ∷ xs) (suc n) h = ap (λ l. x ∷ l) (take-suc xs n (omega arith))

-- What a call that stays in the array leaves: on failure the lists and the count as they were, on
-- success one slot more, which holds the bus address, and the arena in front of the free list.
abbrev pub Grown : (ℕ → ℕ) → GrowAnswer → Mem → Option (Status × Mem) → Type 0
Grown btv g m none = ⊥
Grown btv g m (some (enomem, m')) =
    Slots m'
    × (m'.nlocal_mems ≡ m.nlocal_mems)
    × (m'.free_list ≡ m.free_list)
    × (m'.alloc_list ≡ m.alloc_list)
Grown btv g m (some (success, m')) =
    Slots m'
    × (m'.nlocal_mems ≡ m.nlocal_mems + 1)
    × (m'.free_list ≡ block (btv g.heap) local_mem_unit ∷ m.free_list)
    × (m'.alloc_list ≡ m.alloc_list)
    × (get_or m'.local_mems m.nlocal_mems 0 ≡ g.heap)

-- With an array of sixteen slots of which fewer are in use, `GrowLocalMem` stays inside of
-- `local_mems` whatever the kernel answers and keeps the array's invariant; on failure it leaves
-- the count and both lists as they were, and on success it records the address and puts the new
-- arena on the free list.
pub grow_local_mem-Grown :
    (btv : ℕ → ℕ) (g : GrowAnswer) (m : Mem)
    → Slots m
    → m.nlocal_mems < max_local_mems
    → Grown btv g m (grow_local_mem btv g m)
unfolding grow_local_mem store_slot
grow_local_mem-Grown btv g m v h = ground (
  arith,
  length-set m.local_mems m.nlocal_mems g.heap,
  get_or-set_self m.local_mems m.nlocal_mems g.heap 0,
)

-- The guard lets a seventeenth arena through: with all sixteen slots in use, once kmalloc of the
-- list node succeeds, `GrowLocalMem` writes behind the end of `local_mems`.
pub grow_local_mem-overrun :
    (btv : ℕ → ℕ) (g : GrowAnswer) (m : Mem)
    → Slots m
    → m.nlocal_mems ≡ max_local_mems
    → g.item_ok ≡ true
    → grow_local_mem btv g m ≡ none
unfolding grow_local_mem store_slot
grow_local_mem-overrun btv g m v full ok = ground arith

cleanup_slots-reverse :
    (slots : List ℕ) (n : ℕ)
    → n ≤ length slots
    → cleanup_slots slots n ≡ some (reverse (take n slots))
unfolding cleanup_slots
cleanup_slots-reverse slots zero h = refl
cleanup_slots-reverse slots (suc n) h = ground (
  arith,
  get_elem?-eq slots n h,
  cleanup_slots-reverse slots n (omega arith),
  ap reverse (take-suc slots n h),
  reverse-append (take n slots) (get_or slots n 0 ∷ []),
)

-- With an array of sixteen slots and at most sixteen in use, `CleanupLocalMem` gives back
-- each address in use exactly once, the latest first, and leaves no slot in use.
pub cleanup_local_mem_lem :
    (m : Mem)
    → Slots m
    → cleanup_local_mem m
      ≡ some (reverse (take m.nlocal_mems m.local_mems), record m { nlocal_mems = 0 })
unfolding cleanup_local_mem
cleanup_local_mem_lem m v =
    rw (cleanup_slots-reverse m.local_mems m.nlocal_mems (omega arith), cleanup_local_mem)
