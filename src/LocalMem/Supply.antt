-- ===== src/LocalMem/Supply.antt =====
-- When `AllocLocalMem` of portable-ohci-ps2.c finds memory, and what it loses.
use Prim.Native.Nat.{max}
use ps2_side_dumper.Base.{
  ℕ, ◌+◌, ◌≤◌, ◌<◌, ◌≡◌, ◌≢◌, Bool, true, false, not, ◌&&◌, Option, none, some, List, [], ◌∷◌,
  arith, ltb, ◌==◌, Bool-cases, set, lt→ltb, ◌⊎◌, inl, inr,
}
use ps2_side_dumper.LocalMem.{
  Block, block, Mem, local_mem_unit, max_local_mems, success, add_arena, Attempt, finish, missing,
  GrowAnswer, Fit, exact, split, no_fit, skip, take_fit, size256, grow_local_mem, store_slot,
  scan_free, prepare_pass, alloc_pass, alloc_local_mem,
}
use ps2_side_dumper.LocalMem.Owned.{bytes}
use ps2_side_dumper.LocalMem.Grow.{Slots}
use ps2_side_dumper.LocalMem.Alloc.{size256_bounds}

-- The size of the largest block of a list.
abbrev pub largest : List Block → ℕ
largest [] = 0
largest (b ∷ bs) = max b.size (largest bs)

-- The scan finds nothing only where every block is too small; what it cuts off is lost to the list.
abbrev Sized : ℕ → List Block → Fit → Type 0
Sized n bs (exact b rest) = (b.size ≡ n) × (n ≤ largest bs)
Sized n bs (split p rest) = (n ≤ largest bs) × (bytes rest + n ≡ bytes bs)
Sized n bs no_fit = 0 < n → largest bs < n

skip-Sized :
    (n : ℕ) (b : Block) (bs : List Block) (f : Fit)
    → b.size < n
    → Sized n bs f
    → Sized n (b ∷ bs) (skip b f)
unfolding skip
skip-Sized n b bs (exact c rest) lt h = omega arith
skip-Sized n b bs (split p rest) lt h = omega arith
skip-Sized n b bs no_fit lt h = λ pos. omega (arith, h pos)

take_fit-Sized : (n : ℕ) (bs : List Block) → Sized n bs (take_fit n bs)
unfolding take_fit
take_fit-Sized n [] = λ pos. pos
take_fit-Sized n (b ∷ bs) = elim (Bool-cases (b.size == n)) [
  | inl e ↦ rw e (ground arith)
  | inr e ↦ rw e (elim (Bool-cases (ltb n b.size)) [
    | inl h ↦ rw h (ground arith)
    | inr h ↦ rw h (skip-Sized n b bs (take_fit n bs) (ground arith) (take_fit-Sized n bs))
  ])
]

-- The call returned a pointer, and its block of `n` bytes was put on the allocated list.
abbrev pub Served : ℕ → Mem → Option (ℕ × Mem) → Type 0
Served n m none = ⊥
Served n m (some (p, m')) = m'.alloc_list ≡ block p n ∷ m.alloc_list

-- A pass that finds a block.
abbrev PassServed : ℕ → Mem → Option Attempt → Type 0
PassServed n m none = ⊥
PassServed n m (some (finish p m')) = m'.alloc_list ≡ block p n ∷ m.alloc_list
PassServed n m (some (missing m')) = ⊥

-- An arena at the head of the free list serves any request of its size at most.
scan_free-arena :
    (n q : ℕ) (m : Mem)
    → n ≤ local_mem_unit
    → PassServed n m (some (scan_free n true (add_arena q m)))
unfolding scan_free take_fit
scan_free-arena n q m h = ground arith

module _ (btv : ℕ → ℕ) (g : GrowAnswer) (m : Mem) where
  grow_local_mem-success :
      Slots m
      → m.nlocal_mems < max_local_mems
      → g.item_ok ≡ true
      → g.heap ≢ 0
      → grow_local_mem btv g m
        ≡ some (
          success,
          add_arena (btv g.heap) (record m { local_mems = set m.local_mems m.nlocal_mems g.heap }),
        )
  unfolding grow_local_mem store_slot
  grow_local_mem-success v room ok ne = ground arith

alloc_pass-grows :
    (btv : ℕ → ℕ) (g : GrowAnswer) (m : Mem) (n : ℕ)
    → 0 < m.insufficient_local_mem
    → Slots m
    → m.nlocal_mems < max_local_mems
    → n ≤ local_mem_unit
    → g.item_ok ≡ true
    → g.heap ≢ 0
    → PassServed n m (alloc_pass btv false g true n m)
unfolding alloc_pass prepare_pass
alloc_pass-grows btv g m n due v room small ok ne =
    let m0 : Mem = record m { insufficient_local_mem = 0 } in
    let slots : Mem = record m0 { local_mems = set m.local_mems m.nlocal_mems g.heap } in
    rw (lt→ltb _ _ due, alloc_pass, prepare_pass)
      (rw (grow_local_mem-success btv g m0 (omega arith) room ok ne, alloc_pass, prepare_pass)
        (scan_free-arena n (btv g.heap) slots small))

module _ (btv : ℕ → ℕ) (irq : Bool) (g g' : GrowAnswer) (size : ℕ) (m : Mem) where
  -- Where no growth is due, a request of at least one byte that fits into some free block is
  -- served, with a block of its rounded size at the head of the allocated list, if the list node
  -- can be allocated.
  pub alloc_local_mem-Served :
      (not irq && ltb 0 m.insufficient_local_mem) ≡ false
      → 0 < size
      → size256 size ≤ largest m.free_list
      → Served (size256 size) m (alloc_local_mem btv irq g g' true size m)
  unfolding alloc_local_mem alloc_pass prepare_pass scan_free
  alloc_local_mem-Served calm pos fits =
      ground (arith, take_fit-Sized (size256 size) m.free_list, size256_bounds size)

  -- Where no growth is due and kmalloc of the list node fails after a larger block was shortened,
  -- NULL is returned and the bytes cut off are in neither list any more.
  alloc_local_mem-leak :
      {p : ℕ} {rest : List Block}
      → (not irq && ltb 0 m.insufficient_local_mem) ≡ false
      → take_fit (size256 size) m.free_list ≡ split p rest
      → alloc_local_mem btv irq g g' false size m ≡ some (0, record m { free_list = rest })
        × (bytes rest + size256 size ≡ bytes m.free_list)
  unfolding alloc_local_mem alloc_pass prepare_pass scan_free
  alloc_local_mem-leak calm e = ground (arith, take_fit-Sized (size256 size) m.free_list)

  -- In interrupt context nothing grows: a request of at least one byte, larger than every free
  -- block, gives NULL, leaves both lists as they were, and counts two misses for the next call
  -- from a process.
  pub alloc_local_mem-interrupt :
      (ok : Bool)
      → irq ≡ true
      → 0 < size
      → largest m.free_list < size256 size
      → alloc_local_mem btv irq g g' ok size m
        ≡ some (0, record m { insufficient_local_mem = m.insufficient_local_mem + 1 + 1 })
  unfolding alloc_local_mem alloc_pass prepare_pass scan_free
  alloc_local_mem-interrupt ok inside pos small =
      ground (arith, size256_bounds size, take_fit-Sized (size256 size) m.free_list)

-- What the first pass of a process does while nothing is due: it finds a block or counts one miss.
first_pass :
    (btv : ℕ → ℕ) (g : GrowAnswer) (n : ℕ) (m : Mem)
    → m.insufficient_local_mem ≡ 0
    → PassServed n m (alloc_pass btv false g true n m)
      ⊎ (alloc_pass btv false g true n m ≡ some (missing (record m { insufficient_local_mem = 1 })))
unfolding alloc_pass prepare_pass scan_free
first_pass btv g n m calm = ground (arith, take_fit-Sized n m.free_list)

-- From a process and with no miss counted before, a request of at most 64 KB is served whatever is
-- on the free list: if nothing there is large enough, the second pass takes it out of a new arena.
-- That supposes that a slot is unused and that the kernel gives the arena and the list nodes.
pub alloc_local_mem-grows :
    (btv : ℕ → ℕ) (g g' : GrowAnswer) (size : ℕ) (m : Mem)
    → m.insufficient_local_mem ≡ 0
    → Slots m
    → m.nlocal_mems < max_local_mems
    → size256 size ≤ local_mem_unit
    → g'.item_ok ≡ true
    → g'.heap ≢ 0
    → Served (size256 size) m (alloc_local_mem btv false g g' true size m)
unfolding alloc_local_mem
alloc_local_mem-grows btv g g' size m calm v room small ok ne = ground (
  arith,
  first_pass btv g (size256 size) m calm,
  alloc_pass-grows btv g' (record m { insufficient_local_mem = 1 }) (size256 size) (omega arith)
      (omega arith) room small ok ne,
)
