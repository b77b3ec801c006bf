-- ===== src/LocalMem/Alloc.antt =====
-- `AllocLocalMem` of portable-ohci-ps2.c.
use ps2_side_dumper.Base.{
  ℕ, ◌+◌, ◌%◌, ◌≤◌, ◌<◌, ◌≡◌, ◌≢◌, refl, Bool, inl, inr, Option, none, some, ◌∙◌, ◌∷◌, arith,
  Option-cases,
}
use ps2_side_dumper.LocalMem.{
  Block, block, Mem, local_mem_unit, GrowAnswer, grow_local_mem, store_slot, size256, Attempt,
  finish, missing, scan_free, prepare_pass, alloc_pass, alloc_local_mem, free_local_mem,
}
use ps2_side_dumper.LocalMem.Release.{holders-free_local_mem, free_local_mem-known}
use ps2_side_dumper.LocalMem.Owned.{covers, holders, Exclusive, take_fit-Fits}

-- The size reserved is the least multiple of 256 that is no smaller than the size asked for.
pub size256_bounds : (n : ℕ) → (n ≤ size256 n) × (size256 n < n + 256) × (size256 n % 256 ≡ 0)
unfolding size256
size256_bounds n = omega arith

-- The arena that a call of `GrowLocalMem` may add.
abbrev pub arena : (ℕ → ℕ) → GrowAnswer → Block
arena btv g = block (btv g.heap) local_mem_unit

module _ (btv : ℕ → ℕ) where
  -- A growth adds the bytes of its arena at most.
  abbrev MayAdd : ℕ → Block → Mem → Option Mem → Type 0
  MayAdd a b m none = Unit
  MayAdd a b m (some m') =
      (holders a m' ≤ covers a b + holders a m) × (m'.alloc_list ≡ m.alloc_list)

  prepare_pass-MayAdd :
      (a : ℕ) (irq : Bool) (g : GrowAnswer) (m : Mem)
      → MayAdd a (arena btv g) m (prepare_pass btv irq g m)
  unfolding prepare_pass grow_local_mem store_slot
  prepare_pass-MayAdd a irq g m = ground arith

  abbrev PassAdds : ℕ → ℕ → Block → Mem → Option Attempt → Type 0
  PassAdds a n b m none = Unit
  PassAdds a n b m (some (finish p m')) =
      (holders a m' ≤ covers a b + holders a m) × (p ≢ 0 → m'.alloc_list ≡ block p n ∷ m.alloc_list)
  PassAdds a n b m (some (missing m')) =
      (holders a m' ≤ covers a b + holders a m) × (m'.alloc_list ≡ m.alloc_list)

  abbrev Scans : ℕ → ℕ → Mem → Attempt → Type 0
  Scans a n m (finish p m') =
      (holders a m' ≤ holders a m) × (p ≢ 0 → m'.alloc_list ≡ block p n ∷ m.alloc_list)
  Scans a n m (missing m') = (holders a m' ≡ holders a m) × (m'.alloc_list ≡ m.alloc_list)

  scan_free-Scans : (a n : ℕ) (ok : Bool) (m : Mem) → Scans a n m (scan_free n ok m)
  unfolding scan_free
  scan_free-Scans a n ok m = ground (arith, take_fit-Fits a n m.free_list)

  alloc_pass-PassAdds :
      (a : ℕ) (irq : Bool) (g : GrowAnswer) (ok : Bool) (n : ℕ) (m : Mem)
      → PassAdds a n (arena btv g) m (alloc_pass btv irq g ok n m)
  unfolding alloc_pass
  alloc_pass-PassAdds a irq g ok n m = elim (Option-cases (prepare_pass btv irq g m)) [
    | inl e ↦ rw (e, alloc_pass) tt
    | inr (m', e) ↦ ground (arith, e, prepare_pass-MayAdd a irq g m, scan_free-Scans a n ok m')
  ]

  abbrev Adds : ℕ → ℕ → Block → Block → Mem → Option (ℕ × Mem) → Type 0
  Adds a n b b' m none = Unit
  Adds a n b b' m (some (p, m')) =
      (holders a m' ≤ covers a b + covers a b' + holders a m)
      × (p ≢ 0 → m'.alloc_list ≡ block p n ∷ m.alloc_list)

  alloc_local_mem-Adds :
      (a : ℕ) (irq : Bool) (g g' : GrowAnswer) (ok : Bool) (size : ℕ) (m : Mem)
      → Adds a
          (size256 size)
          (arena btv g)
          (arena btv g')
          m
          (alloc_local_mem btv irq g g' ok size m)
  unfolding alloc_local_mem
  alloc_local_mem-Adds a irq g g' ok size m =
      first (alloc_pass btv irq g ok (size256 size) m) refl
        (alloc_pass-PassAdds a irq g ok (size256 size) m)
    where
      first :
          (r : Option Attempt)
          → alloc_pass btv irq g ok (size256 size) m ≡ r
          → PassAdds a (size256 size) (arena btv g) m r
          → Adds a
              (size256 size)
              (arena btv g)
              (arena btv g')
              m
              (alloc_local_mem btv irq g g' ok size m)
      first none e h = rw (e, alloc_local_mem) tt
      first (some (finish p m')) e h = rw (e, alloc_local_mem) (omega (arith, h.0), h.1)
      first (some (missing m')) e h =
          ground (arith, e, alloc_pass-PassAdds a irq g' ok (size256 size) m')

  -- If the arenas that the kernel may hand out overlap neither each other nor any block, then after
  -- `AllocLocalMem` still no byte is in two blocks, whatever it returned.
  pub alloc_local_mem-Exclusive :
      (irq : Bool) (g g' : GrowAnswer) (ok : Bool) (size : ℕ) (m : Mem) {p : ℕ} {m' : Mem}
      → ((a : ℕ) → covers a (arena btv g) + covers a (arena btv g') + holders a m ≤ 1)
      → alloc_local_mem btv irq g g' ok size m ≡ some (p, m')
      → Exclusive m'
  alloc_local_mem-Exclusive irq g g' ok size m room e a =
      let h = alloc_local_mem-Adds a irq g g' ok size m in omega (arith, room a, (rw e at h).0)

  -- A pointer other than NULL that `AllocLocalMem` returns begins a new block at the head of the
  -- allocated list, of the size asked for rounded up to a multiple of 256; the other allocated
  -- blocks stay as they were.
  pub alloc_local_mem-block :
      (irq : Bool) (g g' : GrowAnswer) (ok : Bool) (size : ℕ) (m : Mem) {p : ℕ} {m' : Mem}
      → alloc_local_mem btv irq g g' ok size m ≡ some (p, m')
      → p ≢ 0
      → (m'.alloc_list ≡ block p (size256 size) ∷ m.alloc_list)
        × (size ≤ size256 size)
        × (size256 size % 256 ≡ 0)
  alloc_local_mem-block irq g g' ok size m e ne =
      let h = alloc_local_mem-Adds 0 irq g g' ok size m in
      let (lo, _, al) = size256_bounds size in ((rw e at h).1 ne, lo, al)

  -- What `AllocLocalMem` returned, `FreeLocalMem` takes back: it returns 1, the allocated list is
  -- again what it was, and every byte is in as many blocks as before it was freed.
  pub free_local_mem-alloc_local_mem :
      (irq : Bool) (g g' : GrowAnswer) (ok : Bool) (size : ℕ) (m : Mem) {p : ℕ} {m' : Mem}
      → alloc_local_mem btv irq g g' ok size m ≡ some (p, m')
      → p ≢ 0
      → let (r, m'') = free_local_mem p m' in
        (r ≡ 1) × (m''.alloc_list ≡ m.alloc_list) × ((a : ℕ) → holders a m'' ≡ holders a m')
  free_local_mem-alloc_local_mem irq g g' ok size m {p} {m'} e ne =
      let h = alloc_local_mem-block irq g g' ok size m e ne in
      let k = free_local_mem-known p m' ne (rw h.0 (ground arith)) in
      (k.0, k.1 ∙ rw h.0 (ground arith), λ a. holders-free_local_mem a p m')
