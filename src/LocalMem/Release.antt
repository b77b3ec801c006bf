-- ===== src/LocalMem/Release.antt =====
-- `FreeLocalMem` of portable-ohci-ps2.c.
use ps2_side_dumper.Base.{
  ℕ, ◌+◌, ◌≡◌, ◌≢◌, refl, Bool, true, false, ◌||◌, inl, inr, Option, none, some, List, [], ◌∷◌,
  arith, ◌==◌, if◌then◌else◌, Option-cases,
}
use ps2_side_dumper.LocalMem.{Block, Mem, find_block, merge_block, release, free_local_mem}
use ps2_side_dumper.LocalMem.Owned.{count, holders, bytes, find_block-Removes, merge_block-Merges}

-- Whether a block of the list begins at `p`, and the list without the first such block.
abbrev pub starts : ℕ → List Block → Bool
starts p [] = false
starts p (b ∷ bs) = (b.addr == p) || starts p bs

abbrev pub without : ℕ → List Block → List Block
without p [] = []
without p (b ∷ bs) = if b.addr == p then bs else b ∷ without p bs

release-holders :
    (a : ℕ) (c : Block) (m : Mem)
    → (holders a (release c m) ≡ count a (c ∷ []) + holders a m)
      × ((release c m).alloc_list ≡ m.alloc_list)
unfolding release
release-holders a c m = ground (arith, merge_block-Merges a c m.free_list)

-- `FreeLocalMem` moves bytes between the two lists and neither loses nor doubles one: every byte is
-- in as many blocks after the call as before it.
pub holders-free_local_mem : (a p : ℕ) (m : Mem) → holders a (free_local_mem p m).1 ≡ holders a m
unfolding free_local_mem
holders-free_local_mem a p m = elim (Option-cases (find_block p m.alloc_list)) [
  | inl e ↦ rw (e, free_local_mem) (ground arith)
  | inr ((c, rest), e) ↦ ground (
    arith,
    e,
    find_block-Removes a p m.alloc_list,
    release-holders a c (record m { alloc_list = rest }),
  )
]

-- What the scan of the allocated list returns, by the list's own description.
abbrev Scanned : ℕ → List Block → Option (Block × List Block) → Type 0
Scanned p bs none = starts p bs ≡ false
Scanned p bs (some (c, rest)) =
    (starts p bs ≡ true) × (c.addr ≡ p) × (rest ≡ without p bs) × (bytes bs ≡ c.size + bytes rest)

find_block-Scanned : (p : ℕ) (bs : List Block) → Scanned p bs (find_block p bs)
unfolding find_block
find_block-Scanned p [] = refl
find_block-Scanned p (b ∷ bs) = ground (arith, find_block-Scanned p bs)

abbrev Merged : Block → List Block → Option (List Block) → Type 0
Merged c bs none = Unit
Merged c bs (some bs') = bytes bs' ≡ c.size + bytes bs

merge_block-Merged : (c : Block) (bs : List Block) → Merged c bs (merge_block c bs)
unfolding merge_block
merge_block-Merged c [] = tt
merge_block-Merged c (b ∷ bs) = ground (arith, merge_block-Merged c bs)

bytes-release :
    (c : Block) (m : Mem)
    → (bytes (release c m).free_list ≡ c.size + bytes m.free_list)
      × ((release c m).alloc_list ≡ m.alloc_list)
      × ((release c m).nlocal_mems ≡ m.nlocal_mems)
unfolding release
bytes-release c m = ground (arith, merge_block-Merged c m.free_list)

-- For a pointer that begins an allocated block, and is not NULL, `FreeLocalMem` returns 1, drops
-- exactly that block from the allocated list, and keeps the number of bytes in the two lists.
pub free_local_mem-known :
    (p : ℕ) (m : Mem)
    → p ≢ 0
    → starts p m.alloc_list ≡ true
    → let (r, m') = free_local_mem p m in
      (r ≡ 1)
      × (m'.alloc_list ≡ without p m.alloc_list)
      × (bytes m'.free_list + bytes m'.alloc_list ≡ bytes m.free_list + bytes m.alloc_list)
unfolding free_local_mem
free_local_mem-known p m ne h = elim (Option-cases (find_block p m.alloc_list)) [
  | inl e ↦ ground (arith, e, find_block-Scanned p m.alloc_list)
  | inr ((c, rest), e) ↦ ground (
    arith,
    e,
    find_block-Scanned p m.alloc_list,
    bytes-release c (record m { alloc_list = rest }),
  )
]

-- For NULL, and for a pointer that begins no allocated block, `FreeLocalMem` returns 0 and changes
-- nothing.
pub free_local_mem-unknown :
    (p : ℕ) (m : Mem)
    → (if p == 0 then false else starts p m.alloc_list) ≡ false
    → free_local_mem p m ≡ (0, m)
unfolding free_local_mem
free_local_mem-unknown p m h = ground (arith, find_block-Scanned p m.alloc_list)
