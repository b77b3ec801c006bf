-- ===== src/LocalMem/Owned.antt =====
-- Which bytes the blocks of the two lists of portable-ohci-ps2.c hold.
use ps2_side_dumper.Base.{
  ℕ, ◌+◌, ◌≤◌, ◌≡◌, ◌&&◌, Option, none, some, List, [], ◌∷◌, arith, ltb, leb, ◌==◌, if◌then◌else◌,
  ◌-◌, ◌<◌, Bool-cases, inl, inr,
}
use ps2_side_dumper.LocalMem.{
  Block, block, Mem, find_block, merge_block, Fit, exact, split, no_fit, skip, take_fit,
}

-- 1 if the byte at `a` lies in the block, else 0
abbrev pub covers : ℕ → Block → ℕ
covers a b = if leb b.addr a && ltb a (b.addr + b.size) then 1 else 0

-- How many blocks of the list hold the byte at `a`.
abbrev pub count : ℕ → List Block → ℕ
count a [] = 0
count a (b ∷ bs) = covers a b + count a bs

abbrev pub holders : ℕ → Mem → ℕ
holders a m = count a m.free_list + count a m.alloc_list

-- No byte is in two blocks, free or allocated.
abbrev pub Exclusive : Mem → Type 0
Exclusive m = (a : ℕ) → holders a m ≤ 1

-- How many bytes the blocks of a list have together.
abbrev pub bytes : List Block → ℕ
bytes [] = 0
bytes (b ∷ bs) = b.size + bytes bs

-- Two blocks that touch hold what their union holds.
covers-merge :
    (a p n m : ℕ) → covers a (block p (n + m)) ≡ covers a (block p n) + covers a (block (p + n) m)
covers-merge a p n m = ground arith

-- A removal of one block takes exactly its bytes out of the list.
abbrev pub Removes : ℕ → List Block → Option (Block × List Block) → Type 0
Removes a bs none = Unit
Removes a bs (some (c, rest)) = count a bs ≡ covers a c + count a rest

pub find_block-Removes : (a p : ℕ) (bs : List Block) → Removes a bs (find_block p bs)
unfolding find_block
find_block-Removes a p [] = tt
find_block-Removes a p (b ∷ bs) = ground (arith, find_block-Removes a p bs)

-- A merge adds exactly the bytes of the block that is merged.
abbrev pub Merges : ℕ → Block → List Block → Option (List Block) → Type 0
Merges a c bs none = Unit
Merges a c bs (some bs') = count a bs' ≡ covers a c + count a bs

pub merge_block-Merges : (a : ℕ) (c : Block) (bs : List Block) → Merges a c bs (merge_block c bs)
unfolding merge_block
merge_block-Merges a c [] = tt
merge_block-Merges a c (b ∷ bs) =
    ground (arith, merge_block-Merges a c bs, covers-merge a b.addr b.size c.size)

-- What `take_fit` returns and what it leaves make up the list; a piece cut off has the size asked.
abbrev pub Fits : ℕ → ℕ → List Block → Fit → Type 0
Fits a n bs (exact b rest) = (b.size ≡ n) × (count a bs ≡ covers a b + count a rest)
Fits a n bs (split p rest) = count a bs ≡ covers a (block p n) + count a rest
Fits a n bs no_fit = Unit

skip-Fits :
    (a n : ℕ) (b : Block) (bs : List Block) (f : Fit) → Fits a n bs f → Fits a n (b ∷ bs) (skip b f)
unfolding skip
skip-Fits a n b bs (exact c rest) h = omega arith
skip-Fits a n b bs (split p rest) h = omega arith
skip-Fits a n b bs no_fit h = tt

covers-split :
    (a p n m : ℕ)
    → n < m
    → covers a (block p m) ≡ covers a (block p (m - n)) + covers a (block (p + (m - n)) n)
covers-split a p n m h = ground arith

pub take_fit-Fits : (a n : ℕ) (bs : List Block) → Fits a n bs (take_fit n bs)
unfolding take_fit
take_fit-Fits a n [] = tt
take_fit-Fits a n (b ∷ bs) = elim (Bool-cases (b.size == n)) [
  | inl e ↦ rw e (ground arith)
  | inr e ↦ rw e (elim (Bool-cases (ltb n b.size)) [
    | inl h ↦ rw h (ground (arith, covers-split a b.addr n b.size))
    | inr h ↦ rw h (skip-Fits a n b bs (take_fit n bs) (take_fit-Fits a n bs))
  ])
]
