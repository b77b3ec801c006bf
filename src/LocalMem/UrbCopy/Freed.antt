-- ===== src/LocalMem/UrbCopy/Freed.antt =====
-- `Portable_FreeUrb` of portable-ohci-ps2.c takes back what `Portable_PrepareUrbOnSubmit` allocated.
use ps2_side_dumper.Base.{
  ℕ, ◌<◌, ◌≡◌, ◌≢◌, refl, ◌∙◌, Bool, true, false, Option, none, some, List, ◌∷◌, arith, ◌==◌,
  Bool-cases, inl, inr,
}
use mathlib.Core.Path.{subst}
use ps2_side_dumper.Usb.{Bytes}
use ps2_side_dumper.LocalMem.{Block, block, Mem, alloc_local_mem, free_local_mem, size256}
use ps2_side_dumper.LocalMem.Owned.{holders, Exclusive}
use ps2_side_dumper.LocalMem.Release.{free_local_mem-known, holders-free_local_mem}
use ps2_side_dumper.LocalMem.Alloc.{size256_bounds, alloc_local_mem-block}
use ps2_side_dumper.LocalMem.UrbCopy.{
  Extra, UrbBuffers, AllocAnswers, transfer_bytes, copy_in, prepare_transfer, prepare_setup,
  portable_prepare_urb_on_submit, portable_free_urb,
}

module _ (btv : ℕ → ℕ) where
  -- A copy that was made: a new allocated block at its address, which is not NULL
  abbrev Copied : ℕ → ℕ → Mem → Option (Bool × (ℕ × (Mem × Bytes))) → Type 0
  Copied src n m none = Unit
  Copied src n m (some (false, r)) = Unit
  Copied src n m (some (true, (p, (m', memory')))) =
      (p ≢ 0) × (m'.alloc_list ≡ block p (size256 n) ∷ m.alloc_list)

  copy_in-Copied :
      (k : AllocAnswers) (src n : ℕ) (m : Mem) (memory : Bytes)
      → Copied src n m (copy_in btv k src n m memory)
  unfolding copy_in
  copy_in-Copied k src n m memory =
      go (alloc_local_mem btv k.irq k.first k.second k.new_ok n m) refl
    where
      go :
          (r : Option (ℕ × Mem))
          → alloc_local_mem btv k.irq k.first k.second k.new_ok n m ≡ r
          → Copied src n m (copy_in btv k src n m memory)
      go none e = rw (e, copy_in) tt
      go (some (p, m')) e = elim (Bool-cases (p == 0)) [
        | inl z ↦ rw (e, copy_in, z) tt
        | inr z ↦
            let ne : p ≢ 0 = λ h. ground (arith, z, h) in
            rw (e, copy_in, z)
              (ne, (alloc_local_mem-block btv k.irq k.first k.second k.new_ok n m e ne).0)
      ]

-- Two blocks at one address would both hold its first byte.
apart :
    (p q n n' : ℕ) (rest : List Block) (m : Mem)
    → Exclusive m
    → m.alloc_list ≡ block q n' ∷ (block p n ∷ rest)
    → 0 < n
    → 0 < n'
    → p ≢ q
apart p q n n' rest m alone e pos pos' same = ground (arith, alone p, e, same)

-- Freeing two allocated blocks that head the list, the older one first, leaves the rest of it.
freed_both :
    (p q n n' : ℕ) (rest : List Block) (m : Mem)
    → m.alloc_list ≡ block q n' ∷ (block p n ∷ rest)
    → p ≢ 0
    → q ≢ 0
    → p ≢ q
    → (free_local_mem q (free_local_mem p m).1).1.alloc_list ≡ rest
freed_both p q n n' rest m e np nq ne =
    let first = free_local_mem-known p m np (ground (arith, e)) in
    let left : (free_local_mem p m).1.alloc_list ≡ block q n' ∷ rest =
      ground (arith, first, e, ne) in
    let second = free_local_mem-known q (free_local_mem p m).1 nq (ground (arith, left)) in
    ground (arith, second, left)

size256_pos : (n : ℕ) → 0 < n → 0 < size256 n
size256_pos n h = omega (arith, size256_bounds n)

transfer_bytes_pos : (u : UrbBuffers) → 0 < u.transfer_buffer_length → 0 < transfer_bytes u
transfer_bytes_pos u h = ground (arith, h)

module _ (btv : ℕ → ℕ) (k k' : AllocAnswers) (u : UrbBuffers) (m : Mem) (memory : Bytes) where
  -- Both copies: the two blocks at the head of the allocated list
  abbrev BothCopied : Option (Bool × (Extra × (Mem × Bytes))) → Type 0
  BothCopied none = Unit
  BothCopied (some (false, r)) = Unit
  BothCopied (some (true, (e, (m', memory')))) =
      (e.transfer_buffer ≢ 0)
      × ((e.setup_packet ≢ 0)
          × (m'.alloc_list
              ≡ block e.setup_packet (size256 8)
                ∷ (block e.transfer_buffer (size256 (transfer_bytes u)) ∷ m.alloc_list)))

  prepare-BothCopied :
      0 < u.transfer_buffer_length
      → u.setup_packet ≢ 0
      → BothCopied (portable_prepare_urb_on_submit btv k k' u m memory)
  unfolding portable_prepare_urb_on_submit prepare_transfer prepare_setup
  prepare-BothCopied pos some_setup =
      outer (copy_in btv k u.transfer_buffer (transfer_bytes u) m memory) refl
        (copy_in-Copied btv k u.transfer_buffer (transfer_bytes u) m memory)
    where
      no_len : (u.transfer_buffer_length == 0) ≡ false
      no_len = ground (arith, pos)

      no_setup : (u.setup_packet == 0) ≡ false
      no_setup = ground (arith, some_setup)

      inner :
          (p : ℕ) (m' : Mem) (memory' : Bytes)
          → copy_in btv k u.transfer_buffer (transfer_bytes u) m memory
            ≡ some (true, (p, (m', memory')))
          → p ≢ 0
          → m'.alloc_list ≡ block p (size256 (transfer_bytes u)) ∷ m.alloc_list
          → (r : Option (Bool × (ℕ × (Mem × Bytes))))
          → copy_in btv k' u.setup_packet 8 m' memory' ≡ r
          → Copied btv u.setup_packet 8 m' r
          → BothCopied (portable_prepare_urb_on_submit btv k k' u m memory)
      inner p m' memory' e np l none e' c =
          rw
            (
              no_len, e, no_setup, e', prepare_transfer, prepare_setup,
              portable_prepare_urb_on_submit,
            )
            tt
      inner p m' memory' e np l (some (false, (q, (m'', memory'')))) e' c =
          rw
            (
              no_len, e, no_setup, e', prepare_transfer, prepare_setup,
              portable_prepare_urb_on_submit,
            )
            tt
      inner p m' memory' e np l (some (true, (q, (m'', memory'')))) e' c =
          rw
            (
              no_len, e, no_setup, e', prepare_transfer, prepare_setup,
              portable_prepare_urb_on_submit,
            )
            (np, (c.0, rw (← l) c.1))

      outer :
          (r : Option (Bool × (ℕ × (Mem × Bytes))))
          → copy_in btv k u.transfer_buffer (transfer_bytes u) m memory ≡ r
          → Copied btv u.transfer_buffer (transfer_bytes u) m r
          → BothCopied (portable_prepare_urb_on_submit btv k k' u m memory)
      outer none e c = rw (no_len, e, prepare_transfer, portable_prepare_urb_on_submit) tt
      outer (some (false, (p, (m', memory')))) e c =
          rw (no_len, e, prepare_transfer, portable_prepare_urb_on_submit) tt
      outer (some (true, (p, (m', memory')))) e c =
          inner p m' memory' e c.0 c.1 (copy_in btv k' u.setup_packet 8 m' memory') refl
            (copy_in-Copied btv k' u.setup_packet 8 m' memory')

  prepared :
      {e : Extra} {m' : Mem} {memory' : Bytes}
      → 0 < u.transfer_buffer_length
      → u.setup_packet ≢ 0
      → portable_prepare_urb_on_submit btv k k' u m memory ≡ some (true, (e, (m', memory')))
      → BothCopied (some (true, (e, (m', memory'))))
  prepared pos some_setup h = subst BothCopied h (prepare-BothCopied pos some_setup)

  -- For an urb with a setup packet and a transfer buffer of at least one byte, for which
  -- `Portable_PrepareUrbOnSubmit` succeeded and left no byte in two blocks, `Portable_FreeUrb` makes
  -- the allocated list again what it was before, and every byte is in as many blocks as before it
  -- was freed.
  pub portable_free_urb-prepare :
      {e : Extra} {m' : Mem} {memory' : Bytes}
      → 0 < u.transfer_buffer_length
      → u.setup_packet ≢ 0
      → portable_prepare_urb_on_submit btv k k' u m memory ≡ some (true, (e, (m', memory')))
      → Exclusive m'
      → ((portable_free_urb e m').1.alloc_list ≡ m.alloc_list)
        × ((a : ℕ) → holders a (portable_free_urb e m').1 ≡ holders a m')
  unfolding portable_free_urb
  portable_free_urb-prepare {e} {m'} {memory'} pos some_setup h alone =
      let both = prepared pos some_setup h in
      (
        freed_both e.transfer_buffer e.setup_packet (size256 (transfer_bytes u)) (size256 8)
            m.alloc_list m' both.1.1 both.0 both.1.0
            (apart e.transfer_buffer e.setup_packet (size256 (transfer_bytes u)) (size256 8)
              m.alloc_list m' alone both.1.1
              (size256_pos (transfer_bytes u) (transfer_bytes_pos u pos))
              (size256_pos 8 (omega arith))),
        λ a.
            holders-free_local_mem a e.setup_packet (free_local_mem e.transfer_buffer m').1
            ∙ holders-free_local_mem a e.transfer_buffer m',
      )
