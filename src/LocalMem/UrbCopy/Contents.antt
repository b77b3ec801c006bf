-- ===== src/LocalMem/UrbCopy/Contents.antt =====
-- What is in the copies of an urb's buffers in portable-ohci-ps2.c, and what comes back.
use mathlib.Core.Path.{subst}
use ps2_side_dumper.Base.{
  ℕ, ◌+◌, ◌-◌, ◌<◌, ◌≤◌, ◌≡◌, ◌≢◌, refl, ◌∙◌, Bool, true, false, ◌&&◌, Option, none, some, arith,
  ◌==◌, ltb, leb, if◌then◌else◌, if_both, Bool-cases, inl, inr,
}
use ps2_side_dumper.Usb.{Bytes}
use ps2_side_dumper.LocalMem.{Mem, alloc_local_mem}
use ps2_side_dumper.LocalMem.UrbCopy.{
  Extra, UrbBuffers, AllocAnswers, transfer_bytes, copy_bytes, copy_in, prepare_transfer,
  prepare_setup, portable_prepare_urb_on_submit, portable_prepare_urb_on_return,
}

-- Memory after a copy that was made
abbrev CopyMade : ℕ → ℕ → Bytes → Option (Bool × (ℕ × (Mem × Bytes))) → Type 0
CopyMade src n memory none = Unit
CopyMade src n memory (some (false, r)) = Unit
CopyMade src n memory (some (true, (p, (m, memory')))) = memory' ≡ copy_bytes p src n memory

copy_in_given :
    (src n : ℕ) (memory : Bytes) (o : Option (ℕ × Mem))
    → CopyMade src n memory (elim o [
      | none ↦ none
      | some (p, m') ↦
          if p == 0
          then some (false, (0, (m', memory)))
          else some (true, (p, (m', copy_bytes p src n memory)))
    ])
copy_in_given src n memory none = tt
copy_in_given src n memory (some (p, m')) =
    if_both (CopyMade src n memory) (p == 0) _ _ (λ _. tt) (λ _. refl)

copy_in-CopyMade :
    (btv : ℕ → ℕ) (k : AllocAnswers) (src n : ℕ) (m : Mem) (memory : Bytes)
    → CopyMade src n memory (copy_in btv k src n m memory)
unfolding copy_in
copy_in-CopyMade btv k src n m memory =
    copy_in_given src n memory (alloc_local_mem btv k.irq k.first k.second k.new_ok n m)

module _ (btv : ℕ → ℕ) (k k' : AllocAnswers) (u : UrbBuffers) where
  -- Memory after both copies
  abbrev BothMade : Bytes → Option (Bool × (Extra × (Mem × Bytes))) → Type 0
  BothMade memory none = Unit
  BothMade memory (some (false, r)) = Unit
  BothMade memory (some (true, (e, (m, memory')))) =
      memory'
      ≡ copy_bytes e.setup_packet u.setup_packet 8
          (copy_bytes e.transfer_buffer u.transfer_buffer (transfer_bytes u) memory)

  second_made :
      (p : ℕ) (memory memory1 : Bytes) (o : Option (Bool × (ℕ × (Mem × Bytes))))
      → memory1 ≡ copy_bytes p u.transfer_buffer (transfer_bytes u) memory
      → CopyMade u.setup_packet 8 memory1 o
      → BothMade memory (elim o [
        | none ↦ none
        | some (done, (q, (m'', memory''))) ↦
            some (done, (record { transfer_buffer = p; setup_packet = q }, (m'', memory'')))
      ])
  second_made p memory memory1 none e c = tt
  second_made p memory memory1 (some (false, r)) e c = tt
  second_made p memory memory1 (some (true, (q, (m, memory2)))) e c = rw (← e) c

  first_made :
      (memory : Bytes) (o : Option (Bool × (ℕ × (Mem × Bytes))))
      → u.setup_packet ≢ 0
      → CopyMade u.transfer_buffer (transfer_bytes u) memory o
      → BothMade memory (elim o [
        | none ↦ none
        | some (false, (p, (m', memory'))) ↦
            some (false, (record { transfer_buffer = p; setup_packet = 0 }, (m', memory')))
        | some (true, (p, (m', memory'))) ↦ elim (prepare_setup btv k' u m' memory') [
          | none ↦ none
          | some (done, (q, (m'', memory''))) ↦
              some (done, (record { transfer_buffer = p; setup_packet = q }, (m'', memory'')))
        ]
      ])
  unfolding prepare_setup
  first_made memory none some_setup c = tt
  first_made memory (some (false, r)) some_setup c = tt
  first_made memory (some (true, (p, (m1, memory1)))) some_setup c =
      let packet : (u.setup_packet == 0) ≡ false = ground (arith, some_setup) in
      second_made p memory memory1 (prepare_setup btv k' u m1 memory1) c
        (rw packet (copy_in-CopyMade btv k' u.setup_packet 8 m1 memory1))

  prepare-BothMade :
      (m : Mem) (memory : Bytes)
      → 0 < u.transfer_buffer_length
      → u.setup_packet ≢ 0
      → BothMade memory (portable_prepare_urb_on_submit btv k k' u m memory)
  unfolding portable_prepare_urb_on_submit prepare_transfer
  prepare-BothMade m memory pos some_setup =
      let bytes : (u.transfer_buffer_length == 0) ≡ false = ground (arith, pos) in
      first_made memory (prepare_transfer btv k u m memory) some_setup
        (rw bytes (copy_in-CopyMade btv k u.transfer_buffer (transfer_bytes u) m memory))

-- The two copies share no byte, the setup packet is not in the first of them, and the transfer buffer
-- is in neither.
pub record Separate (u : UrbBuffers) (e : Extra) : Type 0 where
  pub copies : (i j : ℕ) → i < transfer_bytes u → j < 8 → e.setup_packet + j ≢ e.transfer_buffer + i
  pub source : (i j : ℕ) → i < transfer_bytes u → j < 8 → e.transfer_buffer + i ≢ u.setup_packet + j
  pub buffer :
      (i j : ℕ)
      → i < transfer_bytes u
      → j < u.transfer_buffer_length
      → e.transfer_buffer + i ≢ u.transfer_buffer + j
  pub packet :
      (i j : ℕ) → i < 8 → j < u.transfer_buffer_length → e.setup_packet + i ≢ u.transfer_buffer + j

inside :
    (dest src n : ℕ) (memory : Bytes) (i : ℕ)
    → i < n
    → copy_bytes dest src n memory (dest + i) ≡ memory (src + i)
inside dest src n memory i lt = let at : dest + i - dest ≡ i = omega arith in rw at (ground arith)

pub outside :
    (dest src n : ℕ) (memory : Bytes) (a : ℕ)
    → ((i : ℕ) → i < n → dest + i ≢ a)
    → copy_bytes dest src n memory a ≡ memory a
outside dest src n memory a apart = elim (Bool-cases (leb dest a && ltb a (dest + n))) [
  | inl there ↦ absurd (apart (a - dest) (ground (arith, there)) (ground (arith, there)))
  | inr away ↦ rw away refl
]

transfer_bytes_le : (u : UrbBuffers) → u.transfer_buffer_length ≤ transfer_bytes u
transfer_bytes_le u = ground arith

copied_back :
    (pipein : Bool) (n : ℕ) (e : Extra) (u : UrbBuffers) (device : Bytes) (i before : ℕ)
    → device (u.transfer_buffer + i) ≡ before
    → portable_prepare_urb_on_return pipein n e u device (u.transfer_buffer + i)
      ≡ (if pipein && ltb i n then device (e.transfer_buffer + i) else before)
unfolding portable_prepare_urb_on_return
copied_back false n e u device i before kept = kept
copied_back true n e u device i before kept = elim (Bool-cases (ltb i n)) [
  | inl moved ↦
      let some_moved : (n == 0) ≡ false = ground (arith, moved) in
      rw (some_moved, moved)
        (inside u.transfer_buffer e.transfer_buffer n device i (ground (arith, moved)))
  | inr behind ↦
      let copied =
        outside u.transfer_buffer e.transfer_buffer n device (u.transfer_buffer + i)
          (λ j less same. ground (arith, behind, less, same)) in
      elim (Bool-cases (n == 0)) [
        | inl nothing ↦ rw (nothing, behind) kept
        | inr something ↦ rw (something, behind) (copied ∙ kept)
      ]
]

module _ (btv : ℕ → ℕ) (k k' : AllocAnswers) (u : UrbBuffers) (m : Mem) (memory : Bytes) where
  -- The urb has both buffers, both copies were made, and they and the buffers are apart.
  pub record Prepared (e : Extra) (m' : Mem) (memory' : Bytes) : Type 0 where
    pub some_bytes : 0 < u.transfer_buffer_length
    pub some_setup : u.setup_packet ≢ 0
    pub success :
        portable_prepare_urb_on_submit btv k k' u m memory ≡ some (true, (e, (m', memory')))
    pub separate : Separate u e

  made :
      {e : Extra} {m' : Mem} {memory' : Bytes}
      → Prepared e m' memory'
      → memory'
        ≡ copy_bytes e.setup_packet u.setup_packet 8
            (copy_bytes e.transfer_buffer u.transfer_buffer (transfer_bytes u) memory)
  made v =
      subst (BothMade btv k k' u memory) v.success
        (prepare-BothMade btv k k' u m memory v.some_bytes v.some_setup)

  -- The transfer buffer is as before once the copies are made.
  buffer_kept :
      {e : Extra} {m' : Mem} {memory' : Bytes}
      → Prepared e m' memory'
      → (j : ℕ) → j < u.transfer_buffer_length
      → memory' (u.transfer_buffer + j) ≡ memory (u.transfer_buffer + j)
  buffer_kept {e} v j lt =
      let first : Bytes =
        copy_bytes e.transfer_buffer u.transfer_buffer (transfer_bytes u) memory in
      rw (made v) (
        outside e.setup_packet u.setup_packet 8 first (u.transfer_buffer + j)
          (λ i less. v.separate.packet i j less lt)
        ∙ outside e.transfer_buffer u.transfer_buffer (transfer_bytes u) memory
            (u.transfer_buffer + j) (λ i less. v.separate.buffer i j less lt))

  -- For an urb with a setup packet and a transfer buffer of at least one byte, for which the copies
  -- are made where they share no byte with each other or with the transfer buffer, and the first of
  -- them none with the setup packet: once both copies are made, they hold the bytes of the transfer
  -- buffer and of the setup packet. Where the device then moves `actual_length` bytes, no more than
  -- the buffer has, and changes of memory only these first bytes of the copy,
  -- `Portable_PrepareUrbOnReturn` leaves in the transfer buffer of an urb that comes in the bytes
  -- that the device has moved, and behind them, and for an urb that goes out, what was there.
  pub portable_prepare_urb_on_return-prepare :
      {e : Extra} {m' : Mem} {memory' : Bytes}
      → (pipein : Bool) (actual_length : ℕ) (device : Bytes) → Prepared e m' memory'
      → actual_length ≤ u.transfer_buffer_length
      → ((a : ℕ) → ((i : ℕ) → i < actual_length → e.transfer_buffer + i ≢ a) → device a ≡ memory' a)
      → ((i : ℕ)
          → i < u.transfer_buffer_length
          → memory' (e.transfer_buffer + i) ≡ memory (u.transfer_buffer + i))
        × ((j : ℕ) → j < 8 → memory' (e.setup_packet + j) ≡ memory (u.setup_packet + j))
        × ((i : ℕ)
            → i < u.transfer_buffer_length
            → portable_prepare_urb_on_return pipein actual_length e u device (u.transfer_buffer + i)
              ≡ (if pipein && ltb i actual_length
                  then device (e.transfer_buffer + i)
                  else memory (u.transfer_buffer + i)))
  unfolding portable_prepare_urb_on_return
  portable_prepare_urb_on_return-prepare {e} {m'} {memory'} pipein n device v le only = (
    λ i lt.
        let first : Bytes =
          copy_bytes e.transfer_buffer u.transfer_buffer (transfer_bytes u) memory in
        let less : i < transfer_bytes u = omega (arith, transfer_bytes_le u) in
        rw (made v) (
          outside e.setup_packet u.setup_packet 8 first (e.transfer_buffer + i)
            (λ j lt8. v.separate.copies i j less lt8)
          ∙ inside e.transfer_buffer u.transfer_buffer (transfer_bytes u) memory i less),
    λ j lt.
        let first : Bytes =
          copy_bytes e.transfer_buffer u.transfer_buffer (transfer_bytes u) memory in
        rw (made v) (
          inside e.setup_packet u.setup_packet 8 first j lt
          ∙ outside e.transfer_buffer u.transfer_buffer (transfer_bytes u) memory
              (u.setup_packet + j) (λ i less. v.separate.source i j less lt)),
    λ i lt.
        let kept =
          only (u.transfer_buffer + i)
            (λ j less. v.separate.buffer j i (omega (arith, transfer_bytes_le u)) lt)
          ∙ buffer_kept v i lt in
        copied_back pipein n e u device i (memory (u.transfer_buffer + i)) kept,
  )
