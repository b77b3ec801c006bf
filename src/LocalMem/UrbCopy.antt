-- ===== src/LocalMem/UrbCopy.antt =====
-- The copies of an urb's buffers for the I/O processor in portable-ohci-ps2.c:
-- `Portable_PrepareUrbOnSubmit`, `Portable_PrepareUrbOnReturn` and `Portable_FreeUrb`. Memory is
-- its contents by address, and a copy of bytes reads the contents from before. `QuadCopy` stands here
-- as such a copy; its instructions are in Quad.
pub mod Freed
pub mod Contents
pub mod Quad
use ps2_side_dumper.Base.{
  ℕ, ◌+◌, ◌-◌, ◌*◌, ◌/◌, ◌%◌, Bool, true, false, not, ◌&&◌, Option, none, some, ltb, leb, ◌==◌,
  if◌then◌else◌,
}
use ps2_side_dumper.LocalMem.{Mem, GrowAnswer, alloc_local_mem, free_local_mem}
use ps2_side_dumper.Usb.{Bytes}

-- `Portable_Extra_t`: the addresses of the copies, 0 for NULL
pub record Extra : Type 0 where
  pub transfer_buffer : ℕ
  pub setup_packet : ℕ

-- What is read of the urb: its buffers' addresses, 0 for NULL, and the length
pub record UrbBuffers : Type 0 where
  pub transfer_buffer : ℕ
  pub setup_packet : ℕ
  pub transfer_buffer_length : ℕ

-- What the kernel answers to one call of `AllocLocalMem`
pub record AllocAnswers : Type 0 where
  pub irq : Bool
  pub first : GrowAnswer
  pub second : GrowAnswer
  pub new_ok : Bool

-- memcpy
abbrev pub copy_bytes : ℕ → ℕ → ℕ → Bytes → Bytes
copy_bytes dest src n memory =
    λ a. if leb dest a && ltb a (dest + n) then memory (src + (a - dest)) else memory a

-- `(len + QUAD_COPY_CHUNK_SIZE) & ~(QUAD_COPY_CHUNK_SIZE - 1)`
abbrev pub quad_bytes : ℕ → ℕ
quad_bytes len = (len + 64) / 64 * 64

-- How many bytes are allocated and copied for the transfer buffer.
abbrev pub transfer_bytes : UrbBuffers → ℕ
transfer_bytes u =
    if u.transfer_buffer % 32 == 0
    then quad_bytes u.transfer_buffer_length
    else u.transfer_buffer_length

module _ (bus_to_virt : ℕ → ℕ) where
  -- An allocation and the copy: whether it succeeded, the address, and the new state; `none` is an
  -- access outside of `local_mems`.
  unfoldable pub copy_in : AllocAnswers → ℕ → ℕ → Mem → Bytes → Option (Bool × (ℕ × (Mem × Bytes)))
  copy_in k src n m memory =
      elim (alloc_local_mem bus_to_virt k.irq k.first k.second k.new_ok n m) [
        | none ↦ none
        | some (p, m') ↦
            if p == 0
            then some (false, (0, (m', memory)))
            else some (true, (p, (m', copy_bytes p src n memory)))
      ]

  unfoldable pub prepare_transfer :
      AllocAnswers → UrbBuffers → Mem → Bytes → Option (Bool × (ℕ × (Mem × Bytes)))
  prepare_transfer k u m memory =
      if u.transfer_buffer_length == 0
      then some (true, (0, (m, memory)))
      else copy_in k u.transfer_buffer (transfer_bytes u) m memory

  unfoldable pub prepare_setup :
      AllocAnswers → UrbBuffers → Mem → Bytes → Option (Bool × (ℕ × (Mem × Bytes)))
  prepare_setup k u m memory =
      if u.setup_packet == 0
      then some (true, (0, (m, memory)))
      else copy_in k u.setup_packet 8 m memory

  -- `Portable_PrepareUrbOnSubmit`: false for -ENOMEM; a copy that was made stays allocated then.
  unfoldable pub portable_prepare_urb_on_submit :
      AllocAnswers
      → AllocAnswers
      → UrbBuffers
      → Mem
      → Bytes
      → Option (Bool × (Extra × (Mem × Bytes)))
  portable_prepare_urb_on_submit k k' u m memory = elim (prepare_transfer k u m memory) [
    | none ↦ none
    | some (false, (p, (m', memory'))) ↦
        some (false, (record { transfer_buffer = p; setup_packet = 0 }, (m', memory')))
    | some (true, (p, (m', memory'))) ↦ elim (prepare_setup k' u m' memory') [
      | none ↦ none
      | some (done, (q, (m'', memory''))) ↦
          some (done, (record { transfer_buffer = p; setup_packet = q }, (m'', memory'')))
    ]
  ]

-- `Portable_PrepareUrbOnReturn`, for an urb that comes in or not, and moved so many bytes
unfoldable pub portable_prepare_urb_on_return : Bool → ℕ → Extra → UrbBuffers → Bytes → Bytes
portable_prepare_urb_on_return pipein actual_length e u memory =
    if pipein && not (actual_length == 0)
    then copy_bytes u.transfer_buffer e.transfer_buffer actual_length memory
    else memory

-- `Portable_FreeUrb`
unfoldable pub portable_free_urb : Extra → Mem → Extra × Mem
portable_free_urb e m = (
  record { transfer_buffer = 0; setup_packet = 0 },
  (free_local_mem e.setup_packet (free_local_mem e.transfer_buffer m).1).1,
)
