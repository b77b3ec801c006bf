-- ===== src/Ohci/Transfer/Count.antt =====
-- The descriptors counted by `sohci_submit_urb` of portable-ohci-core.c against those that
-- `td_submit_urb` fills.
use ps2_side_dumper.Base.{
  ℕ, zero, suc, ◌+◌, ◌-◌, ◌/◌, ◌≤◌, ◌<◌, ◌≡◌, refl, Bool, List, [], ◌∷◌, length, ltb, ltb→lt,
  if◌then◌else◌, Bool-cases, inl, inr, arith, ap,
}
use native.Mathlib.Nat.{zero-add}
use ps2_side_dumper.Usb.{PipeType, isochronous, interrupt, control, bulk, other_type}
use ps2_side_dumper.Ohci.Transfer.{
  Td, Toggle, td_t_toggle, Transfer, td_size, bulk_tds, iso_tds, td_t_data0, td_submit_urb,
}

-- The descriptors cover the bytes from `offset` up to `end` without a gap, at most 4096 each.
abbrev pub Covers : List Td → ℕ → ℕ → Type 0
Covers [] offset end = offset ≡ end
Covers (td ∷ tds) offset end =
    (td.offset ≡ offset) × ((td.len ≤ 4096) × Covers tds (offset + td.len) end)

rejoin : (offset left : ℕ) → 4096 < left → offset + 4096 + (left - 4096) ≡ offset + left
rejoin offset left h = omega arith

from_start : (tds : List Td) (len : ℕ) → Covers tds 0 (0 + len) → Covers tds 0 len
from_start tds len h = rw (zero-add len) at h

bulk_tds-Covers :
    (fuel : ℕ) (out : Bool) (toggle : Toggle) (offset left : ℕ)
    → left ≤ fuel
    → Covers (bulk_tds fuel out toggle offset left) offset (offset + left)
      × (length (bulk_tds fuel out toggle offset left) ≡ (left - 1) / 4096 + 1)
unfolding bulk_tds
bulk_tds-Covers zero out toggle offset left h = ((refl, (omega arith, refl)), omega arith)
bulk_tds-Covers (suc fuel) out toggle offset left h =
    let (ih, count) =
      bulk_tds-Covers fuel out td_t_toggle (offset + 4096) (left - 4096) (omega arith) in
    elim (Bool-cases (ltb 4096 left)) [
      | inl more ↦
          rw (more, bulk_tds)
            (
              (refl, (omega arith, rw (← rejoin offset left (ltb→lt 4096 left more)) ih)),
              ground (arith, more, count),
            )
      | inr done ↦ rw (done, bulk_tds) ((refl, (ground (arith, done), refl)), ground (arith, done))
    ]

length-iso_tds : (ps : List (ℕ × ℕ)) → length (iso_tds ps) ≡ length ps
length-iso_tds [] = refl
length-iso_tds ((offset, len) ∷ ps) = ap suc (length-iso_tds ps)

-- A bulk urb's descriptors cover its transfer buffer in order and without a gap, with at most 4096
-- bytes each, which is what one descriptor can address.
pub td_submit_urb-Covers :
    (toggled out : Bool) (len : ℕ) (packets : List (ℕ × ℕ))
    → Covers
        (td_submit_urb toggled
          record { kind = bulk; out = out; transfer_buffer_length = len; packets = packets })
        0
        len
unfolding td_submit_urb
td_submit_urb-Covers toggled out len packets =
    from_start (bulk_tds len out (if toggled then td_t_toggle else td_t_data0) 0 len) len
      (bulk_tds-Covers len out (if toggled then td_t_toggle else td_t_data0) 0 len (omega arith)).0

count :
    (toggled : Bool) (t : Transfer) (k : PipeType)
    → t.kind ≡ k
    → (t.kind ≡ control → t.transfer_buffer_length ≤ 4096)
    → length (td_submit_urb toggled t) ≡ td_size t
unfolding td_submit_urb td_size
count toggled t bulk e short =
    rw (e)
      (bulk_tds-Covers t.transfer_buffer_length t.out (if toggled then td_t_toggle else td_t_data0)
        0 t.transfer_buffer_length (omega arith)).1
count toggled t interrupt e short = rw (e) refl
count toggled t control e short =
    let h = short e in
    rw (e) (elim (Bool-cases (ltb 0 t.transfer_buffer_length)) [
      | inl more ↦ rw (more) (ground (arith, more, h))
      | inr done ↦ rw (done) (ground (arith, done))
    ])
count toggled t isochronous e short = rw (e) (length-iso_tds t.packets)
count toggled t other_type e short = rw (e) refl

-- `td_submit_urb` fills exactly the descriptors that `sohci_submit_urb` counted and allocated, for
-- every urb but a control urb of more than 4096 bytes.
pub td_submit_urb-td_size :
    (toggled : Bool) (t : Transfer)
    → (t.kind ≡ control → t.transfer_buffer_length ≤ 4096)
    → length (td_submit_urb toggled t) ≡ td_size t
unfolding td_submit_urb td_size
td_submit_urb-td_size toggled t short = count toggled t t.kind refl short

-- For a control urb of more than 4096 bytes `td_submit_urb` fills fewer descriptors than
-- `urb_priv->length` says: there is only one for all of the data.
pub td_submit_urb-fewer :
    (toggled out : Bool) (len : ℕ) (packets : List (ℕ × ℕ))
    → 4096 < len
    → length (
        td_submit_urb toggled
          record { kind = control; out = out; transfer_buffer_length = len; packets = packets })
      < td_size
          record { kind = control; out = out; transfer_buffer_length = len; packets = packets }
unfolding td_submit_urb td_size
td_submit_urb-fewer toggled out len packets h = ground arith
