-- ===== src/Ohci/Queue.antt =====
-- The queue of transfer descriptors behind an endpoint in portable-ohci-core.c: `td_fill`, and
-- `td_submit_urb` as the calls of it. A descriptor is named by its address. The bits of hwINFO are
-- those of `Td`; the flushes of the caches and the start of the lists are left out.
pub mod Chained
use ps2_side_dumper.Base.{
  ℕ, zero, suc, ◌+◌, ◌-◌, ◌%◌, ◌^◌, Bool, true, false, List, [], ◌∷◌, ltb, ◌==◌, ◌||◌,
  if◌then◌else◌, get_or, set, bit_and, bit_or, length,
}
use ps2_side_dumper.Usb.{PipeType, isochronous, interrupt, control, bulk, other_type}
use ps2_side_dumper.LocalMem.UrbCopy.{Extra}
use ps2_side_dumper.Ohci.Transfer.{
  Td, Token, td_dp_setup, td_dp_in, td_dp_out, td_iso, Transfer, td_submit_urb,
}
use ps2_side_dumper.Ohci.Endpoints.{Ed, Eds, update}

-- `td_t`; `code` is the completion code in hwINFO.
pub record TdCell : Type 0 where
  pub info : Td
  pub code : ℕ
  pub hw_cbp : ℕ
  pub hw_be : ℕ
  pub hw_psw : ℕ
  pub hw_next_td : ℕ
  pub index : ℕ
  pub ed : ℕ
  pub urb : ℕ
  pub next_dl_td : ℕ

abbrev pub Tds : Type 0
Tds = ℕ → TdCell

abbrev pub update_td : Tds → ℕ → (TdCell → TdCell) → Tds
update_td tds t f = λ x. if x == t then f (tds x) else tds x

-- `urb_priv_t`; `deleted` is the state URB_DEL.
pub record Priv : Type 0 where
  pub length_ : ℕ
  pub td_cnt : ℕ
  pub deleted : Bool
  pub priv_ed : ℕ
  pub td : List ℕ
  pub portable : Extra

-- What the functions on descriptors read and write
pub record TdQueues : Type 0 where
  pub tds : Tds
  pub eds : Eds
  pub priv : Priv

-- The urb: its address, its two buffers' addresses, and the frame its first packet is for
pub record Source : Type 0 where
  pub urb_ptr : ℕ
  pub ctrl : ℕ
  pub data_ptr : ℕ
  pub start_frame : ℕ

-- The address that a call of `td_fill` gets: the setup packet, NULL for the status stage, or a place
-- in the transfer buffer.
abbrev pub data_of : Source → PipeType → Td → ℕ
data_of u control td = elim td.token [
  | td_dp_setup ↦ u.ctrl
  | td_dp_in ↦ if td.len == 0 then 0 else u.data_ptr + td.offset
  | td_dp_out ↦ if td.len == 0 then 0 else u.data_ptr + td.offset
  | td_iso ↦ 0
]
data_of u isochronous td = u.data_ptr + td.offset
data_of u interrupt td = u.data_ptr + td.offset
data_of u bulk td = u.data_ptr + td.offset
data_of u other_type td = u.data_ptr + td.offset

abbrev pub no_data : ℕ → Td → Bool
no_data p td = (p == 0) || (td.len == 0)

abbrev pub current_buffer : PipeType → ℕ → Td → ℕ
current_buffer isochronous p td = if no_data p td then 0 else bit_and p 0xfffff000
current_buffer interrupt p td = if no_data p td then 0 else p
current_buffer control p td = if no_data p td then 0 else p
current_buffer bulk p td = if no_data p td then 0 else p
current_buffer other_type p td = if no_data p td then 0 else p

-- What `td_fill` writes to the old dummy; the index is a byte.
abbrev pub fill : Source → PipeType → Td → ℕ → ℕ → ℕ → TdCell → TdCell
fill u kind td index e next c =
    let p = data_of u kind td in
    record {
      info = td;
      code = 15;
      hw_cbp = current_buffer kind p td;
      hw_be = if no_data p td then 0 else p + td.len - 1;
      hw_psw = bit_or (bit_and p 0xfff) 0xe000;
      hw_next_td = next;
      index = index % 2 ^ 8;
      ed = e;
      urb = u.urb_ptr;
      next_dl_td = 0;
    }

-- `last_iso` after a call of `td_fill`
abbrev pub iso_frame : PipeType → Source → ℕ → ℕ → ℕ
iso_frame isochronous u index last_iso = (u.start_frame + index) % 2 ^ 16
iso_frame interrupt u index last_iso = last_iso
iso_frame control u index last_iso = last_iso
iso_frame bulk u index last_iso = last_iso
iso_frame other_type u index last_iso = last_iso

abbrev pub mark_ed : Source → ℕ → ℕ → Ed → Ed
mark_ed u index tail ed = record ed {
  last_iso = iso_frame ed.kind u index ed.last_iso;
  hw_tail = tail;
}

-- The dummy at the end of the endpoint's queue is filled, and the descriptor that was allocated for
-- the urb becomes the dummy.
abbrev pub put_td : Source → Td → ℕ → TdQueues → TdQueues
put_td u td index q =
    let e = q.priv.priv_ed in
    let td_pt = get_or q.priv.td index 0 in
    let t = (q.eds e).hw_tail in
    let tds = update_td q.tds t (fill u (q.eds e).kind td index e td_pt) in
    let tds' = update_td tds td_pt (λ c. record c { hw_next_td = 0 }) in
    record {
      tds = tds';
      eds = update q.eds e (mark_ed u index (tds' t).hw_next_td);
      priv = record q.priv { td = set q.priv.td index t };
    }

-- `td_fill`
unfoldable pub td_fill : Source → Td → ℕ → TdQueues → TdQueues
td_fill u td index q = if ltb index q.priv.length_ then put_td u td index q else q

-- The calls of `td_fill`, in order
unfoldable pub fill_all : Source → List Td → ℕ → TdQueues → TdQueues
fill_all u [] index q = q
fill_all u (td ∷ rest) index q = fill_all u rest (index + 1) (td_fill u td index q)

-- `td_submit_urb`, for a toggle that usb_gettoggle gives
unfoldable pub fill_urb : Bool → Source → Transfer → TdQueues → TdQueues
fill_urb toggled u t q =
    fill_all u (td_submit_urb toggled t) 0 (record q { priv = record q.priv { td_cnt = 0 } })
