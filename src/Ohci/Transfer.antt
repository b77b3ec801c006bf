-- ===== src/Ohci/Transfer.antt =====
-- The transfer descriptors of an urb in portable-ohci-core.c: how many `sohci_submit_urb` asks for,
-- and those that `td_submit_urb` fills with `td_fill`. The isochronous packets' offsets and lengths
-- are an argument.
pub mod Count
use ps2_side_dumper.Base.{
  ℕ, zero, suc, ◌+◌, ◌-◌, ◌/◌, Bool, true, false, not, Option, none, some, List, [], ◌∷◌, ◌++◌,
  length, ltb, ◌==◌, if◌then◌else◌,
}
use ps2_side_dumper.Usb.{PipeType, isochronous, interrupt, control, bulk, other_type}

-- TD_DP_SETUP, TD_DP_IN and TD_DP_OUT; TD_ISO has none of these.
pub data Token : Type 0 where
  td_dp_setup td_dp_in td_dp_out td_iso : Token

-- The toggle bits: taken from the endpoint, DATA0 or DATA1; an isochronous descriptor has none.
pub data Toggle : Type 0 where
  td_t_none td_t_toggle td_t_data0 td_t_data1 : Toggle

-- The arguments of one call of `td_fill`: `info` as token, toggle and TD_R, and the data with
-- its length. The data is the setup packet for a setup token, and an offset into the transfer
-- buffer otherwise.
pub record Td : Type 0 where
  pub token : Token
  pub toggle : Toggle
  pub rounding : Bool
  pub offset : ℕ
  pub len : ℕ

-- What is read of the urb; the packets are offset and length.
pub record Transfer : Type 0 where
  pub kind : PipeType
  pub out : Bool
  pub transfer_buffer_length : ℕ
  pub packets : List (ℕ × ℕ)

-- The number of descriptors that `sohci_submit_urb` allocates: it becomes `urb_priv->length`.
unfoldable pub td_size : Transfer → ℕ
td_size t = elim t.kind [
  | bulk ↦ (t.transfer_buffer_length - 1) / 4096 + 1
  | isochronous ↦ length t.packets
  | control ↦ if t.transfer_buffer_length == 0 then 2 else (t.transfer_buffer_length - 1) / 4096 + 3
  | interrupt ↦ 1
  | other_type ↦ 0
]

abbrev pub direction : Bool → Token
direction out = if out then td_dp_out else td_dp_in

-- The loop of the bulk case: `offset` bytes are placed and `left` remain. The loop takes 4096
-- bytes a round, so `left` is fuel enough.
unfoldable pub bulk_tds : ℕ → Bool → Toggle → ℕ → ℕ → List Td
bulk_tds zero out toggle offset left =
    record {
      token = direction out;
      toggle = toggle;
      rounding = not out;
      offset = offset;
      len = left;
    }
    ∷ []
bulk_tds (suc fuel) out toggle offset left =
    let rest = bulk_tds fuel out td_t_toggle (offset + 4096) (left - 4096) in
    if ltb 4096 left
    then record {
      token = direction out;
      toggle = toggle;
      rounding = false;
      offset = offset;
      len = 4096;
    }
      ∷ rest
    else record {
      token = direction out;
      toggle = toggle;
      rounding = not out;
      offset = offset;
      len = left;
    }
      ∷ []

abbrev pub iso_tds : List (ℕ × ℕ) → List Td
iso_tds [] = []
iso_tds ((offset, len) ∷ ps) =
    record { token = td_iso; toggle = td_t_none; rounding = false; offset = offset; len = len }
    ∷ iso_tds ps

-- The setup and the status stage of a control transfer
abbrev pub setup_td : Td
setup_td = record {
  token = td_dp_setup;
  toggle = td_t_data0;
  rounding = false;
  offset = 0;
  len = 8;
}

abbrev pub status_td : Bool → Td
status_td out = record {
  token = direction (not out);
  toggle = td_t_data1;
  rounding = false;
  offset = 0;
  len = 0;
}

-- `td_submit_urb`, for a toggle that usb_gettoggle gives: the descriptors it fills, in order
unfoldable pub td_submit_urb : Bool → Transfer → List Td
td_submit_urb toggled t =
    let toggle = if toggled then td_t_toggle else td_t_data0 in
    elim t.kind [
      | bulk ↦ bulk_tds t.transfer_buffer_length t.out toggle 0 t.transfer_buffer_length
      | interrupt ↦
          record {
            token = direction t.out;
            toggle = toggle;
            rounding = not t.out;
            offset = 0;
            len = t.transfer_buffer_length;
          }
          ∷ []
      | control ↦
          setup_td
          ∷ ((if ltb 0 t.transfer_buffer_length
                then record {
                  token = direction t.out;
                  toggle = td_t_data1;
                  rounding = true;
                  offset = 0;
                  len = t.transfer_buffer_length;
                }
                  ∷ []
                else [])
              ++ status_td t.out ∷ [])
      | isochronous ↦ iso_tds t.packets
      | other_type ↦ []
    ]
